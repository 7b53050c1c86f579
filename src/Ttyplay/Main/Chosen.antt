-- ===== src/Ttyplay/Main/Chosen.antt =====
-- What `main` of ttyplay.c plays, how, and what becomes of the terminal.
use ovh_ttyrec.Base.{
  Bool, List, Option, [], arith, false, if◌then◌else◌, none, not, refl, some, suc, true, zero, ℕ,
  ◌&&◌, ◌==◌, ◌||◌, ◌∷◌, ◌≡◌,
}
use ovh_ttyrec.Io.Open.{returns, Descriptors, set_descriptor, edup, edup2, efdopen}
use ovh_ttyrec.Compress.{compress_zstd}
use ovh_ttyrec.Ttyplay.Wait.{Double}
use ovh_ttyrec.Ttyplay.Main.{
  PlayerOption, speed_option, nowait_option, peek_option, zstd_option, help_option, by_ttynowait,
  by_ttypeek, Choice, first_choice, input_from_stdin,
}

abbrev pub any {ℓ} : {A : Type ℓ} → (A → Bool) → List A → Bool
any p [] = false
any p (x ∷ xs) = p x || any p xs

abbrev pub all {ℓ} : {A : Type ℓ} → (A → Bool) → List A → Bool
all p [] = true
all p (x ∷ xs) = p x && all p xs

module _ {W : Type 0} where
  abbrev pub is_nowait : PlayerOption W → Bool
  is_nowait nowait_option = true
  is_nowait _ = false

  abbrev pub is_peek : PlayerOption W → Bool
  is_peek peek_option = true
  is_peek _ = false

  abbrev pub is_zstd : PlayerOption W → Bool
  is_zstd zstd_option = true
  is_zstd _ = false

  -- The last speed that is given.
  abbrev pub last_speed : W → List (PlayerOption W) → W
  last_speed speed [] = speed
  last_speed speed (speed_option (some given) ∷ os) = last_speed given os
  last_speed speed (speed_option none ∷ os) = last_speed speed os
  last_speed speed (nowait_option ∷ os) = last_speed speed os
  last_speed speed (peek_option ∷ os) = last_speed speed os
  last_speed speed (zstd_option ∷ os) = last_speed speed os
  last_speed speed (help_option ∷ os) = last_speed speed os

module _ {W : Type 0} (double : Double W) (have_zstd : Bool) where
  -- The options that do not end the program.
  abbrev pub is_accepted : PlayerOption W → Bool
  is_accepted (speed_option none) = false
  is_accepted (speed_option (some speed)) = not (double.at_most_zero speed)
  is_accepted nowait_option = true
  is_accepted peek_option = true
  is_accepted zstd_option = have_zstd
  is_accepted help_option = false

  abbrev pub chosen : Choice W → List (PlayerOption W) → Bool → Choice W
  chosen c os zst = record {
    speed = last_speed c.speed os;
    wait_func = if any is_nowait os then by_ttynowait else c.wait_func;
    process = if any is_peek os then by_ttypeek else c.process;
    wrappers = if any is_zstd os || zst then compress_zstd else c.wrappers;
  }

  abbrev pub first : Choice W
  first = first_choice double have_zstd

-- On the standard input: the stream reads what descriptor 0 was, and 0 is then what 1 is.
pub input_from_stdin_lem :
    {F : Type 0} (unused : Descriptors F → Option ℕ) (table : Descriptors F) (fd : ℕ)
    (input tty : F)
    → table 0 ≡ some input
    → table 1 ≡ some tty
    → unused table ≡ some fd
    → table fd ≡ none
    → (table' : Descriptors F) × (input_from_stdin unused table ≡ returns (input, table'))
      × (table' 0 ≡ some tty)
      × (table' 1 ≡ some tty)
unfolding input_from_stdin edup edup2 efdopen
input_from_stdin_lem unused table zero input tty zero_is one_is new free = cc
input_from_stdin_lem unused table (suc zero) input tty zero_is one_is new free = cc
input_from_stdin_lem unused table (suc (suc n)) input tty zero_is one_is new free =
    let fd = suc (suc n) in
    let not_one : (1 == fd) ≡ false = ground arith in
    let not_zero : (fd == 0) ≡ false = ground arith in
    let self : (fd == fd) ≡ true = ground arith in
    (
      set_descriptor 0 tty (set_descriptor fd input table),
      rw (zero_is, edup, input_from_stdin)
          (rw (new, edup)
            (rw (not_one, edup2)
              (rw (one_is, edup2) (rw (not_zero, efdopen) (rw (self, efdopen) refl))))),
      refl,
      rw (not_one) one_is,
    )

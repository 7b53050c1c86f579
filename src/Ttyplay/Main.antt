-- ===== src/Ttyplay/Main.antt =====
-- `main` of ttyplay.c: the options, the input, and the terminal while the program runs.
pub mod Chosen
use ovh_ttyrec.Base.{
  Bool, List, Option, [], drop, false, if◌then◌else◌, leb, length, none, pos, some, true, ℕ, ◌&&◌,
  ◌-◌, ◌==◌, ◌∷◌,
}
use ovh_ttyrec.Io.Open.{
  Outcome, returns, exits, exit_failure, ◌>>=◌, efopen, Descriptors, edup, edup2, efdopen,
}
use ovh_ttyrec.Compress.{CompressMode, compress_none, compress_zstd, set_compress_mode}
use ovh_ttyrec.Ttyplay.Wait.{Double}

-- What `getopt` finds. The number of `-s` is `none` where there is no argument or `sscanf` fails, and
-- the last one is `-h` or what is no option.
pub data PlayerOption (W : Type 0) : Type 0 where
  speed_option : Option W → PlayerOption W
  nowait_option peek_option zstd_option help_option : PlayerOption W

pub data Waits : Type 0 where
  by_ttywait by_ttynowait : Waits

pub data PlayProcess : Type 0 where
  by_ttyplayback by_ttypeek : PlayProcess

-- The variables that the options set, and the functions of `set_compress_mode`.
pub record Choice (W : Type 0) : Type 0 where
  pub speed : W
  pub wait_func : Waits
  pub process : PlayProcess
  pub wrappers : CompressMode

-- The bytes of ".zst", and whether a file name ends in them.
abbrev pub zst_suffix : List ℕ
zst_suffix = b'.' ∷ b'z' ∷ b's' ∷ b't' ∷ []

abbrev pub same_bytes : List ℕ → List ℕ → Bool
same_bytes [] [] = true
same_bytes [] (b ∷ bs) = false
same_bytes (a ∷ as_left) [] = false
same_bytes (a ∷ as_left) (b ∷ bs) = (a == b) && same_bytes as_left bs

unfoldable pub is_zst : List ℕ → Bool
is_zst path = leb 4 (length path) && same_bytes (drop (length path - 4) path) zst_suffix

-- The flags of the terminal's `c_lflag` that the program clears, and all the rest of its state.
pub record Termios : Type 0 where
  pub icanon : Bool
  pub echo : Bool
  pub echonl : Bool
  pub others : ℕ

abbrev pub unbuffered : Termios → Termios
unbuffered old = record old { icanon = false; echo = false; echonl = false }

-- What `main` does once all is chosen.
pub data Call (W F : Type 0) : Type 0 where
  tcsetattr : Termios → Call W F
  plays : Choice W → F → Call W F

-- Descriptor 0 becomes what 1 is, the terminal, and the stream is on what 0 was.
unfoldable pub input_from_stdin :
    {F : Type 0} → (Descriptors F → Option ℕ) → Descriptors F → Outcome (F × Descriptors F)
unfolding edup edup2 efdopen
input_from_stdin unused table = do
  (fd, table1) ← edup unused 0 table
  (zero_fd, table2) ← edup2 1 0 table1
  input ← efdopen fd table2
  returns (input, table2)

module _ {W : Type 0} (double : Double W) (have_zstd : Bool) where
  open double use {number, at_most_zero}

  unfoldable pub player_option : Choice W → PlayerOption W → Outcome (Choice W)
  player_option c (speed_option none) = exits exit_failure
  player_option c (speed_option (some speed)) =
      if at_most_zero speed then exits exit_failure else returns (record c { speed = speed })
  player_option c nowait_option = returns (record c { wait_func = by_ttynowait })
  player_option c peek_option = returns (record c { process = by_ttypeek })
  player_option c zstd_option =
      if have_zstd
      then returns
          (record c { wrappers = (set_compress_mode have_zstd compress_zstd c.wrappers).1 })
      else exits exit_failure
  player_option c help_option = exits exit_failure

  unfoldable pub player_options : Choice W → List (PlayerOption W) → Outcome (Choice W)
  unfolding player_option
  player_options c [] = returns c
  player_options c (o ∷ os) = player_option c o >>= λ c'. player_options c' os

  abbrev pub first_choice : Choice W
  first_choice = record {
    speed = number (pos 1);
    wait_func = by_ttywait;
    process = by_ttyplayback;
    wrappers = compress_none;
  }

module _ {W F : Type 0} (double : Double W) (have_zstd : Bool) where
  -- The file that is named first, or the standard input.
  unfoldable pub choose_input :
      (List ℕ → Option F)
      → (Descriptors F → Option ℕ)
      → List (List ℕ)
      → Descriptors F
      → Choice W
      → Outcome (Choice W × F)
  unfolding efopen input_from_stdin
  choose_input fopen unused [] table c = do
    (input, table') ← input_from_stdin unused table
    returns (c, input)
  choose_input fopen unused (path ∷ more) table c = do
    input ← efopen fopen path
    returns (
      if have_zstd && is_zst path
          then record c { wrappers = (set_compress_mode have_zstd compress_zstd c.wrappers).1 }
          else c,
      input,
    )

  unfoldable pub player_main :
      (List ℕ → Option F)
      → (Descriptors F → Option ℕ)
      → List (PlayerOption W)
      → List (List ℕ)
      → Descriptors F
      → Termios
      → Outcome (List (Call W F))
  unfolding player_options choose_input
  player_main fopen unused options args table old = do
    c ← player_options double have_zstd (first_choice double have_zstd) options
    (chosen, input) ← choose_input fopen unused args table c
    returns (tcsetattr (unbuffered old) ∷ plays chosen input ∷ tcsetattr old ∷ [])

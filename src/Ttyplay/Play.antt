-- ===== src/Ttyplay/Play.antt =====
-- The loop `ttyplay` of ttyplay.c, and its uses `ttyskipall` and `ttyplayback`.
pub mod Replay
pub mod Any
pub mod Skip
pub mod Peek
use ovh_ttyrec.Base.{
  Bool, List, Option, false, if◌then◌else◌, none, pos, pos_part, some, suc, take, true, zero, ℕ, ℤ,
  ◌++◌,
}
use ovh_ttyrec.Header.{Timeval, Header}
use ovh_ttyrec.Io.{Endian}
use ovh_ttyrec.Ttyplay.Read.{Input, ttyread, ttypread}

-- What the player works on: the input, what it has written to stdout, and the state `E` that the
-- waiting depends on (the clock, the keyboard, the drift).
pub record Player {ℓ} (S E : Type ℓ) : Type ℓ where
  pub input : S
  pub out : List ℕ
  pub env : E

-- The three functions that `ttyplay` is given, over speeds `D`.
abbrev pub ReadFunc {ℓ} : Type ℓ → Type ℓ
ReadFunc W = W → Option (Header × List ℕ) × W

abbrev pub WriteFunc {ℓ} : Type ℓ → Type ℓ
WriteFunc W = List ℕ → ℤ → W → W

abbrev pub WaitFunc {ℓ} : Type ℓ → Type ℓ → Type ℓ
WaitFunc D W = Timeval → Timeval → D → W → D × W

-- The loop, with at most so many rounds; `none` means that they ran out. `prev` is read only where
-- `first_time` is false.
module _ {ℓ} {D W : Type ℓ} (read_func : ReadFunc W) (write_func : WriteFunc W)
    (wait_func : WaitFunc D W) where
  unfoldable pub ttyplay_loop : ℕ → Bool → Timeval → D → W → Option W
  ttyplay_loop zero first_time prev speed w = none
  ttyplay_loop (suc rounds) first_time prev speed w =
      let (result, w1) = read_func w in
      elim result [
        | none ↦ some w1
        | some (h, buf) ↦
            let (speed', w2) = (if first_time then (speed, w1) else wait_func prev h.tv speed w1) in
            ttyplay_loop rounds false h.tv speed' (write_func buf h.len w2)
      ]

-- `prev` has no value before the first record.
abbrev pub no_time : Timeval
no_time = record { tv_sec = pos 0; tv_usec = pos 0 }

-- The 0 that is returned is the speed `zero_speed`.
unfoldable pub ttynowait {ℓ} : {D E : Type ℓ} → D → WaitFunc D E
ttynowait zero_speed prev cur speed env = (zero_speed, env)

module _ {ℓ} {S E : Type ℓ} where
  -- A function that reads the input, and one that only waits.
  abbrev pub reading : (S → Option (Header × List ℕ) × S) → ReadFunc (Player S E)
  reading read w = let (result, input) = read w.input in (result, record w { input = input })

  abbrev pub waiting : {D : Type ℓ} → WaitFunc D E → WaitFunc D (Player S E)
  waiting wait prev cur speed w =
      let (speed', env) = wait prev cur speed w.env in (speed', record w { env = env })

  unfoldable pub ttywrite : WriteFunc (Player S E)
  ttywrite buf len w = record w { out = w.out ++ take (pos_part len) buf }

  unfoldable pub ttynowrite : WriteFunc (Player S E)
  ttynowrite buf len w = w

-- The state of a function that follows the file is what becomes of the input while it sleeps.
abbrev pub following {ℓ} :
    {S : Type ℓ}
    → (List (S → S) → S → Option (Header × List ℕ) × List (S → S) × S)
    → ReadFunc (Player S (List (S → S)))
following read w =
    let (result, later, input) = read w.env w.input in
    (result, record w { input = input; env = later })

module _ {ℓ} {S E D : Type ℓ} (io : Input S) (malloc : ℕ → Bool) (e : Endian) where
  unfoldable pub ttyplayback : ℕ → D → WaitFunc D E → Player S E → Option (Player S E)
  unfolding ttyplay_loop
  ttyplayback rounds speed wait_func w =
      ttyplay_loop (reading (ttyread io malloc e)) ttywrite (waiting wait_func) rounds true no_time
        speed w

  unfoldable pub ttyskipall : ℕ → D → Player S E → Option (Player S E)
  unfolding ttyplay_loop
  ttyskipall rounds zero_speed w =
      ttyplay_loop (reading (ttyread io malloc e)) ttynowrite (waiting (ttynowait zero_speed))
        rounds true no_time zero_speed w

module _ {ℓ} {S D : Type ℓ} (io : Input S) (malloc : ℕ → Bool) (e : Endian) where
  unfoldable pub ttypeek : ℕ → D → D → Player S (List (S → S)) → Option (Player S (List (S → S)))
  unfolding ttyplay_loop ttyskipall
  ttypeek rounds zero_speed speed w = elim (ttyskipall io malloc e rounds zero_speed w) [
    | none ↦ none
    | some w1 ↦
        ttyplay_loop (following (ttypread io malloc e)) ttywrite (waiting (ttynowait zero_speed))
          rounds true no_time speed w1
  ]

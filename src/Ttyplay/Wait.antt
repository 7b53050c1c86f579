-- ===== src/Ttyplay/Wait.antt =====
-- `timeval_div` and `ttywait` of ttyplay.c.
pub mod Drift
pub mod Late
use ovh_ttyrec.Base.{
  Bool, List, [], get_or, if◌then◌else◌, length, ltb_ℤ, neg_part, pos, pos_part, true, ℕ, ℤ, ◌&&◌,
  ◌++◌, ◌+◌, ◌==◌, ◌||◌, ◌∷◌,
}
use ovh_ttyrec.Header.{Timeval}
use ovh_ttyrec.Timeval.{timeval_diff}
use ovh_ttyrec.Ttyplay.Play.{WaitFunc}

-- What the code does with a `double`: numbers as such, arithmetic, the conversions to `int` and to
-- `long`, and the comparisons with 0.
pub record Double (W : Type 0) : Type 0 where
  pub number : ℤ → W
  pub plus : W → W → W
  pub minus : W → W → W
  pub times : W → W → W
  pub divide : W → W → W
  pub to_int : W → ℤ
  pub to_long : W → ℤ
  pub is_zero : W → Bool
  pub at_most_zero : W → Bool

-- What a call of `ttywait` meets: the clock at both readings, whether `select` says that a key can be
-- read, and what is then read, 32 bytes at most.
pub record Moment : Type 0 where
  pub start : Timeval
  pub key : Bool
  pub typed : List ℕ
  pub stop : Timeval

-- The static variable, the moments to come and how many are over, the timeouts that `select` was given,
-- and whether the assertion has failed.
pub record Waiting : Type 0 where
  pub drift : Timeval
  pub moments : ℕ → Moment
  pub calls : ℕ
  pub asked : List Timeval
  pub aborted : Bool

abbrev pub zero_time : Timeval
zero_time = record { tv_sec = pos 0; tv_usec = pos 0 }

abbrev pub is_zero_time : Timeval → Bool
is_zero_time tv =
    (pos_part tv.tv_sec == 0)
    && (neg_part tv.tv_sec == 0)
    && (pos_part tv.tv_usec == 0)
    && (neg_part tv.tv_usec == 0)

module _ {W : Type 0} (double : Double W) where
  open double use {number, plus, minus, times, divide, to_int, to_long, is_zero}

  unfoldable pub timeval_div : Timeval → W → Timeval
  timeval_div tv1 n =
      let million = number (pos 1000000) in
      let x = divide (plus (number tv1.tv_sec) (divide (number tv1.tv_usec) million)) n in
      record { tv_sec = to_int x; tv_usec = to_long (times (minus x (number (to_int x))) million) }

  -- The switch on the character that was typed.
  unfoldable pub new_speed : ℕ → W → W
  new_speed c speed =
      if (c == b'+') || (c == b'f')
      then times speed (number (pos 2))
      else if (c == b'-') || (c == b's')
      then divide speed (number (pos 2))
      else if c == b'1'
      then number (pos 1)
      else speed

  -- What is waited for: what is due less the drift, and nothing where that is negative.
  unfoldable pub time_to_wait : Timeval → Timeval → Timeval
  time_to_wait drift due =
      let diff = timeval_diff drift due in if ltb_ℤ diff.tv_sec (pos 0) then zero_time else diff

  -- The drift after a wait that no key has ended.
  unfoldable pub new_drift : Timeval → Timeval → Timeval → Timeval → Timeval
  new_drift drift diff start stop =
      timeval_diff (if is_zero_time diff then timeval_diff drift diff else diff)
        (timeval_diff start stop)

  unfoldable pub ttywait : WaitFunc W Waiting
  unfolding new_speed time_to_wait new_drift
  ttywait prev cur speed env =
      let m = env.moments env.calls in
      let diff = time_to_wait env.drift (timeval_div (timeval_diff prev cur) speed) in
      if is_zero speed
      then (speed, record env { aborted = true })
      else (let env' = record env { calls = env.calls + 1; asked = env.asked ++ diff ∷ [] } in
          if m.key
          then (
            if length m.typed == 1 then new_speed (get_or m.typed 0 0) speed else speed,
            record env' { drift = zero_time },
          )
          else (speed, record env' { drift = new_drift env.drift diff m.start m.stop }))

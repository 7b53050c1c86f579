-- ===== src/Examples/Waiting.antt =====
-- Runs of the waiting, the peeking and the options of ttyplay.c.
use ovh_ttyrec.Base.{
  List, [], arith, drop, false, if◌then◌else◌, int_laws, ltb_ℤ, map, neg_part, none, pos, pos_part,
  refl, some, take, true, ℕ, ℤ, ◌&&◌, ◌*◌, ◌++◌, ◌/◌, ◌==◌, ◌∷◌, ◌≡◌, ◌≤ℤ◌,
}
use ovh_ttyrec.Base.Int.{◌+ℤ◌, ◌-ℤ◌, scale}
use ovh_ttyrec.Header.{Timeval}
use ovh_ttyrec.Io.{big, little, encode_header, word_bytes}
use ovh_ttyrec.Io.Open.{returns}
use ovh_ttyrec.Stdio.{File}
use ovh_ttyrec.Recording.{Record, record_bytes}
use ovh_ttyrec.Timeval.{timeval_diff}
use ovh_ttyrec.Timeval.Normal.{micros, IsNormal}
use ovh_ttyrec.Compress.{compress_zstd}
use ovh_ttyrec.Ttyplay.Read.{plain}
use ovh_ttyrec.Ttyplay.Read.Plain.{Playable}
use ovh_ttyrec.Ttyplay.Read.Follow.{grow}
use ovh_ttyrec.Ttyplay.Play.{Player, ttypeek}
use ovh_ttyrec.Ttyplay.Play.Replay.{waits}
use ovh_ttyrec.Ttyplay.Play.Peek.{ttypeek_follows}
use ovh_ttyrec.Ttyplay.Wait.{Double, Moment, Waiting, zero_time, timeval_div, ttywait}
use ovh_ttyrec.Ttyplay.Wait.Drift.{Undisturbed}
use ovh_ttyrec.Ttyplay.Wait.Late.{due, ttywait_drift, never_caught_up}
use ovh_ttyrec.Ttyplay.Main.{PlayerOption, speed_option, nowait_option, Termios}
use ovh_ttyrec.Ttyrec.FileName.{text_zst}
use ovh_ttyrec.Ttyrec.FileName.Script.{script_name}
use ovh_ttyrec.Ttyrec.FileName.Recognised.{recording_is_recognised}
use ovh_ttyrec.Ttyplay.Main.{choose_input, first_choice}

-- Whole seconds in place of a `double`.
abbrev seconds : Double ℤ
seconds = record {
  number = λ z. z;
  plus = λ a b. a +ℤ b;
  minus = λ a b. a -ℤ b;
  times = λ a b. pos (pos_part a * pos_part b);
  divide = λ a b. pos (pos_part a / pos_part b);
  to_int = λ z. z;
  to_long = λ z. z;
  is_zero = λ z. (pos_part z == 0) && (neg_part z == 0);
  at_most_zero = λ z. pos_part z == 0;
}

abbrev second : ℕ → Timeval
second n = record { tv_sec = pos n; tv_usec = pos 0 }

abbrev at_second : ℕ → Record
at_second n = record { sec = n; usec = 0; payload = 65 ∷ [] }

-- Every wait takes one second.
abbrev slow : Moment
slow = record { start = second 100; key = false; typed = []; stop = second 101 }

abbrev late_by : ℕ → Waiting
late_by n = record { drift = second n; moments = λ k. slow; calls = 0; asked = []; aborted = false }

slow-Undisturbed : Undisturbed slow
slow-Undisturbed = record {
  no_key = refl;
  start_normal = (omega arith, omega arith);
  stop_normal = (omega arith, omega arith);
  goes_on = omega int_laws;
}

-- Three seconds are due, of which one has gone by already.
ttywait_drift_example :
    let (speed', env') = ttywait seconds (second 5) (second 8) (pos 1) (late_by 1) in
    let late = ltb_ℤ (micros (second 1)) (micros (due seconds (pos 1) (second 5) (second 8))) in
    (speed' ≡ pos 1)
    × ((wanted : Timeval) × (env'.asked ≡ wanted ∷ [])
        × (micros wanted ≡ (
            if late
            then micros (due seconds (pos 1) (second 5) (second 8)) -ℤ micros (second 1)
            else pos 0)))
    × (micros env'.drift
          +ℤ (if late then micros (due seconds (pos 1) (second 5) (second 8)) else pos 0)
        ≡ micros (second 1) +ℤ (micros (second 101) -ℤ micros (second 100)))
    × IsNormal env'.drift
unfolding timeval_div timeval_diff ◌+ℤ◌ ◌-ℤ◌ scale
ttywait_drift_example =
    ttywait_drift seconds (second 5) (second 8) (pos 1) (late_by 1) refl slow-Undisturbed
      (omega arith, omega arith) (omega arith, omega arith)

never_caught_up_example :
    let (speed', env') =
      waits (ttywait seconds) (second 5) (pos 1) (late_by 3) (at_second 7 ∷ at_second 9 ∷ []) in
    (speed' ≡ pos 1)
    × (env'.asked ≡ zero_time ∷ zero_time ∷ [])
    × (micros (second 3) ≤ℤ micros env'.drift)
unfolding timeval_div timeval_diff ◌+ℤ◌ ◌-ℤ◌ scale
never_caught_up_example =
    never_caught_up seconds (at_second 7 ∷ at_second 9 ∷ []) (second 5) (pos 1) (late_by 3)
      (micros (second 3)) refl (λ n. slow-Undisturbed) (omega arith, omega arith) (omega arith)
      ((omega arith, omega arith), omega arith, ((omega arith, omega arith), omega arith, _))

-- A file that holds one record and five bytes of the next one.
abbrev old : Record
old = at_second 5

abbrev new : Record
new = record { sec = 7; usec = 0; payload = 66 ∷ 67 ∷ [] }

old-Playable : Playable old
old-Playable = record {
  fits = record { sec_fits = omega arith; usec_fits = omega arith; len_fits = omega arith };
  not_empty = omega arith;
  not_long = omega arith;
}

new-Playable : Playable new
new-Playable = record {
  fits = record { sec_fits = omega arith; usec_fits = omega arith; len_fits = omega arith };
  not_empty = omega arith;
  not_long = omega arith;
}

abbrev peeker : Player File (List (File → File))
peeker = record {
  input = record {
    content = record_bytes big old ++ take 5 (record_bytes big new);
    pos = 0;
    seekable = true;
    broken = false;
    error = false;
  };
  out = [];
  env = map grow (take 4 (drop 5 (record_bytes big new)) ∷ drop 9 (record_bytes big new) ∷ []);
}

ttypeek_follows_example :
    (w' : Player File (List (File → File))) × (ttypeek plain
        (λ n. true)
        little
        2
        (pos 0)
        (pos 1)
        peeker
      ≡ some w')
    × (w'.out ≡ 66 ∷ 67 ∷ [])
unfolding encode_header word_bytes
ttypeek_follows_example =
    ttypeek_follows (λ n. true) (λ n h. refl) big little (pos 0) (old ∷ []) (new ∷ [])
      (take 5 (record_bytes big new)) []
      (take 4 (drop 5 (record_bytes big new)) ∷ drop 9 (record_bytes big new) ∷ []) 2 (pos 1) peeker
      (old-Playable, _) (new-Playable, _) refl refl (omega arith) (omega arith) refl refl
      (omega arith) refl (omega arith) (omega arith)

-- `ttyplay -n -s 2 a.zst`
abbrev some_options : List (PlayerOption ℤ)
some_options = nowait_option ∷ speed_option (some (pos 2)) ∷ []

abbrev terminal : Termios
terminal = record { icanon = true; echo = true; echonl = false; others = 7 }

-- `ttyrec -Z -f a`
recording_is_recognised_example :
    choose_input seconds true
      (λ path. some path)
      (λ table. none)
      ((97 ∷ text_zst) ∷ [])
      (λ n. none)
      (first_choice seconds true)
    ≡ returns (record (first_choice seconds true) { wrappers = compress_zstd }, 97 ∷ text_zst)
unfolding script_name
recording_is_recognised_example =
    recording_is_recognised seconds (λ path. some path) (λ table. none) false [] none
      (some (97 ∷ [])) 0 (97 ∷ text_zst) [] (λ n. none) (first_choice seconds true) (97 ∷ text_zst)
      refl refl

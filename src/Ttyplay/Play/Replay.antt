-- ===== src/Ttyplay/Play/Replay.antt =====
-- `ttyplayback` of ttyplay.c on a recording.
use ovh_ttyrec.Ttyplay.Read.Follow.{length-record_bytes}
use ovh_ttyrec.Base.{
  Bool, List, Option, [], ap, append-nil, append_assoc, ap₂, arith, drop, false, length,
  length-append, none, some, suc, sym, take_all, true, zero, ℕ, ◌++◌, ◌+◌, ◌<◌, ◌∙◌, ◌∷◌, ◌≡◌, ◌≤◌,
}
use ovh_ttyrec.Stdio.{File, remaining, clearerr}
use ovh_ttyrec.Header.{Timeval, Header}
use ovh_ttyrec.Io.{Endian}
use ovh_ttyrec.Recording.{Record, header_of, time_of, record_bytes, file_bytes, payloads}
use ovh_ttyrec.Recording.Position.{remaining_rest}
use ovh_ttyrec.Ttyplay.Read.{plain, max_record_len, ttyread}
use ovh_ttyrec.Ttyplay.Read.Plain.{Playable, ttyread_record}
use ovh_ttyrec.Ttyplay.Read.Cut.{ttyread_end}
use ovh_ttyrec.Ttyplay.Play.{
  Player, ReadFunc, WriteFunc, WaitFunc, ttyplay_loop, no_time, reading, waiting, ttywrite,
  ttyplayback,
}

abbrev pub AllPlayable : List Record → Type 0
AllPlayable [] = Unit
AllPlayable (r ∷ rs) = Playable r × AllPlayable rs

-- The calls of the wait function: one before each record but the first, with the times of the two.
abbrev pub waits {ℓ} : {D E : Type ℓ} → WaitFunc D E → Timeval → D → E → List Record → D × E
waits wait prev speed env [] = (speed, env)
waits wait prev speed env (r ∷ rs) =
    let (speed', env') = wait prev (time_of r) speed env in waits wait (time_of r) speed' env' rs

-- The same from the beginning.
abbrev pub all_waits {ℓ} : {D E : Type ℓ} → WaitFunc D E → D → E → List Record → E
all_waits wait speed env [] = env
all_waits wait speed env (r ∷ rs) = (waits wait (time_of r) speed env rs).1

-- A stream behind `n` bytes more, with its error flag cleared.
abbrev pub behind : ℕ → File → File
behind n f = record f { pos = f.pos + n; error = false }

-- One round of the loop, by the result of the read function.
module _ {ℓ} {D W : Type ℓ} (read : ReadFunc W) (write : WriteFunc W) (wait : WaitFunc D W) where
  pub loop_end :
      (rounds : ℕ) (first : Bool) (prev : Timeval) (speed : D) (w : W) {w' : W}
      → read w ≡ (none, w')
      → ttyplay_loop read write wait (suc rounds) first prev speed w ≡ some w'
  unfolding ttyplay_loop
  loop_end rounds first prev speed w h = rw (h, ttyplay_loop) (rw h)

  pub loop_first :
      (rounds : ℕ) (prev : Timeval) (speed : D) (w : W) {h : Header} {buf : List ℕ} {w' : W}
      → read w ≡ (some (h, buf), w')
      → ttyplay_loop read write wait (suc rounds) true prev speed w
        ≡ ttyplay_loop read write wait rounds false h.tv speed (write buf h.len w')
  unfolding ttyplay_loop
  loop_first rounds prev speed w h = rw (h, ttyplay_loop) (rw h)

  pub loop_next :
      (rounds : ℕ) (prev : Timeval) (speed : D) (w : W) {h : Header} {buf : List ℕ} {w' : W}
      → read w ≡ (some (h, buf), w')
      → ttyplay_loop read write wait (suc rounds) false prev speed w ≡ (
          let (speed', w2) = wait prev h.tv speed w' in
          ttyplay_loop read write wait rounds false h.tv speed' (write buf h.len w2))
  unfolding ttyplay_loop
  loop_next rounds prev speed w h = rw (h, ttyplay_loop) (rw h)

module _ (malloc : ℕ → Bool) (enough : (n : ℕ) → n ≤ max_record_len → malloc n ≡ true)
    (e e' : Endian) where
  -- `ttyread` at a record, with the position added up.
  pub read_one :
      (r : Record) (rest : List ℕ) (fp : File)
      → Playable r
      → remaining fp ≡ record_bytes e r ++ rest
      → (ttyread plain malloc e' fp
          ≡ (some (header_of r, r.payload), behind (length (record_bytes e r)) fp))
        × (remaining (behind (length (record_bytes e r)) fp) ≡ rest)
  unfolding clearerr
  read_one r rest fp ok here =
      let n = length r.payload in
      let sum : fp.pos + 12 + n ≡ fp.pos + length (record_bytes e r) =
        omega (arith, length-record_bytes e r) in
      (
        ttyread_record malloc e e' r rest fp ok (enough n ok.not_long) here
            ∙ ap (λ (k : ℕ). (some (header_of r, r.payload), record fp { pos = k; error = false }))
                sum,
        ap (λ (k : ℕ). drop k fp.content) (sym sum) ∙ remaining_rest e r fp rest here,
      )

  module _ {E D : Type 0} (wait : WaitFunc D E) where
    abbrev loop : ℕ → Bool → Timeval → D → Player File E → Option (Player File E)
    loop = ttyplay_loop (reading (ttyread plain malloc e')) ttywrite (waiting wait)

    -- The state at the end, from its position and its output.
    abbrev ended : File → E → ℕ → List ℕ → Option (Player File E)
    ended fp env k out =
        some (record { input = record fp { pos = k; error = false }; out = out; env = env })

    played :
        (fp : File) (env : E) {k k' : ℕ} {o o' : List ℕ}
        → k ≡ k'
        → o ≡ o'
        → ended fp env k o ≡ ended fp env k' o'
    played fp env p q = ap₂ (ended fp env) p q

    -- The rest of a recording, behind its first record.
    play_rest :
        (rs : List Record) (tail : List ℕ) (rounds : ℕ) (prev : Timeval) (speed : D) (fp : File)
        (out : List ℕ) (env : E)
        → AllPlayable rs
        → fp.seekable ≡ true
        → fp.broken ≡ false
        → length tail < 12
        → remaining fp ≡ file_bytes e rs ++ tail
        → length rs < rounds
        → loop rounds false prev speed (record { input = fp; out = out; env = env })
          ≡ some (record {
            input = behind (length (file_bytes e rs)) fp;
            out = out ++ payloads rs;
            env = (waits wait prev speed env rs).1;
          })
    unfolding ttywrite clearerr
    play_rest rs tail zero prev speed fp out env ok s b t here p = absurd (omega arith)
    play_rest [] tail (suc rounds) prev speed fp out env ok s b t here p =
        loop_end (reading (ttyread plain malloc e')) ttywrite (waiting wait) rounds false prev speed
          (record { input = fp; out = out; env = env })
          (ap (λ x. (x.0, record { input = x.1; out = out; env = env }))
            (ttyread_end malloc e' fp s b (omega (arith, ap length here))))
        ∙ played fp env (omega arith) (sym (append-nil out))
    play_rest (r ∷ rs) tail (suc rounds) prev speed fp out env ok s b t here p =
        let rest = file_bytes e rs ++ tail in
        let this =
          read_one r rest fp ok.0 (here ∙ append_assoc (record_bytes e r) (file_bytes e rs) tail) in
        let (speed', env') = wait prev (time_of r) speed env in
        let next = behind (length (record_bytes e r)) fp in
        loop_next (reading (ttyread plain malloc e')) ttywrite (waiting wait) rounds prev speed
          (record { input = fp; out = out; env = env })
          (ap (λ x. (x.0, record { input = x.1; out = out; env = env })) this.0)
        ∙ ap
            (λ (o : List ℕ).
              loop rounds false (time_of r) speed'
                (record { input = next; out = out ++ o; env = env' }))
            (take_all (length r.payload) r.payload (omega arith))
        ∙ play_rest rs tail rounds (time_of r) speed' next (out ++ r.payload) env' ok.1 s b t this.1
            (omega arith)
        ∙ played fp (waits wait (time_of r) speed' env' rs).1
            (omega (arith, length-append (record_bytes e r) (file_bytes e rs)))
            (append_assoc out r.payload (payloads rs))

    -- Playing a recording from its beginning: also if its last bytes are a header that was cut short,
    -- the loop ends by itself, what is written to stdout is exactly what was recorded, in order, and
    -- the wait function was called once between any two records, with their times. The file can seek
    -- and has no input error, `malloc` gives every buffer up to MAX_RECORD_LEN, every record can be
    -- stored and has 1 to MAX_RECORD_LEN bytes, and there is one round more than there are records.
    pub ttyplayback_replays :
        (rs : List Record) (tail : List ℕ) (rounds : ℕ) (speed : D) (w : Player File E)
        → AllPlayable rs
        → w.input.seekable ≡ true
        → w.input.broken ≡ false
        → length tail < 12
        → remaining w.input ≡ file_bytes e rs ++ tail
        → length rs < rounds
        → ttyplayback plain malloc e' rounds speed wait w
          ≡ some (record {
            input = behind (length (file_bytes e rs)) w.input;
            out = w.out ++ payloads rs;
            env = all_waits wait speed w.env rs;
          })
    unfolding ttyplayback ttywrite clearerr
    ttyplayback_replays rs tail zero speed w ok s b t here p = absurd (omega arith)
    ttyplayback_replays [] tail (suc rounds) speed w ok s b t here p =
        loop_end (reading (ttyread plain malloc e')) ttywrite (waiting wait) rounds true no_time
          speed w
          (ap (λ x. (x.0, record w { input = x.1 }))
            (ttyread_end malloc e' w.input s b (omega (arith, ap length here))))
        ∙ played w.input w.env (omega arith) (sym (append-nil w.out))
    ttyplayback_replays (r ∷ rs) tail (suc rounds) speed w ok s b t here p =
        let rest = file_bytes e rs ++ tail in
        let this =
          read_one r rest w.input ok.0
            (here ∙ append_assoc (record_bytes e r) (file_bytes e rs) tail) in
        let next = behind (length (record_bytes e r)) w.input in
        loop_first (reading (ttyread plain malloc e')) ttywrite (waiting wait) rounds no_time speed
          w (ap (λ x. (x.0, record w { input = x.1 })) this.0)
        ∙ ap
            (λ (o : List ℕ).
              loop rounds false (time_of r) speed
                (record { input = next; out = w.out ++ o; env = w.env }))
            (take_all (length r.payload) r.payload (omega arith))
        ∙ play_rest rs tail rounds (time_of r) speed next (w.out ++ r.payload) w.env ok.1 s b t
            this.1 (omega arith)
        ∙ played w.input (waits wait (time_of r) speed w.env rs).1
            (omega (arith, length-append (record_bytes e r) (file_bytes e rs)))
            (append_assoc w.out r.payload (payloads rs))

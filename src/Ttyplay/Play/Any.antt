-- ===== src/Ttyplay/Play/Any.antt =====
-- `ttyplayback` of ttyplay.c over any `fread_wrapper` that gives the bytes one after the other.
use ovh_ttyrec.Base.{
  Bool, List, Option, [], ap, append-nil, append_assoc, arith, false, length, pos, some, suc, sym,
  take_all, true, zero, ℕ, ◌++◌, ◌<◌, ◌∙◌, ◌∷◌, ◌≡◌, ◌≤◌,
}
use ovh_ttyrec.Header.{Timeval}
use ovh_ttyrec.Io.{Endian}
use ovh_ttyrec.Recording.{Record, time_of, record_bytes, file_bytes, payloads}
use ovh_ttyrec.Ttyplay.Read.{Input, max_record_len, ttyread}
use ovh_ttyrec.Ttyplay.Read.Source.{Source, source_record, source_end}
use ovh_ttyrec.Ttyplay.Play.{
  Player, WaitFunc, ttyplay_loop, no_time, reading, waiting, ttywrite, ttyplayback,
}
use ovh_ttyrec.Ttyplay.Play.Replay.{AllPlayable, waits, all_waits, loop_end, loop_first, loop_next}

module _ {S E D : Type 0} (io : Input S) (source : Source io) (malloc : ℕ → Bool)
    (enough : (n : ℕ) → n ≤ max_record_len → malloc n ≡ true) (e e' : Endian)
    (wait : WaitFunc D E) where
  open source use {Has}

  abbrev loop : ℕ → Bool → Timeval → D → Player S E → Option (Player S E)
  loop = ttyplay_loop (reading (ttyread io malloc e')) ttywrite (waiting wait)

  -- The end of the loop: what was written and the state of the waiting.
  abbrev Ends : Option (Player S E) → List ℕ → E → Type 0
  Ends result out env =
      (input : S) × (result ≡ some (record { input = input; out = out; env = env }))

  idle_loop :
      (rounds : ℕ) (first : Bool) (prev : Timeval) (speed : D) (tail : List ℕ) (w : Player S E)
      → length tail < 12
      → Has w.input tail
      → Ends (loop (suc rounds) first prev speed w) w.out w.env
  idle_loop rounds first prev speed tail w t h =
      let (s, eq) = source_end io source malloc e e' tail w.input t h in
      (
        s,
        loop_end (reading (ttyread io malloc e')) ttywrite (waiting wait) rounds first prev speed w
            (ap (λ x. (x.0, record w { input = x.1 })) eq),
      )

  written :
      (r : Record) (w : Player S E)
      → ttywrite r.payload (pos (length r.payload)) w ≡ record w { out = w.out ++ r.payload }
  unfolding ttywrite
  written r w =
      ap (λ (o : List ℕ). record w { out = w.out ++ o })
        (take_all (length r.payload) r.payload (omega arith))

  play_rest :
      (rs : List Record) (tail : List ℕ) (rounds : ℕ) (prev : Timeval) (speed : D) (w : Player S E)
      → AllPlayable rs
      → length tail < 12
      → Has w.input (file_bytes e rs ++ tail)
      → length rs < rounds
      → Ends
          (loop rounds false prev speed w)
          (w.out ++ payloads rs)
          (waits wait prev speed w.env rs).1
  play_rest rs tail zero prev speed w ok t h p = absurd (omega arith)
  play_rest [] tail (suc rounds) prev speed w ok t h p =
      let (s, eq) = idle_loop rounds false prev speed tail w t h in
      (s, eq ∙ ap (λ (o : List ℕ). some (record w { input = s; out = o })) (sym (append-nil w.out)))
  play_rest (r ∷ rs) tail (suc rounds) prev speed w ok t h p =
      let rest = file_bytes e rs ++ tail in
      let (s, eq, later) =
        source_record io source malloc e e' r rest w.input ok.0
          (enough (length r.payload) ok.0.not_long)
          (rw (← append_assoc (record_bytes e r) (file_bytes e rs) tail) h) in
      let (speed', env') = wait prev (time_of r) speed w.env in
      let next : Player S E = record { input = s; out = w.out ++ r.payload; env = env' } in
      let (s', eq') = play_rest rs tail rounds (time_of r) speed' next ok.1 t later (omega arith) in
      (
        s',
        loop_next (reading (ttyread io malloc e')) ttywrite (waiting wait) rounds prev speed w
              (ap (λ x. (x.0, record w { input = x.1 })) eq)
            ∙ ap (loop rounds false (time_of r) speed')
                (written r (record { input = s; out = w.out; env = env' }))
            ∙ eq'
            ∙ ap
                (λ (o : List ℕ).
                  some (record {
                    input = s';
                    out = o;
                    env = (waits wait prev speed w.env (r ∷ rs)).1;
                  }))
                (append_assoc w.out r.payload (payloads rs)),
      )

  pub source_replays :
      (rs : List Record) (tail : List ℕ) (rounds : ℕ) (speed : D) (w : Player S E)
      → AllPlayable rs
      → length tail < 12
      → Has w.input (file_bytes e rs ++ tail)
      → length rs < rounds
      → (s : S) × (ttyplayback io malloc e' rounds speed wait w
          ≡ some (record {
            input = s;
            out = w.out ++ payloads rs;
            env = all_waits wait speed w.env rs;
          }))
  unfolding ttyplayback
  source_replays rs tail zero speed w ok t h p = absurd (omega arith)
  source_replays [] tail (suc rounds) speed w ok t h p =
      let (s, eq) = idle_loop rounds true no_time speed tail w t h in
      (s, eq ∙ ap (λ (o : List ℕ). some (record w { input = s; out = o })) (sym (append-nil w.out)))
  source_replays (r ∷ rs) tail (suc rounds) speed w ok t h p =
      let rest = file_bytes e rs ++ tail in
      let (s, eq, later) =
        source_record io source malloc e e' r rest w.input ok.0
          (enough (length r.payload) ok.0.not_long)
          (rw (← append_assoc (record_bytes e r) (file_bytes e rs) tail) h) in
      let next : Player S E = record { input = s; out = w.out ++ r.payload; env = w.env } in
      let (s', eq') = play_rest rs tail rounds (time_of r) speed next ok.1 t later (omega arith) in
      (
        s',
        loop_first (reading (ttyread io malloc e')) ttywrite (waiting wait) rounds no_time speed w
              (ap (λ x. (x.0, record w { input = x.1 })) eq)
            ∙ ap (loop rounds false (time_of r) speed)
                (written r (record { input = s; out = w.out; env = w.env }))
            ∙ eq'
            ∙ ap
                (λ (o : List ℕ).
                  some (record { input = s'; out = o; env = all_waits wait speed w.env (r ∷ rs) }))
                (append_assoc w.out r.payload (payloads rs)),
      )

-- ===== src/Ttyrec/Output/Recorded/EndToEnd.antt =====
-- From the recorder to the player: `ttyplayback` on what `dooutput` recorded.
use ovh_ttyrec.Ttyplay.Read.Follow.{length-record_bytes}
use ovh_ttyrec.Recording.{record_bytes}
use ovh_ttyrec.Base.{
  Bool, List, [], ap, append-nil, arith, false, length, length-append, refl, some, sym, true, ℕ,
  ◌++◌, ◌<◌, ◌∙◌, ◌∷◌, ◌≡◌, ◌≤◌,
}
use ovh_ttyrec.Stdio.{File, Fwrite}
use ovh_ttyrec.Io.{Endian}
use ovh_ttyrec.Recording.{Record, file_bytes, payloads}
use ovh_ttyrec.Ttyplay.Read.{plain, max_record_len}
use ovh_ttyrec.Ttyplay.Play.{Player, WaitFunc, ttyplayback}
use ovh_ttyrec.Ttyplay.Play.Replay.{behind, all_waits, AllPlayable, ttyplayback_replays}
use ovh_ttyrec.Ttyrec.Output.{Fd, Event, Output, Options, dooutput}
use ovh_ttyrec.Ttyrec.Output.Recorded.{
  Reliable, kept, all_payloads, Faithful, AreRecordings, AllSane,
}
use ovh_ttyrec.Ttyrec.Output.Recorded.Events.{dooutput-Faithful}

-- A file that is opened for reading at its beginning.
abbrev pub opened_at_start : List ℕ → File
opened_at_start bytes = record {
  content = bytes;
  pos = 0;
  seekable = true;
  broken = false;
  error = false;
}

-- A player that has not begun.
abbrev pub fresh_player : {E : Type 0} → List ℕ → E → Player File E
fresh_player bytes env = record { input = opened_at_start bytes; out = []; env = env }

-- Without a rotation there is no closed recording.
pub none_closed :
    {S : Type 0} (view : S → List ℕ) (e : Endian) (fs : List S) (all : List (List Record))
    → AreRecordings view e fs all
    → fs ≡ []
    → all_payloads all ≡ []
none_closed view e [] [] h n = refl
none_closed view e [] (rs ∷ all) h n = absurd h
none_closed view e (f ∷ fs) all h n = cc

-- A record has at least twelve bytes in the file.
pub length-le-file_bytes : (e : Endian) (rs : List Record) → length rs ≤ length (file_bytes e rs)
length-le-file_bytes e [] = omega arith
length-le-file_bytes e (r ∷ rs) = omega (
  arith,
  length-append (record_bytes e r) (file_bytes e rs),
  length-record_bytes e r,
  length-le-file_bytes e rs,
)

module _ {E D : Type 0} (malloc : ℕ → Bool)
    (enough : (n : ℕ) → n ≤ max_record_len → malloc n ≡ true) (e e' : Endian)
    (wait : WaitFunc D E) where
  -- A file that is a recording.
  pub play_recording :
      (rs : List Record) (bytes : List ℕ) (rounds : ℕ) (speed : D) (env : E)
      → AllPlayable rs
      → bytes ≡ file_bytes e rs
      → length bytes < rounds
      → (w : Player File E) × (ttyplayback plain malloc e' rounds speed wait
            (fresh_player bytes env)
          ≡ some w)
        × (w.out ≡ payloads rs)
  play_recording rs bytes rounds speed env ok here p = (
    record {
      input = behind (length (file_bytes e rs)) (opened_at_start bytes);
      out = payloads rs;
      env = all_waits wait speed env rs;
    },
    ttyplayback_replays malloc enough e e' wait rs [] rounds speed (fresh_player bytes env) ok refl
        refl (omega arith) (here ∙ sym (append-nil (file_bytes e rs)))
        (omega (arith, length-le-file_bytes e rs, ap length here)),
    refl,
  )

  -- From end to end: whatever happens while `ttyrec` records, as long as no rotation closes the file,
  -- a player on a host of any byte order, with any speed and any wait function, ends by itself and
  -- writes exactly the bytes that were shown on the targets that are not hidden.
  pub replay_is_shown :
      {S : Type 0} (fw : Fwrite S) (fc : S → S) (good : Reliable S fw fc) (o : Options)
      (hide : Fd → Bool) (events : List (Event S)) (s : Output S) (rounds : ℕ) (speed : D) (env : E)
      → AllSane good.view o hide events
      → Faithful good.view e hide s
      → (dooutput fw fc e o events s).files.finished ≡ []
      → length (good.view (dooutput fw fc e o events s).files.fscript) < rounds
      → let t = dooutput fw fc e o events s in
        (w : Player File E) × (ttyplayback plain malloc e' rounds speed wait
            (fresh_player (good.view t.files.fscript) env)
          ≡ some w)
        × (w.out ≡ kept hide t.shown)
  replay_is_shown fw fc good o hide events s rounds speed env h f one p =
      let t = dooutput fw fc e o events s in
      let done = dooutput-Faithful fw fc good e o hide events s h f in
      let played =
        play_recording done.current (good.view t.files.fscript) rounds speed env done.current_plays
          done.current_holds p in
      let whole = none_closed good.view e t.files.finished done.closed done.closed_hold one in
      (
        played.0,
        played.1,
        played.2 ∙ sym (ap (λ (v : List ℕ). v ++ payloads done.current) whole) ∙ done.all_kept,
      )

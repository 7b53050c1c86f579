-- ===== src/Ttyrec/Output/Recorded/Rotated.antt =====
-- From the recorder to the player, over all the files of a session with rotations.
use ovh_ttyrec.Base.{
  Bool, List, Option, [], ap, append-nil, append_assoc, length, map, none, refl, some, sym, true, ℕ,
  ◌++◌, ◌<◌, ◌∙◌, ◌∷◌, ◌≡◌, ◌≤◌,
}
use ovh_ttyrec.Stdio.{Fwrite}
use ovh_ttyrec.Io.{Endian}
use ovh_ttyrec.Recording.{Record, file_bytes, payloads}
use ovh_ttyrec.Ttyplay.Read.{plain, max_record_len}
use ovh_ttyrec.Ttyplay.Play.{Player, WaitFunc, ttyplayback}
use ovh_ttyrec.Ttyplay.Play.Replay.{AllPlayable}
use ovh_ttyrec.Ttyrec.Output.{Fd, Event, Output, Options, dooutput}
use ovh_ttyrec.Ttyrec.Output.Recorded.{
  Reliable, kept, all_payloads, Faithful, AreRecordings, AllSane,
}
use ovh_ttyrec.Ttyrec.Output.Recorded.Events.{dooutput-Faithful}
use ovh_ttyrec.Ttyrec.Output.Recorded.EndToEnd.{fresh_player, play_recording}

-- What a run of a player has written.
abbrev pub written {ℓ} : {S E : Type ℓ} → Option (Player S E) → Option (List ℕ)
written none = none
written (some w) = some w.out

-- A run for each file, in turn, and what they write together: `none` where one of them does not end.
abbrev pub play_each : (List ℕ → Option (List ℕ)) → List (List ℕ) → Option (List ℕ)
play_each play [] = some []
play_each play (f ∷ fs) = elim (play f) [
  | none ↦ none
  | some out ↦ elim (play_each play fs) [ none ↦ none | some more ↦ some (out ++ more) ]
]

-- The files of a session, in the order in which they were written.
abbrev pub all_files : {S : Type 0} → Output S → List S
all_files t = t.files.finished ++ t.files.fscript ∷ []

abbrev pub AllHold : {S : Type 0} → (S → Type 0) → List S → Type 0
AllHold P [] = Unit
AllHold P (f ∷ fs) = P f × AllHold P fs

play_next :
    (play : List ℕ → Option (List ℕ)) (f out more : List ℕ) (fs : List (List ℕ))
    → play f ≡ some out
    → play_each play fs ≡ some more
    → play_each play (f ∷ fs) ≡ some (out ++ more)
play_next play f out more fs here later = rw (play_each, here, later) refl

-- A player that plays each file plays all of them.
module _ {S : Type 0} (view bytes_of : S → List ℕ) (e : Endian) (Fine : S → Type 0)
    (play : List ℕ → Option (List ℕ))
    (plays : (f : S) (rs : List Record)
      → Fine f
      → view f ≡ file_bytes e rs
      → AllPlayable rs
      → play (bytes_of f) ≡ some (payloads rs)) where
  play_files :
      (fs : List S) (all : List (List Record)) (last : S) (rs : List Record)
      → AreRecordings view e fs all
      → view last ≡ file_bytes e rs
      → AllPlayable rs
      → AllHold Fine (fs ++ last ∷ [])
      → play_each play (map bytes_of (fs ++ last ∷ [])) ≡ some (all_payloads all ++ payloads rs)
  play_files [] [] last rs a v p h =
      play_next play (bytes_of last) (payloads rs) [] [] (plays last rs h.0 v p) refl
      ∙ ap some (append-nil (payloads rs))
  play_files [] (r ∷ all) last rs a v p h = absurd a
  play_files (f ∷ fs) [] last rs a v p h = absurd a
  play_files (f ∷ fs) (r ∷ all) last rs a v p h =
      play_next play (bytes_of f) (payloads r) (all_payloads all ++ payloads rs)
        (map bytes_of (fs ++ last ∷ [])) (plays f r h.0 a.0 a.1)
        (play_files fs all last rs a.2 v p h.1)
      ∙ ap some (sym (append_assoc (payloads r) (all_payloads all) (payloads rs)))

  pub play_all_files :
      (hide : Fd → Bool) (t : Output S)
      → Faithful view e hide t
      → AllHold Fine (all_files t)
      → play_each play (map bytes_of (all_files t)) ≡ some (kept hide t.shown)
  play_all_files hide t f h =
      play_files t.files.finished f.closed t.files.fscript f.current f.closed_hold f.current_holds
        f.current_plays h
      ∙ ap some f.all_kept

module _ {E D : Type 0} (malloc : ℕ → Bool)
    (enough : (n : ℕ) → n ≤ max_record_len → malloc n ≡ true) (e e' : Endian) (wait : WaitFunc D E)
    (rounds : ℕ) (speed : D) (env : E) where
  -- A run of ttyplay on a file.
  abbrev pub player : List ℕ → Option (List ℕ)
  player f = written (ttyplayback plain malloc e' rounds speed wait (fresh_player f env))

  -- Whatever happens while `ttyrec` records, with rotations at any time: playing its files one after
  -- the other, on a host of any byte order and with any speed and wait function, ends by itself and
  -- writes exactly the bytes that were shown on the targets that are not hidden. What is assumed: the
  -- writer takes all bytes, a new file is empty, the clock is in the format's range, a `write` to a
  -- target takes all bytes or fails for good, `malloc` gives every buffer up to MAX_RECORD_LEN, and
  -- there are more rounds than any file has bytes.
  pub all_files_replay :
      {S : Type 0} (fw : Fwrite S) (fc : S → S) (good : Reliable S fw fc) (o : Options)
      (hide : Fd → Bool) (events : List (Event S)) (s : Output S)
      → AllSane good.view o hide events
      → Faithful good.view e hide s
      → let t = dooutput fw fc e o events s in
        AllHold (λ f. length (good.view f) < rounds) (all_files t)
        → play_each player (map good.view (all_files t)) ≡ some (kept hide t.shown)
  all_files_replay fw fc good o hide events s sane known short =
      play_all_files good.view good.view e (λ f. length (good.view f) < rounds) player
        (λ f rs fits v p.
          let (w, run, out) =
            play_recording malloc enough e e' wait rs (good.view f) rounds speed env p v fits in
          ap written run ∙ ap some out)
        hide (dooutput fw fc e o events s)
        (dooutput-Faithful fw fc good e o hide events s sane known) short

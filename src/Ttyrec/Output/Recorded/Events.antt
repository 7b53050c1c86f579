-- ===== src/Ttyrec/Output/Recorded/Events.antt =====
-- The events of `dooutput`, and its loop, and the recordings.
use ovh_ttyrec.Base.{
  Bool, Bool-cases, List, Option, Option-cases, [], arith, inl, inr, none, refl, some, ◌++◌, ◌==◌,
  ◌∷◌, ◌≡◌, ◌⊎◌,
}
use ovh_ttyrec.Stdio.{Fwrite}
use ovh_ttyrec.Header.{Timeval}
use ovh_ttyrec.Io.{Endian}
use ovh_ttyrec.Ttyrec.Process.{Process, Effect, kill, sigusr1}
use ovh_ttyrec.Ttyrec.Rotation.{Files, coalesced, swing_in_child, swing_output_file}
use ovh_ttyrec.Ttyrec.Output.{
  Fd, Event, tty_round, pipe_round, urg, usr2, usr1, Output, Loop, goes_on, ends, Options,
  handle_event, dooutput,
}
use ovh_ttyrec.Ttyrec.Output.Recorded.{Reliable, Faithful, Sane, AllSane, HoldsAfter}
use ovh_ttyrec.Ttyrec.Output.Recorded.Steps.{
  same_files, tty-Faithful, pipes-Faithful, rotate-Faithful,
}

-- The files behind a rotation.
abbrev pub rotated : {S : Type 0} → (S → S) → Timeval → S → Files S → Files S
rotated fc now new files = record {
  fscript = new;
  finished = files.finished ++ fc files.fscript ∷ [];
  last_rotate = now;
}

-- The three ends of a request to rotate: `fail`, no change of the files, or a rotation.
pub swing_cases :
    {S : Type 0} (fc : S → S) (now : Timeval) (opened : Option S) (p : Process) (files : Files S)
    → (swing_output_file fc now opened p files ≡ none)
      ⊎ ((calls : List Effect) × (swing_output_file fc now opened p files ≡ some (files, calls)))
      ⊎ ((new : S) × (opened ≡ some new)
          × (swing_output_file fc now opened p files ≡ some (rotated fc now new files, [])))
unfolding swing_output_file swing_in_child
swing_cases fc now opened p files = elim (Bool-cases (p.subchild == 0)) [
  | inl parent ↦ elim (Bool-cases (p.child == 0)) [
    | inl shell ↦ inr (inl ([], ground (arith, parent, shell)))
    | inr forwards ↦ inr (inl (kill p.child sigusr1 ∷ [], ground (arith, parent, forwards)))
  ]
  | inr child ↦ elim (Bool-cases (coalesced files.last_rotate now)) [
    | inl dropped ↦ inr (inl ([], ground (arith, child, dropped)))
    | inr served ↦ elim (Option-cases opened) [
      | inl failed ↦ inl (ground (arith, child, served, failed))
      | inr new ↦ inr (inr (new.0, new.1, ground (arith, child, served, new.1)))
    ]
  ]
]

module _ {S : Type 0} (fw : Fwrite S) (fc : S → S) (good : Reliable S fw fc) (e : Endian)
    (o : Options) (hide : Fd → Bool) where
  open good use {view}

  usr1-Faithful :
      (now : Timeval) (opened : Option S) (s : Output S)
      → Sane view o hide (usr1 now opened)
      → Faithful view e hide s
      → HoldsAfter (Faithful view e hide) (handle_event fw fc e o (usr1 now opened) s)
  unfolding handle_event
  usr1-Faithful now opened s h f = elim (swing_cases fc now opened s.process s.files) [
    | inl failed ↦ rw (failed, handle_event) f
    | inr (inl same) ↦ rw (same.1, handle_event) (same_files fw fc good e o hide s _ refl refl f)
    | inr (inr new) ↦
        let empty : view new.0 ≡ [] = rw new.1 at h in
        rw (new.2, handle_event)
          (same_files fw fc good e o hide (record s { files = rotated fc now new.0 s.files }) _ refl
            refl (rotate-Faithful fw fc good e o hide now new.0 s empty f))
  ]

  event-Faithful :
      (event : Event S) (s : Output S)
      → Sane view o hide event
      → Faithful view e hide s
      → HoldsAfter (Faithful view e hide) (handle_event fw fc e o event s)
  unfolding handle_event
  event-Faithful (tty_round r) s h f = tty-Faithful fw fc good e o hide r.got r s refl h.0 h.1 f
  event-Faithful (pipe_round ready_set r) s h f =
      pipes-Faithful fw fc good e o hide ready_set r s h.0 h.1 h.2 f
  event-Faithful (urg c) s h f = same_files fw fc good e o hide s _ refl refl f
  event-Faithful (usr2 c) s h f = same_files fw fc good e o hide s _ refl refl f
  event-Faithful (usr1 now opened) s h f = usr1-Faithful now opened s h f

  -- Whatever happens in turn (output on the terminal or the pipes, locks, unlocks, rotations and
  -- errors of `read`), every file, also each one that a rotation closed, is a recording in the format,
  -- and the recordings together hold exactly the bytes that were shown on the targets that are not
  -- hidden, in their order. What is assumed: the writer takes all bytes, a new file is empty, the
  -- clock is in the format's range, and a `write` to a target takes all bytes or fails for good.
  pub dooutput-Faithful :
      (events : List (Event S)) (s : Output S)
      → AllSane view o hide events
      → Faithful view e hide s
      → Faithful view e hide (dooutput fw fc e o events s)
  unfolding dooutput
  dooutput-Faithful [] s h f = f
  dooutput-Faithful (event ∷ events) s h f =
      by_event (handle_event fw fc e o event s) refl (event-Faithful event s h.0 f)
        (λ s'. dooutput-Faithful events s' h.1)
    where
      by_event :
          (next : Loop S)
          → handle_event fw fc e o event s ≡ next
          → HoldsAfter (Faithful view e hide) next
          → ((s' : Output S)
              → Faithful view e hide s'
              → Faithful view e hide (dooutput fw fc e o events s'))
          → Faithful view e hide (dooutput fw fc e o (event ∷ events) s)
      by_event (goes_on s') eq g later = rw (eq, dooutput) (later s' g)
      by_event (ends s') eq g later = rw (eq, dooutput) g

-- ===== src/Ttyrec/Output/Recorded/Closed.antt =====
-- The files that a rotation leaves behind have been closed.
use ovh_ttyrec.Base.{List, [], arith, inl, inr, refl, sym, ◌++◌, ◌∷◌, ◌≡◌}
use mathlib.Core.Path.{subst}
use ovh_ttyrec.Stdio.{Fwrite}
use ovh_ttyrec.Io.{Endian}
use ovh_ttyrec.Ttyrec.Output.{
  Event, tty_round, pipe_round, urg, usr2, usr1, Loop, goes_on, ends, Output, Options, Round,
  SelectResult, handle_event, dooutput, round_on_tty, round_on_pipes, read_pipe, close_pipe, copy,
  account,
}
use ovh_ttyrec.Ttyrec.Output.Recorded.Events.{swing_cases}
use ovh_ttyrec.Ttyrec.Output.Recorded.Rotated.{AllHold}

abbrev finished_of : {S : Type 0} → Loop S → List S
finished_of (goes_on s) = s.files.finished
finished_of (ends s) = s.files.finished

module _ {S : Type 0} (fw : Fwrite S) (fc : S → S) (e : Endian) (o : Options) where
  tty_finished :
      (r : Round) (s : Output S)
      → finished_of (handle_event fw fc e o (tty_round r) s) ≡ s.files.finished
  unfolding handle_event round_on_tty copy account
  tty_finished r s = ground arith

  pipe_finished :
      (ready_set : SelectResult) (r : Round) (s : Output S)
      → finished_of (handle_event fw fc e o (pipe_round ready_set r) s) ≡ s.files.finished
  unfolding handle_event round_on_pipes read_pipe close_pipe copy account
  pipe_finished ready_set r s = ground arith

  -- What holds of every file that `fclose_wrapper` gives holds of all that are closed.
  module _ (P : S → Type 0) (closed : (f : S) → P (fc f)) where
    pub snoc-AllHold : (fs : List S) (f : S) → AllHold P fs → P f → AllHold P (fs ++ f ∷ [])
    snoc-AllHold [] f h p = (p, tt)
    snoc-AllHold (x ∷ fs) f h p = (h.0, snoc-AllHold fs f h.1 p)

    event_closed :
        (event : Event S) (s : Output S)
        → AllHold P s.files.finished
        → AllHold P (finished_of (handle_event fw fc e o event s))
    unfolding handle_event
    event_closed (tty_round r) s h = subst (AllHold P) (sym (tty_finished r s)) h
    event_closed (pipe_round ready_set r) s h =
        subst (AllHold P) (sym (pipe_finished ready_set r s)) h
    event_closed (urg c) s h = h
    event_closed (usr2 c) s h = h
    event_closed (usr1 now opened) s h = elim (swing_cases fc now opened s.process s.files) [
      | inl failed ↦ rw (failed, handle_event) h
      | inr (inl same) ↦ rw (same.1, handle_event) h
      | inr (inr new) ↦
          rw (new.2, handle_event)
            (snoc-AllHold s.files.finished (fc s.files.fscript) h (closed s.files.fscript))
    ]

    pub dooutput_closed :
        (events : List (Event S)) (s : Output S)
        → AllHold P s.files.finished
        → AllHold P (dooutput fw fc e o events s).files.finished
    unfolding dooutput
    dooutput_closed [] s h = h
    dooutput_closed (event ∷ events) s h =
        by_event (handle_event fw fc e o event s) refl (event_closed event s h)
          (λ s'. dooutput_closed events s')
      where
        by_event :
            (next : Loop S)
            → handle_event fw fc e o event s ≡ next
            → AllHold P (finished_of next)
            → ((s' : Output S)
                → AllHold P s'.files.finished
                → AllHold P (dooutput fw fc e o events s').files.finished)
            → AllHold P (dooutput fw fc e o (event ∷ events) s).files.finished
        by_event (goes_on s') eq g later = rw (eq, dooutput) (later s' g)
        by_event (ends s') eq g later = rw (eq, dooutput) g

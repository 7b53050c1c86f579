-- ===== src/Ttyrec/Shutdown/Child.antt =====
-- How the child ends, and with which status.
use ovh_ttyrec.Base.{
  Bool-cases, List, [], append_assoc, if◌then◌else◌, inl, inr, refl, sym, ℕ, ◌&&◌, ◌++◌, ◌==◌, ◌∷◌,
  ◌≡◌,
}
use ovh_ttyrec.Ttyrec.Shutdown.{
  Last, fclose_script, close_master, tcsetattr, exits, Ending, Moment, wexitstatus, unlock, leave,
}

pub leave_ends :
    (m : Moment) (status : ℕ) (s : Ending)
    → (before : List Last) × ((leave m status s).1 ≡ before ++ exits (wexitstatus status) ∷ [])
unfolding leave
leave_ends m status s = elim (Bool-cases (s.process.subchild == 0)) [
  | inl e ↦ rw e (if s.use_tty && s.parent_stdin_isatty then tcsetattr ∷ [] else [], refl)
  | inr e ↦
      let closing = fclose_script ∷ close_master ∷ [] in
      rw e (
        (unlock m s).1 ++ closing,
        sym (append_assoc (unlock m s).1 closing (exits (wexitstatus status) ∷ [])),
      )
]

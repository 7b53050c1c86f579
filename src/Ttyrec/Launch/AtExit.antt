-- ===== src/Ttyrec/Launch/AtExit.antt =====
-- What the terminal is when the program is over.
use ovh_ttyrec.Base.{Bool, false, if◌then◌else◌, true, ◌&&◌, ◌≡◌}
use ovh_ttyrec.Ttyrec.Shutdown.{Ending, Moment}
use ovh_ttyrec.Ttyrec.Launch.Start.{
  Terminal, Forked, not_forked, forked_child, Started, gives_up, runs_doinput,
}

abbrev pub is_not_forked : Forked → Bool
is_not_forked not_forked = true
is_not_forked _ = false

abbrev pub is_forked_child : Forked → Bool
is_forked_child forked_child = true
is_forked_child _ = false

-- The ends that call `done`.
abbrev ends_in_done : Started → Bool
ends_in_done gives_up = true
ends_in_done (runs_doinput watched) = true
ends_in_done _ = false

-- The parent, before its end.
pub record BeforeEnd (s : Ending) : Type 0 where
  pub no_subchild : s.process.subchild ≡ 0
  pub not_entered : s.entered ≡ false

module _ {T : Type 0} (m : Moment) {s : Ending} (p : BeforeEnd s) where
  abbrev restored : Terminal T → T
  restored t = if s.use_tty && s.parent_stdin_isatty then t.saved else t.attributes

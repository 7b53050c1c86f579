-- ===== src/Examples/Ending.antt =====
-- Runs of the end of the processes of ttyrec.c.
use ovh_ttyrec.Base.{List, [], false, pos, true, ◌∷◌, ◌≤◌}
use ovh_ttyrec.Ttyrec.Shutdown.{Ending, Moment}
use ovh_ttyrec.Ttyrec.Shutdown.Once.{
  Cause, term, hup, failing, chld, handle_all, closes, exit_calls, closed_once,
}
use ovh_ttyrec.Ttyrec.Shutdown.Await.{Wait, sigchld}

abbrev moment : Moment
moment = record { now = pos 500; winsize = record { ws_row = 24; ws_ypixel = 0 } }

-- A child that is locked.
abbrev child : Ending
child = record {
  process = record {
    child = 30;
    subchild = 30;
    ppid = 10;
    activity = record {
      last_activity = pos 100;
      locked_since = pos 300;
      lock_warned = false;
      kill_warned = false;
    };
  };
  entered = false;
  can_exit = false;
  childexit = 254;
  use_tty = true;
  parent_stdin_isatty = true;
}

abbrev causes : List Cause
causes = term moment moment ∷ hup moment ∷ chld moment ((30, 256) ∷ []) ∷ failing moment ∷ []

closed_once_example :
    (closes (handle_all causes child).1 ≤ 1) × (exit_calls (handle_all causes child).1 ≤ 1)
closed_once_example = closed_once causes child

-- A parent, which has no subchild.
abbrev parent : Ending
parent = record child { process = record child.process { subchild = 0 } }

-- The handler finds nothing once, and the shell the second time.
abbrev shell_gone : List Wait
shell_gone = sigchld [] ∷ sigchld ((30, 768) ∷ []) ∷ []

-- ===== src/Ttyrec/Shutdown/Await.antt =====
-- How `dooutput` and `doinput` wait for the process below them, once there is nothing more to read.
use ovh_ttyrec.Base.{Bool, List, Option, [], false, if◌then◌else◌, none, some, true, ℕ, ◌∷◌}
use ovh_ttyrec.Ttyrec.Shutdown.{Last, Ending, Moment, reap, done}

-- What happens meanwhile: `waitpid` gives a status, or fails because there is no process any more, or
-- the handler `finish` runs and finds the processes that have ended.
pub data Wait : Type 0 where
  waited : ℕ → Wait
  no_process : Wait
  sigchld : List (ℕ × ℕ) → Wait

unfoldable pub meanwhile : Wait → Ending → Ending
meanwhile (waited status) s = record s { childexit = status }
meanwhile no_process s = record s { can_exit = true }
meanwhile (sigchld ended) s = (reap ended false s).1

-- The loop of `dooutput`, over what happens until it ends. In the child `child` and `subchild` are the
-- same process, so that `finish` never ends it. `none` is a loop that is not at its end.
unfoldable pub await_can_exit : List Wait → Ending → Option Ending
await_can_exit [] s = if s.can_exit then some s else none
await_can_exit (w ∷ ws) s =
    let rest = await_can_exit ws (meanwhile w s) in if s.can_exit then some s else rest

-- The end of `dooutput`, with what `opt_count_bytes` prints first.
unfoldable pub dooutput_end :
    Moment → Bool → ℕ → List Wait → Ending → Option (Option ℕ × Ending × List Last)
dooutput_end m count_bytes bytes_out ws s = elim (await_can_exit ws s) [
  | none ↦ none
  | some s1 ↦
      let (t, ended) = done m s1.childexit s1 in
      some (if count_bytes then some bytes_out else none, t, ended)
]

-- The end of `doinput`, with the status that `waitpid` gives, `none` where `finish` has had it.
unfoldable pub doinput_end : Moment → Option ℕ → Ending → Ending × List Last
doinput_end m none s = done m s.childexit s
doinput_end m (some status) s = done m status (record s { childexit = status })

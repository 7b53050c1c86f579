-- ===== src/Ttyrec/Shutdown/Status.antt =====
-- The exit code of the shell is the one of the whole program.
use ovh_ttyrec.Base.{List, [], some, ℕ, ◌*◌, ◌++◌, ◌^◌, ◌∷◌, ◌≡◌}
use ovh_ttyrec.Ttyrec.Shutdown.{Last, exits, Ending}
use ovh_ttyrec.Ttyrec.Shutdown.Await.{Wait, waited, no_process, sigchld, await_can_exit}

-- The shell has been waited for, and nothing but SIGCHLD for others comes before the kernel says that
-- there is no process any more.
pub data AllGone : List Wait → Type 0 where
  at_last : (ws : List Wait) → AllGone (no_process ∷ ws)
  not_yet : (ws : List Wait) → AllGone ws → AllGone (sigchld [] ∷ ws)

-- The shell ends once with its status, and either the loop has it or the handler.
pub data ShellEnds (pid status : ℕ) : List Wait → Type 0 where
  by_loop : (ws : List Wait) → AllGone ws → ShellEnds pid status (waited status ∷ ws)
  by_handler : (ws : List Wait) → ShellEnds pid status (sigchld ((pid, status) ∷ []) ∷ ws)
  later : (ws : List Wait) → ShellEnds pid status ws → ShellEnds pid status (sigchld [] ∷ ws)

-- A loop that ends with a status and the mutex as it was.
abbrev Ends : List Wait → Ending → ℕ → Type 0
Ends ws s status =
    (r : Ending) × (await_can_exit ws s ≡ some r) × (r.entered ≡ s.entered) × (r.childexit ≡ status)

-- The last thing that is done to the outside.
abbrev pub ExitsLast : ℕ → List Last → Type 0
ExitsLast code out = (before : List Last) × (out ≡ before ++ exits code ∷ [])

-- The status of a process that has given a code below 256 to `exit`.
abbrev pub status_of : ℕ → ℕ
status_of code = code * 2 ^ 8

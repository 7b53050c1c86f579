-- ===== src/Ttyrec/Shutdown.antt =====
-- The end of a process: `done`, `fail`, `finish`, `sigterm_handler` and `sighup_handler`.
pub mod Once
pub mod Child
pub mod Await
pub mod Status
use ovh_ttyrec.Base.{
  Bool, List, [], false, if◌then◌else◌, ltb, map, not, true, ℕ, ℤ, ◌%◌, ◌&&◌, ◌++◌, ◌/◌, ◌==◌, ◌^◌,
  ◌∷◌,
}
use ovh_ttyrec.Ttyrec.Process.{sigterm, sigusr2, Winsize, Effect, kill, puts, Process}
use ovh_ttyrec.Ttyrec.Session.{unlock_session}

-- What is done to the outside: the calls of the handlers, and those at the end.
pub data Last : Type 0 where
  calls : Effect → Last
  fclose_script close_master tcsetattr : Last
  exits : ℕ → Last

-- `entered` is the mutex of `done`.
pub record Ending : Type 0 where
  pub process : Process
  pub entered : Bool
  pub can_exit : Bool
  pub childexit : ℕ
  pub use_tty : Bool
  pub parent_stdin_isatty : Bool

-- The clock and the window's size, for the unlocks.
pub record Moment : Type 0 where
  pub now : ℤ
  pub winsize : Winsize

-- The 8 bits of a status that `exit` was given.
abbrev pub wexitstatus : ℕ → ℕ
wexitstatus status = status / 2 ^ 8 % 2 ^ 8

unfoldable pub unlock : Moment → Ending → Ending × List Last
unlock m s =
    let (p, effects) = unlock_session m.now m.winsize sigusr2 s.process in
    (record s { process = p }, map calls effects)

-- The body of `done`, behind the mutex.
unfoldable pub leave : Moment → ℕ → Ending → Ending × List Last
leave m status s =
    if not (s.process.subchild == 0)
    then (let (s', unlocked) = unlock m s in
        (s', unlocked ++ fclose_script ∷ close_master ∷ exits (wexitstatus status) ∷ []))
    else (
      s,
      (if s.use_tty && s.parent_stdin_isatty then tcsetattr ∷ [] else [])
          ++ exits (wexitstatus status) ∷ [],
    )

unfoldable pub done : Moment → ℕ → Ending → Ending × List Last
done m status s = if s.entered then (s, []) else leave m status (record s { entered = true })

-- EXIT_FAILURE is 1, and `kill(0, ...)` is for the whole group.
unfoldable pub fail : Moment → Ending → Ending × List Last
fail m s = let (s', ended) = done m 1 s in (s', calls (kill 0 sigterm) ∷ ended)

-- What the child does first: its screen is unlocked and the shell's process ended.
unfoldable pub end_session : Moment → Ending → Ending × List Last
end_session m s =
    if ltb 0 s.process.subchild
    then (let (s', unlocked) = unlock m s in
        (
          s',
          unlocked
              ++ calls (kill s.process.subchild sigterm)
                ∷ calls (puts "ttyrec: ending your session")
                ∷ [],
        ))
    else (s, [])

unfoldable pub sigterm_handler : Moment → Moment → Ending → Ending × List Last
sigterm_handler m m' s =
    let (s1, before) = end_session m s in let (s2, ended) = done m' 0 s1 in (s2, before ++ ended)

unfoldable pub sighup_handler : Moment → Ending → Ending × List Last
sighup_handler m s =
    let before =
      (if ltb 0 s.process.subchild then calls (kill s.process.subchild sigterm) ∷ [] else []) in
    let (s', ended) = done m 0 s in (s', before ++ ended)

-- The loop of `waitpid`, over the processes that have ended, each with its status.
unfoldable pub reap : List (ℕ × ℕ) → Bool → Ending → Bool × Ending
reap [] die s = (die, s)
reap ((pid, status) ∷ ended) die s =
    let s1 = record s { childexit = status } in
    if pid == s.process.subchild
    then reap ended die (record s1 { can_exit = true })
    else if pid == s.process.child
    then reap ended true s1
    else reap ended die s1

unfoldable pub finish : Moment → List (ℕ × ℕ) → Ending → Ending × List Last
finish m ended s =
    let (die, s1) = reap ended false s in if die then done m s1.childexit s1 else (s1, [])

-- ===== src/Ttyrec/Launch/Start.antt =====
-- `main` of ttyrec.c from `isatty` to the three functions that the processes run, with what becomes of
-- the terminal: `fixtty`, `getmaster` and `done`, and the handlers of SIGWINCH.
use ovh_ttyrec.Base.{
  Bool, List, Option, [], false, if◌then◌else◌, negsuc, none, not, some, true, zero, ℕ, ℤ, ◌&&◌,
  ◌∷◌,
}
use ovh_ttyrec.Ttyrec.Process.{Winsize, Effect, kill, set_winsize, sigwinch, Process}
use ovh_ttyrec.Ttyrec.Shutdown.{Last, tcsetattr, exits, Ending, Moment, fail}
use ovh_ttyrec.Ttyrec.Shutdown.Await.{doinput_end}

-- `cfmakeraw`, and ECHO cleared.
pub record Modes (T : Type 0) : Type 0 where
  pub cfmakeraw : T → T
  pub without_echo : T → T

-- The terminal's attributes, and `parent_stdin_termios`.
pub record Terminal (T : Type 0) : Type 0 where
  pub attributes : T
  pub saved : T

-- What `fork` returns.
pub data Forked : Type 0 where
  not_forked forked_child forked_parent : Forked

-- What the calls of `main` return, each true where it succeeds, and `pthread_create` its number.
pub record StartCalls : Type 0 where
  pub tcgetattr : Bool
  pub opens_master : Bool
  pub sets_raw : Bool
  pub stdout_pipe : Bool
  pub stderr_pipe : Bool
  pub fork : Forked
  pub second_fork : Forked
  pub pthread_create : ℤ

-- Where `main` comes to: `exit`, `fail`, or the function of one of the processes, the parent with the
-- thread of `timeout_watcher` or without.
pub data Started : Type 0 where
  exits_at_once gives_up : Started
  runs_doinput : Bool → Started
  runs_dooutput runs_doshell : Started

abbrev is_minus_one : ℤ → Bool
is_minus_one (negsuc zero) = true
is_minus_one _ = false

module _ {T : Type 0} where
  -- `done` sets the attributes that were saved.
  unfoldable pub after_last : List Last → Terminal T → Terminal T
  after_last [] t = t
  after_last (tcsetattr ∷ out) t = after_last out (record t { attributes = t.saved })
  after_last (_ ∷ out) t = after_last out t

module _ {T : Type 0} (modes : Modes T) where
  open modes use {cfmakeraw, without_echo}

  -- `none` is `fail`. What the rest of `getmaster` opens is in Ttyrec/Launch.
  unfoldable pub save_termios : Bool → StartCalls → Terminal T → Terminal T
  save_termios isatty calls t =
      if isatty && calls.tcgetattr then record t { saved = t.attributes } else t

  unfoldable pub fixtty : StartCalls → Terminal T → Terminal T
  fixtty calls t =
      if calls.sets_raw then record t { attributes = without_echo (cfmakeraw t.saved) } else t

  -- From `fork` on, in the process that it returns in.
  unfoldable pub fork_all : Bool → StartCalls → Started
  fork_all watched calls = elim calls.fork [
    | not_forked ↦ exits_at_once
    | forked_child ↦ elim calls.second_fork [
      | not_forked ↦ gives_up
      | forked_child ↦ runs_doshell
      | forked_parent ↦ runs_dooutput
    ]
    | forked_parent ↦
        if watched && is_minus_one calls.pthread_create then gives_up else runs_doinput watched
  ]

  unfoldable pub start : Bool → Bool → Bool → StartCalls → Terminal T → Terminal T × Started
  unfolding save_termios fixtty fork_all
  start isatty use_tty watched calls t =
      if use_tty
      then (let t1 = save_termios isatty calls t in
          if not calls.opens_master
          then (t1, gives_up)
          else (if isatty then fixtty calls t1 else t1, fork_all watched calls))
      else if calls.stdout_pipe && calls.stderr_pipe
      then (t, fork_all watched calls)
      else (t, exits_at_once)

-- The end of the parent, or of the program that does not come to a second process: the status is what
-- `waitpid` gives in `doinput`.
unfoldable pub parent_end : Moment → Option ℕ → Started → Ending → List Last
parent_end m status exits_at_once s = exits 1 ∷ []
parent_end m status gives_up s = (fail m s).1
parent_end m status (runs_doinput watched) s = (doinput_end m status s).1
parent_end m status runs_dooutput s = []
parent_end m status runs_doshell s = []

-- The size that `ioctl` gives, `none` where it fails and the old one is set again.
unfoldable pub sigwinch_handler_parent :
    Bool → Option Winsize → Winsize → Process → Winsize × List Effect
sigwinch_handler_parent isatty got old p =
    let size = elim got as (λ _. Winsize) [ none ↦ old | some new ↦ new ] in
    if isatty
    then (size, set_winsize size ∷ kill p.child sigwinch ∷ [])
    else (old, kill p.child sigwinch ∷ [])

unfoldable pub sigwinch_handler_child : Process → List Effect
sigwinch_handler_child p = kill p.child sigwinch ∷ []

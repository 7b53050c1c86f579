-- ===== src/Examples/Launching.antt =====
-- Ttyrec/Launch with a kernel that takes the lowest descriptor, of 32.
use ovh_ttyrec.Base.{
  Bool, Option, [], ap, false, ltb, none, pos, refl, some, suc, sym, true, zero, ℕ, ◌+◌, ◌-◌, ◌==◌,
  ◌∙◌, ◌∷◌, ◌≡◌,
}
use mathlib.Core.Option.{some_inj}
use ovh_ttyrec.Io.Open.{Descriptors}
use ovh_ttyrec.Ttyrec.Launch.{
  File, inherited, Kernel, SlaveCalls, open_all, open_pipes, getmaster, getslave, pty_slave, ◌>>=◌,
  parent_closes, child_closes, shell_dups,
}
use ovh_ttyrec.Ttyrec.Launch.Holds.{Fresh, Yields}
use ovh_ttyrec.Ttyrec.Launch.Pipes.{started}
use ovh_ttyrec.Ttyrec.Launch.Apart.{HeldOnce, pipes_apart}
use ovh_ttyrec.Ttyrec.Shutdown.{Ending, Moment}
use ovh_ttyrec.Ttyrec.Launch.Start.{Modes, StartCalls, not_forked}
use ovh_ttyrec.Ttyrec.Launch.Search.{PtyName}
use ovh_ttyrec.Ttyrec.Launch.Session.{OnTerminal, terminal_attached}

abbrev lowest_from : ℕ → ℕ → Kernel
lowest_from zero n table = none
lowest_from (suc rounds) n table = elim (table n) [
  | none ↦ some n
  | some f ↦ lowest_from rounds (n + 1) table
]

abbrev lowest : Kernel
lowest = lowest_from 32 0

lowest_from-Fresh : (rounds n : ℕ) → Fresh (lowest_from rounds n)
lowest_from-Fresh zero n table fd e = cc
lowest_from-Fresh (suc rounds) n table fd e =
    go (table n) refl (lowest_from-Fresh rounds (n + 1) table fd) e
  where
    go :
        (o : Option File)
        → table n ≡ o
        → (lowest_from rounds (n + 1) table ≡ some fd → table fd ≡ none)
        → elim o [ none ↦ some n | some f ↦ lowest_from rounds (n + 1) table ] ≡ some fd
        → table fd ≡ none
    go none at_n later e' = ap table (sym (some_inj.0 e')) ∙ at_n
    go (some f) at_n later e' = later e'

-- The standard descriptors, and one more that was left open.
abbrev with_one_more : ℕ → Bool
with_one_more n = ltb n 4

abbrev all_succeed : SlaveCalls
all_succeed = record { setsid = true; grantpt = true; unlockpt = true; controls = true }

-- Nothing fails, and the script is descriptor 4.
script_is_4 :
    (open_all lowest false false (started with_one_more) >>= λ r. some r.0.fscript) ≡ some 4
unfolding open_all open_pipes
script_is_4 = refl

-- With a terminal the slave is opened where the script was.
shell_terminal :
    (open_all lowest true false (started with_one_more) >>= λ r.
    shell_dups lowest all_succeed true r.0 r.1 >>= λ t.
    some (t 0 ∷ t 1 ∷ t 2 ∷ t 3 ∷ t 4 ∷ t 5 ∷ []))
    ≡ some
        (some pty_slave ∷ some pty_slave ∷ some pty_slave ∷ some (inherited 3) ∷ none ∷ none ∷ [])
unfolding open_all getmaster shell_dups getslave
shell_terminal = refl

pipes_apart_example :
    Yields
      (λ r.
        (shell : Descriptors File) × (shell_dups lowest all_succeed false r.0 r.1 ≡ some shell)
        × HeldOnce r.0 (parent_closes false r.0 r.1) (child_closes false r.0 r.1) shell)
      (open_all lowest false false (started with_one_more))
pipes_apart_example =
    pipes_apart lowest false all_succeed with_one_more (lowest_from-Fresh 32 0) refl refl refl

terminal_attached_example :
    Yields
      (λ r.
        Yields
          (OnTerminal r.0 (parent_closes true r.0 r.1) (child_closes true r.0 r.1))
          (shell_dups lowest all_succeed true r.0 r.1))
      (open_all lowest true true (started with_one_more))
terminal_attached_example =
    terminal_attached lowest true all_succeed with_one_more (lowest_from-Fresh 32 0) refl refl refl

-- A terminal as a number: raw takes 8 off, and no echo 1.
abbrev modes : Modes ℕ
modes = record { cfmakeraw = λ n. n - 8; without_echo = λ n. n - 1 }

-- `fork` fails.
abbrev calls_without_fork : StartCalls
calls_without_fork = record {
  tcgetattr = true;
  opens_master = true;
  sets_raw = true;
  stdout_pipe = true;
  stderr_pipe = true;
  fork = not_forked;
  second_fork = not_forked;
  pthread_create = pos 0;
}

abbrev moment : Moment
moment = record { now = pos 500; winsize = record { ws_row = 24; ws_ypixel = 0 } }

abbrev parent : Ending
parent = record {
  process = record {
    child = 0;
    subchild = 0;
    ppid = 10;
    activity = record {
      last_activity = pos 100;
      locked_since = pos 0;
      lock_warned = false;
      kill_warned = false;
    };
  };
  entered = false;
  can_exit = false;
  childexit = 254;
  use_tty = true;
  parent_stdin_isatty = true;
}

-- One bank, whose names all open, and whose slaves can be used from the second on.
abbrev only_bank_p : PtyName → Bool
only_bank_p (bank, unit) = bank == b'p'

abbrev not_the_first : PtyName → Bool
not_the_first (bank, unit) = ltb b'0' unit

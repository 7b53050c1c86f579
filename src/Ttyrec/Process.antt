-- ===== src/Ttyrec/Process.antt =====
-- The state that the handlers of ttyrec.c change in one process, and what they do to the outside.
use Prim.Native.String.{String}
use ovh_ttyrec.Base.{Bool, false, negsuc, pos, suc, true, zero, ℕ, ℤ}

pub data Signal : Type 0 where
  sigurg sigusr1 sigusr2 sigterm sigwinch : Signal

-- The fields of `struct winsize` that the code changes.
pub record Winsize : Type 0 where
  pub ws_row : ℕ
  pub ws_ypixel : ℕ

-- A call that leaves the process.
pub data Effect : Type 0 where
  kill : ℕ → Signal → Effect
  usleep : ℕ → Effect
  set_winsize : Winsize → Effect
  fputs : String → Effect
  -- The lock screen: the time, the salutation and the host name.
  print_lock : ℤ → String → String → Effect
  puts : String → Effect
  -- The warnings of the watcher, with the seconds that are left.
  warn_lock : ℤ → Effect
  warn_kill : ℤ → Effect

-- `last_activity`, `locked_since`, `lock_warned` and `kill_warned`. The times are `time_t`.
pub record Activity : Type 0 where
  pub last_activity : ℤ
  pub locked_since : ℤ
  pub lock_warned : Bool
  pub kill_warned : Bool

-- C's truth value of a `time_t`.
abbrev pub nonzero : ℤ → Bool
nonzero (pos zero) = false
nonzero (pos (suc n)) = true
nonzero (negsuc n) = true

abbrev pub locked : Activity → Bool
locked a = nonzero a.locked_since

-- The three assignments that follow every input and output.
abbrev pub touch : ℤ → Activity → Activity
touch now a = record a { last_activity = now; lock_warned = false; kill_warned = false }

-- After the forks the variables are each process's own. In the parent `child` is the recording
-- process and `subchild` is 0; in the child both are the shell's process.
pub record Process : Type 0 where
  pub child : ℕ
  pub subchild : ℕ
  pub ppid : ℕ
  pub activity : Activity

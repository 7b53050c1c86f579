-- ===== src/Ttyrec/Session/Storm.antt =====
-- Parent and child tell each other of every lock and unlock, by signals.
pub mod Views
pub mod Ends
use Prim.Native.String.{String}
use ovh_ttyrec.Base.{
  Bool, List, Option, [], false, suc, true, ℕ, ℤ, ◌&&◌, ◌<◌, ◌==◌, ◌||◌, ◌∷◌, ◌≡◌,
}
use ovh_ttyrec.Ttyrec.Process.{
  Signal, sigurg, sigusr1, sigusr2, sigterm, sigwinch, Winsize, Effect, kill, usleep, set_winsize,
  fputs, print_lock, puts, nonzero, locked, touch, Process,
}
use ovh_ttyrec.Ttyrec.Session.{peer, lock_session, unlock_session, redraw, lock_screen}

-- The two processes, and which of the two signals are pending for each. A signal that is pending
-- already is not queued twice.
pub record System : Type 0 where
  pub parent : Process
  pub child : Process
  pub parent_urg : Bool
  pub parent_usr2 : Bool
  pub child_urg : Bool
  pub child_usr2 : Bool

abbrev pub same_signal : Signal → Signal → Bool
same_signal sigurg sigurg = true
same_signal sigusr2 sigusr2 = true
same_signal sigterm sigterm = true
same_signal _ _ = false

-- Whether the effects hold a `kill` of the process with this signal.
abbrev pub sends : ℕ → Signal → List Effect → Bool
sends pid sig [] = false
sends pid sig (kill to s ∷ rest) = (to == pid && same_signal s sig) || sends pid sig rest
sends pid sig (_ ∷ rest) = sends pid sig rest

-- What the environment decides of a handler's run.
pub record Circumstance : Type 0 where
  pub now : ℤ
  pub rand : ℕ
  pub hostname : String
  pub message : Option String
  pub winsize : Winsize

-- The handlers at a delivery, as `sigaction` set them.
pub lock_parent : Circumstance → System → System
lock_parent c s =
    let (p, calls) = lock_session c.now c.rand c.hostname c.message sigurg s.parent in
    record s {
      parent = p;
      parent_urg = false;
      child_urg = s.child_urg || sends s.parent.child sigurg calls;
    }

pub lock_child : Circumstance → System → System
lock_child c s =
    let (p, calls) = lock_session c.now c.rand c.hostname c.message sigurg s.child in
    record s {
      child = p;
      child_urg = false;
      parent_urg = s.parent_urg || sends s.child.ppid sigurg calls;
    }

pub unlock_parent : Circumstance → System → System
unlock_parent c s =
    let (p, calls) = unlock_session c.now c.winsize sigusr2 s.parent in
    record s {
      parent = p;
      parent_usr2 = false;
      child_usr2 = s.child_usr2 || sends s.parent.child sigusr2 calls;
    }

pub unlock_child : Circumstance → System → System
unlock_child c s =
    let (p, calls) = unlock_session c.now c.winsize sigusr2 s.child in
    record s {
      child = p;
      child_usr2 = false;
      parent_usr2 = s.parent_usr2 || sends s.child.ppid sigusr2 calls;
    }

-- One pending signal is delivered, in any order; the clock does not read 0.
pub data Step (s : System) : System → Type 0 where
  lock_parent_step :
      (c : Circumstance) → nonzero c.now ≡ true → s.parent_urg ≡ true → Step s (lock_parent c s)
  lock_child_step :
      (c : Circumstance) → nonzero c.now ≡ true → s.child_urg ≡ true → Step s (lock_child c s)
  unlock_parent_step : (c : Circumstance) → s.parent_usr2 ≡ true → Step s (unlock_parent c s)
  unlock_child_step : (c : Circumstance) → s.child_usr2 ≡ true → Step s (unlock_child c s)

-- A number of deliveries.
pub data Steps : ℕ → System → System → Type 0 where
  done : {s : System} → Steps 0 s s
  step : {n : ℕ} {s t u : System} → Step s t → Steps n t u → Steps (suc n) s u

-- The roles after the forks.
pub record AreRoles (s : System) : Type 0 where
  pub parent_role : s.parent.subchild ≡ 0
  pub child_role : 0 < s.child.subchild

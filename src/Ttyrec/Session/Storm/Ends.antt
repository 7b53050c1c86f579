-- ===== src/Ttyrec/Session/Storm/Ends.antt =====
-- Runs of locks and unlocks between parent and child.
use ovh_ttyrec.Base.{Bool, arith, false, not, true, ℕ, ◌+◌, ◌<◌, ◌≡◌, ◌≤◌, ◌⊎◌}
use ovh_ttyrec.Ttyrec.Process.{nonzero, locked}
use ovh_ttyrec.Ttyrec.Session.Storm.{
  System, Circumstance, AreRoles, lock_parent, lock_child, unlock_parent, unlock_child, Step, Steps,
  lock_parent_step, lock_child_step, unlock_parent_step, unlock_child_step, done, step,
}
use ovh_ttyrec.Ttyrec.Session.Storm.Views.{
  lock_parent_view, lock_child_view, unlock_parent_view, unlock_child_view,
}

abbrev pub bit : Bool → ℕ
bit false = 0
bit true = 1

-- Only locks are under way: one has been taken or is pending, and a process that is not locked while
-- the other one is has been told.
pub record LockSpreads (s : System) : Type 0 where
  pub roles : AreRoles s
  pub parent_quiet : s.parent_usr2 ≡ false
  pub child_quiet : s.child_usr2 ≡ false
  pub started :
      (locked s.parent.activity ≡ true)
      ⊎ (locked s.child.activity ≡ true)
      ⊎ (s.parent_urg ≡ true)
      ⊎ (s.child_urg ≡ true)
  pub child_told :
      locked s.parent.activity ≡ true → (locked s.child.activity ≡ true) ⊎ (s.child_urg ≡ true)
  pub parent_told :
      locked s.child.activity ≡ true → (locked s.parent.activity ≡ true) ⊎ (s.parent_urg ≡ true)

-- The same of unlocks.
pub record UnlockSpreads (s : System) : Type 0 where
  pub roles : AreRoles s
  pub parent_quiet : s.parent_urg ≡ false
  pub child_quiet : s.child_urg ≡ false
  pub started :
      (locked s.parent.activity ≡ false)
      ⊎ (locked s.child.activity ≡ false)
      ⊎ (s.parent_usr2 ≡ true)
      ⊎ (s.child_usr2 ≡ true)
  pub child_told :
      locked s.parent.activity ≡ false → (locked s.child.activity ≡ false) ⊎ (s.child_usr2 ≡ true)
  pub parent_told :
      locked s.child.activity ≡ false → (locked s.parent.activity ≡ false) ⊎ (s.parent_usr2 ≡ true)

-- Pending signals, and processes that the signal would change.
abbrev pub to_lock : System → ℕ
to_lock s =
    bit s.parent_urg
    + bit s.child_urg
    + bit (not (locked s.parent.activity))
    + bit (not (locked s.child.activity))

abbrev pub to_unlock : System → ℕ
to_unlock s =
    bit s.parent_usr2
    + bit s.child_usr2
    + bit (locked s.parent.activity)
    + bit (locked s.child.activity)

-- Nothing is pending.
abbrev pub IsQuiet : System → Type 0
IsQuiet s =
    (s.parent_urg ≡ false)
    × (s.child_urg ≡ false)
    × (s.parent_usr2 ≡ false)
    × (s.child_usr2 ≡ false)

lock_shrinks : {s t : System} → LockSpreads s → Step s t → LockSpreads t × (to_lock t < to_lock s)
lock_shrinks {s} l (lock_parent_step c n h) = ground (arith, lock_parent_view c s l.roles n)
lock_shrinks {s} l (lock_child_step c n h) = ground (arith, lock_child_view c s l.roles n)
lock_shrinks {s} l (unlock_parent_step c h) = ground (arith, l)
lock_shrinks {s} l (unlock_child_step c h) = ground (arith, l)

unlock_shrinks :
    {s t : System} → UnlockSpreads s → Step s t → UnlockSpreads t × (to_unlock t < to_unlock s)
unlock_shrinks {s} l (lock_parent_step c n h) = ground (arith, l)
unlock_shrinks {s} l (lock_child_step c n h) = ground (arith, l)
unlock_shrinks {s} l (unlock_parent_step c h) = ground (arith, unlock_parent_view c s l.roles)
unlock_shrinks {s} l (unlock_child_step c h) = ground (arith, unlock_child_view c s l.roles)

lock_settles :
    {s : System}
    → LockSpreads s
    → IsQuiet s
    → (locked s.parent.activity ≡ true) × (locked s.child.activity ≡ true)
lock_settles l q = ground (arith, l, q)

unlock_settles :
    {s : System}
    → UnlockSpreads s
    → IsQuiet s
    → (locked s.parent.activity ≡ false) × (locked s.child.activity ≡ false)
unlock_settles l q = ground (arith, l, q)

-- Once a lock is under way and no unlock is, at most four signals are delivered, in whatever order,
-- and when none is pending any more both processes are locked.
pub lock_spreads :
    {n : ℕ} {s t : System}
    → LockSpreads s
    → Steps n s t
    → (n + to_lock t ≤ to_lock s)
      × (to_lock s ≤ 4)
      × (IsQuiet t → (locked t.parent.activity ≡ true) × (locked t.child.activity ≡ true))
lock_spreads {s = s} l done = (omega arith, ground arith, lock_settles l)
lock_spreads {s = s} l (step first more) =
    let here = lock_shrinks l first in
    let later = lock_spreads here.0 more in (omega (arith, here.1, later.0), ground arith, later.2)

-- Once an unlock is under way and no lock is, at most four signals are delivered, in whatever order,
-- and when none is pending any more neither process is locked.
pub unlock_spreads :
    {n : ℕ} {s t : System}
    → UnlockSpreads s
    → Steps n s t
    → (n + to_unlock t ≤ to_unlock s)
      × (to_unlock s ≤ 4)
      × (IsQuiet t → (locked t.parent.activity ≡ false) × (locked t.child.activity ≡ false))
unlock_spreads {s = s} l done = (omega arith, ground arith, unlock_settles l)
unlock_spreads {s = s} l (step first more) =
    let here = unlock_shrinks l first in
    let later = unlock_spreads here.0 more in
    (omega (arith, here.1, later.0), ground arith, later.2)

-- The parent is locked and has told the child, which is not locked yet, and an unlock is pending
-- for the parent.
pub record Crossed (s : System) : Type 0 where
  pub roles : AreRoles s
  pub parent_locked : locked s.parent.activity ≡ true
  pub child_unlocked : locked s.child.activity ≡ false
  pub unlock_comes : s.parent_usr2 ≡ true
  pub lock_comes : s.child_urg ≡ true
  pub no_other_lock : s.parent_urg ≡ false
  pub no_other_unlock : s.child_usr2 ≡ false

-- A lock and an unlock that cross can chase each other for ever: from such a state four deliveries
-- lead to such a state again, whatever the clock reads, as long as it does not read 0.
pub chase_forever :
    (s : System) (c : Circumstance)
    → nonzero c.now ≡ true
    → Crossed s
    → (t : System) × Steps 4 s t × Crossed t
chase_forever s c n x =
    let s1 = unlock_parent c s in
    let v1 = unlock_parent_view c s x.roles in
    let s2 = lock_child c s1 in
    let v2 = lock_child_view c s1 v1.6 n in
    let s3 = lock_parent c s2 in
    let v3 = lock_parent_view c s2 v2.6 n in
    let s4 = unlock_child c s3 in
    let v4 = unlock_child_view c s3 v3.6 in
    (
      s4,
      step (unlock_parent_step c x.unlock_comes) (
          step (lock_child_step c n (ground (arith, v1))) (
            step (lock_parent_step c n (ground (arith, v1, v2)))
              (step (unlock_child_step c (ground (arith, v1, v2, v3))) done))),
      ground (arith, v1, v2, v3, v4),
    )

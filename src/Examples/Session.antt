-- ===== src/Examples/Session.antt =====
-- Runs of the handlers of ttyrec.c.
use ovh_ttyrec.Base.{arith, false, inl, inr, none, pos, refl, true, ℤ, ◌+◌, ◌-ℤ◌, ◌<ℤ◌, ◌≡◌, ◌≤◌}
use ovh_ttyrec.Header.{Timeval}
use ovh_ttyrec.Timeval.Normal.{micros}
use ovh_ttyrec.Ttyrec.Process.{Winsize, locked, Process}
use ovh_ttyrec.Ttyrec.Session.Storm.{
  System, Circumstance, Steps, lock_child, unlock_child, lock_child_step, unlock_child_step, done,
  step,
}
use ovh_ttyrec.Ttyrec.Session.Storm.Ends.{
  LockSpreads, UnlockSpreads, IsQuiet, Crossed, to_lock, to_unlock, lock_spreads, unlock_spreads,
  chase_forever,
}
use ovh_ttyrec.Ttyrec.Rotation.{coalesced}
use ovh_ttyrec.Ttyrec.Rotation.Spacing.{coalesced_spacing}

abbrev window : Winsize
window = record { ws_row = 65535; ws_ypixel = 400 }

-- The parent has pid 10, the child 20 and the shell's process 30; `since` is `locked_since`.
abbrev parent_at : ℤ → Process
parent_at since = record {
  child = 20;
  subchild = 0;
  ppid = 1;
  activity = record {
    last_activity = pos 100;
    locked_since = since;
    lock_warned = true;
    kill_warned = false;
  };
}

abbrev child_at : ℤ → Process
child_at since = record {
  child = 30;
  subchild = 30;
  ppid = 10;
  activity = record {
    last_activity = pos 100;
    locked_since = since;
    lock_warned = false;
    kill_warned = false;
  };
}

abbrev moment : Circumstance
moment = record { now = pos 500; rand = 3; hostname = "host"; message = none; winsize = window }

-- The watcher of the parent has locked and told the child.
abbrev watcher_locked : System
watcher_locked = record {
  parent = parent_at (pos 500);
  child = child_at (pos 0);
  parent_urg = false;
  parent_usr2 = false;
  child_urg = true;
  child_usr2 = false;
}

watcher_locked-LockSpreads : LockSpreads watcher_locked
watcher_locked-LockSpreads = record {
  roles = record { parent_role = refl; child_role = omega arith };
  parent_quiet = refl;
  child_quiet = refl;
  started = inl refl;
  child_told = λ h. inr refl;
  parent_told = λ h. inl refl;
}

lock_spreads_example :
    (1 + to_lock (lock_child moment watcher_locked) ≤ to_lock watcher_locked)
    × (to_lock watcher_locked ≤ 4)
    × (IsQuiet (lock_child moment watcher_locked)
        → (locked (lock_child moment watcher_locked).parent.activity ≡ true)
          × (locked (lock_child moment watcher_locked).child.activity ≡ true))
lock_spreads_example =
    lock_spreads watcher_locked-LockSpreads (step (lock_child_step moment refl refl) done)

-- Both are locked, and the child is told to unlock.
abbrev unlock_asked : System
unlock_asked = record {
  parent = parent_at (pos 500);
  child = child_at (pos 500);
  parent_urg = false;
  parent_usr2 = false;
  child_urg = false;
  child_usr2 = true;
}

unlock_asked-UnlockSpreads : UnlockSpreads unlock_asked
unlock_asked-UnlockSpreads = record {
  roles = record { parent_role = refl; child_role = omega arith };
  parent_quiet = refl;
  child_quiet = refl;
  started = inr (inr (inr refl));
  child_told = λ h. inr refl;
  parent_told = λ h. ground (arith, h);
}

unlock_spreads_example :
    let t = unlock_child moment unlock_asked in
    (1 + to_unlock t ≤ to_unlock unlock_asked)
    × (to_unlock unlock_asked ≤ 4)
    × (IsQuiet t → (locked t.parent.activity ≡ false) × (locked t.child.activity ≡ false))
unlock_spreads_example =
    unlock_spreads unlock_asked-UnlockSpreads (step (unlock_child_step moment refl) done)

-- The watcher has locked while an unlock for the parent came.
abbrev crossing : System
crossing = record watcher_locked { parent_usr2 = true }

crossing-Crossed : Crossed crossing
crossing-Crossed = record {
  roles = record { parent_role = refl; child_role = omega arith };
  parent_locked = refl;
  child_unlocked = refl;
  unlock_comes = refl;
  lock_comes = refl;
  no_other_lock = refl;
  no_other_unlock = refl;
}

chase_forever_example : (t : System) × Steps 4 crossing t × Crossed t
chase_forever_example = chase_forever crossing moment refl crossing-Crossed

abbrev rotated_at : Timeval
rotated_at = record { tv_sec = pos 1000; tv_usec = pos 900000 }

abbrev asked_at : Timeval
asked_at = record { tv_sec = pos 1001; tv_usec = pos 100000 }

coalesced_spacing_example :
    (coalesced rotated_at asked_at ≡ true → micros asked_at -ℤ micros rotated_at <ℤ pos 250000)
    × (coalesced rotated_at asked_at ≡ false → pos 249000 <ℤ micros asked_at -ℤ micros rotated_at)
coalesced_spacing_example = coalesced_spacing rotated_at asked_at refl

-- ===== src/Ttyrec/Watcher/Late.antt =====
-- When a round of the watcher locks, and when it kills.
use ovh_ttyrec.Base.{
  +ℤ_parts, List, [], ap, arith, false, pos, refl, sym, true, ℕ, ℤ, ◌++◌, ◌-ℤ◌, ◌<ℤ◌, ◌||◌, ◌↔◌,
  ◌∙◌, ◌∷◌, ◌≡◌, ◌≤ℤ◌, ◌⊎◌, -ℤ_parts,
}
use ovh_ttyrec.Ttyrec.Process.{Signal, sigterm, sigurg, Effect, locked, Process}
use ovh_ttyrec.Ttyrec.Session.{do_lock}
use ovh_ttyrec.Ttyrec.Session.Storm.{sends}
use ovh_ttyrec.Ttyrec.Watcher.{
  Limits, warn_of_lock, watch_lock, warn_or_kill, watch_kill, timeout_watcher,
}

sends-append :
    (pid : ℕ) (sig : Signal) (xs ys : List Effect)
    → sends pid sig (xs ++ ys) ≡ sends pid sig xs || sends pid sig ys
sends-append pid sig [] ys = refl
sends-append pid sig (x ∷ xs) ys = ground (arith, sends-append pid sig xs ys)

module _ (l : Limits) (now again : ℤ) (p : Process) where
  abbrev idle : ℤ
  idle = now -ℤ p.activity.last_activity

  -- When a round of the watcher tells the child to lock.
  lock_iff : (sends p.child sigurg (watch_lock l now again p).1 ≡ true) ↔ (
      (l.use_tty ≡ true)
      × (locked p.activity ≡ false)
      × (pos 0 <ℤ l.timeout_lock)
      × (l.timeout_lock <ℤ idle))
  unfolding watch_lock warn_of_lock do_lock
  lock_iff = ground arith

  -- When it warns of a kill, and when it kills.
  pub kill_iff :
      (since limit : ℤ)
      → (sends p.child sigterm (warn_or_kill l now since limit p).1 ≡ true) ↔ (
          (limit <ℤ (now -ℤ since))
          × ((p.activity.kill_warned ≡ false) → (l.warn_before_kill_seconds ≤ℤ pos 0)))
  unfolding warn_or_kill
  kill_iff since limit =
      ground (arith, -ℤ_parts now since, -ℤ_parts limit l.warn_before_kill_seconds)

  lock_calls_no_kill : sends p.child sigterm (watch_lock l now again p).1 ≡ false
  unfolding watch_lock warn_of_lock do_lock
  lock_calls_no_kill = ground arith

  -- What the first half of a round leaves.
  pub watch_lock_view :
      let q = (watch_lock l now again p).0 in
      (q.child ≡ p.child)
      × (q.activity.last_activity ≡ p.activity.last_activity)
      × (q.activity.kill_warned ≡ p.activity.kill_warned)
      × ((q.activity.locked_since ≡ p.activity.locked_since)
          ⊎ ((locked p.activity ≡ false)
              × (l.timeout_lock <ℤ idle)
              × (q.activity.locked_since ≡ again)))
  unfolding watch_lock warn_of_lock do_lock
  watch_lock_view = ground arith

  -- What a kill needs.
  kill_needs :
      sends p.child sigterm (watch_kill l now p).1 ≡ true
      → (((locked p.activity ≡ true)
            × (l.timeout_kill -ℤ l.timeout_lock <ℤ now -ℤ p.activity.locked_since))
          ⊎ ((locked p.activity ≡ false) × (l.timeout_kill <ℤ idle)))
        × (pos 0 <ℤ l.timeout_kill)
        × ((p.activity.kill_warned ≡ false) → (l.warn_before_kill_seconds ≤ℤ pos 0))
  unfolding watch_kill
  kill_needs sent = ground (
    arith,
    sent,
    kill_iff p.activity.locked_since (l.timeout_kill -ℤ l.timeout_lock),
    kill_iff p.activity.last_activity l.timeout_kill,
  )

  kill_calls_no_lock : (pid : ℕ) → sends pid sigurg (watch_kill l now p).1 ≡ false
  unfolding watch_kill warn_or_kill
  kill_calls_no_lock pid = ground arith

  pub watch_kill_view :
      let q = (watch_kill l now p).0 in
      (q.child ≡ p.child)
      × (q.activity.last_activity ≡ p.activity.last_activity)
      × (q.activity.locked_since ≡ p.activity.locked_since)
      × (q.activity.lock_warned ≡ p.activity.lock_warned)
  unfolding watch_kill warn_or_kill
  watch_kill_view = ground arith

  lock_is_warned :
      sends p.child sigurg (watch_lock l now again p).1 ≡ true
      → (pos 0 <ℤ l.warn_before_lock_seconds
          → (watch_lock l now again p).0.activity.lock_warned ≡ true)
        × ((watch_lock l now again p).0.activity.locked_since ≡ again)
  unfolding watch_lock warn_of_lock do_lock
  lock_is_warned h = ground (arith, h, +ℤ_parts idle l.warn_before_lock_seconds)

-- A lock that has been taken came more than `timeout_lock` seconds after the last activity.
pub record IsIdleLock (l : Limits) (p : Process) : Type 0 where
  pub late :
      locked p.activity ≡ true
      → l.timeout_lock <ℤ p.activity.locked_since -ℤ p.activity.last_activity

module _ (l : Limits) (now again : ℤ) (p : Process) where
  abbrev pub after_lock : Process
  after_lock = (watch_lock l now again p).0

  pub round_sends :
      (sig : Signal)
      → sends p.child sig (timeout_watcher l now again p).1
        ≡ sends p.child sig (watch_lock l now again p).1
          || sends p.child sig (watch_kill l now after_lock).1
  unfolding timeout_watcher
  round_sends sig =
      sends-append p.child sig (watch_lock l now again p).1 (watch_kill l now after_lock).1

  same_child : after_lock.child ≡ p.child
  same_child = (watch_lock_view l now again p).0

  locks_same :
      sends p.child sigurg (timeout_watcher l now again p).1
      ≡ sends p.child sigurg (watch_lock l now again p).1
  locks_same =
      round_sends sigurg ∙ rw (kill_calls_no_lock l now again after_lock p.child) (ground arith)

  pub kills_same :
      sends p.child sigterm (timeout_watcher l now again p).1
      ≡ sends after_lock.child sigterm (watch_kill l now after_lock).1
  kills_same =
      round_sends sigterm
      ∙ rw (lock_calls_no_kill l now again p)
          (ap (λ (k : ℕ). sends k sigterm (watch_kill l now after_lock).1) (sym same_child))

  -- A round of the watcher tells the child to lock exactly where there is a terminal, the session is not
  -- locked, a timeout is set, and there was no activity for longer than that. The parent is then locked
  -- too, and where a warning was asked for it has been given.
  pub watcher_locks :
      ((sends p.child sigurg (timeout_watcher l now again p).1 ≡ true) ↔ (
        (l.use_tty ≡ true)
        × (locked p.activity ≡ false)
        × (pos 0 <ℤ l.timeout_lock)
        × (l.timeout_lock <ℤ now -ℤ p.activity.last_activity)))
      × (sends p.child sigurg (timeout_watcher l now again p).1 ≡ true
          → let a = (timeout_watcher l now again p).0.activity in
            (a.locked_since ≡ again) × (pos 0 <ℤ l.warn_before_lock_seconds → a.lock_warned ≡ true))
  unfolding timeout_watcher
  watcher_locks =
      let iff = lock_iff l now again p in
      let kept = watch_kill_view l now again after_lock in
      (
        (λ h. iff.0 (sym locks_same ∙ h), λ h. locks_same ∙ iff.1 h),
        λ h.
            let warned = lock_is_warned l now again p (sym locks_same ∙ h) in
            (kept.2 ∙ warned.1, λ w. kept.3 ∙ warned.0 w),
      )

  -- What a round keeps.
  pub IsIdleLock-round :
      now ≤ℤ again → IsIdleLock l p → IsIdleLock l (timeout_watcher l now again p).0
  unfolding timeout_watcher
  IsIdleLock-round fwd h = record {
    late = ground (
      arith,
      watch_lock_view l now again p,
      watch_kill_view l now again after_lock,
      h.late,
      -ℤ_parts now p.activity.last_activity,
      -ℤ_parts again p.activity.last_activity,
    );
  }

  pub kills_late :
      now ≤ℤ again
      → IsIdleLock l p
      → sends p.child sigterm (timeout_watcher l now again p).1 ≡ true
      → (l.timeout_kill <ℤ now -ℤ p.activity.last_activity)
        × (p.activity.kill_warned ≡ false → l.warn_before_kill_seconds ≤ℤ pos 0)
  kills_late fwd h sent =
      let q = after_lock in
      let needs = kill_needs l now again q (sym kills_same ∙ sent) in
      let kept = watch_lock_view l now again p in
      let span = -ℤ_parts l.timeout_kill l.timeout_lock in
      let t0 = -ℤ_parts now p.activity.last_activity in
      let t1 = -ℤ_parts now q.activity.locked_since in
      let t2 = -ℤ_parts p.activity.locked_since p.activity.last_activity in
      ground (arith, needs, kept, span, t0, t1, t2, h.late)

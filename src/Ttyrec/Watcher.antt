-- ===== src/Ttyrec/Watcher.antt =====
-- `timeout_watcher`: the thread of the parent that locks and kills an idle session.
pub mod Late
pub mod Rounds
use ovh_ttyrec.Base.{
  Bool, List, [], if◌then◌else◌, ltb_ℤ, not, pos, true, ℤ, ◌&&◌, ◌++◌, ◌+ℤ◌, ◌-ℤ◌, ◌∷◌,
}
use ovh_ttyrec.Ttyrec.Process.{sigterm, Effect, kill, warn_lock, warn_kill, locked, Process}
use ovh_ttyrec.Ttyrec.Session.{do_lock}

-- The options that the watcher reads; 0 stands for an option that was not given.
pub record Limits : Type 0 where
  pub timeout_lock : ℤ
  pub timeout_kill : ℤ
  pub warn_before_lock_seconds : ℤ
  pub warn_before_kill_seconds : ℤ
  pub use_tty : Bool

-- The warning before a lock, and the lock. `again` is the clock as `do_lock` reads it.
unfoldable pub warn_of_lock : Limits → ℤ → Process → Process × List Effect
warn_of_lock l now p =
    if ltb_ℤ (pos 0) l.warn_before_lock_seconds
      && not p.activity.lock_warned
      && ltb_ℤ l.timeout_lock ((now -ℤ p.activity.last_activity) +ℤ l.warn_before_lock_seconds)
    then (
      record p { activity = record p.activity { lock_warned = true } },
      warn_lock l.warn_before_lock_seconds ∷ [],
    )
    else (p, [])

unfoldable pub watch_lock : Limits → ℤ → ℤ → Process → Process × List Effect
watch_lock l now again p =
    if l.use_tty && not (locked p.activity)
    then (let (p1, warned) = warn_of_lock l now p in
        if ltb_ℤ (pos 0) l.timeout_lock && ltb_ℤ l.timeout_lock (now -ℤ p1.activity.last_activity)
        then (let (p2, calls) = do_lock again p1 in (p2, warned ++ calls))
        else (p1, warned))
    else (p, [])

-- The warning before a kill, or the kill, where the session has been idle since `since` and is
-- killed after `limit` seconds.
unfoldable pub warn_or_kill : Limits → ℤ → ℤ → ℤ → Process → Process × List Effect
warn_or_kill l now since limit p =
    if ltb_ℤ (pos 0) l.warn_before_kill_seconds
      && not p.activity.kill_warned
      && ltb_ℤ (limit -ℤ l.warn_before_kill_seconds) (now -ℤ since)
    then (
      record p { activity = record p.activity { kill_warned = true } },
      warn_kill l.warn_before_kill_seconds ∷ [],
    )
    else if ltb_ℤ limit (now -ℤ since)
    then (p, kill p.child sigterm ∷ [])
    else (p, [])

unfoldable pub watch_kill : Limits → ℤ → Process → Process × List Effect
watch_kill l now p =
    if not (ltb_ℤ (pos 0) l.timeout_kill)
    then (p, [])
    else if locked p.activity
    then warn_or_kill l now p.activity.locked_since (l.timeout_kill -ℤ l.timeout_lock) p
    else warn_or_kill l now p.activity.last_activity l.timeout_kill p

-- One round of the endless loop, after its `sleep(1)`.
unfoldable pub timeout_watcher : Limits → ℤ → ℤ → Process → Process × List Effect
timeout_watcher l now again p =
    let (p1, locking) = watch_lock l now again p in
    let (p2, killing) = watch_kill l now p1 in (p2, locking ++ killing)

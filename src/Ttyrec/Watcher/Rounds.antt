-- ===== src/Ttyrec/Watcher/Rounds.antt =====
-- Rounds of the watcher, one after the other.
use ovh_ttyrec.Base.{
  List, [], arith, false, pos, true, ℤ, ◌-ℤ◌, ◌<ℤ◌, ◌∙◌, ◌∷◌, ◌≡◌, ◌≤ℤ◌, ◌⊎◌, -ℤ_parts,
}
use ovh_ttyrec.Ttyrec.Session.{do_lock}
use ovh_ttyrec.Ttyrec.Process.{sigterm, locked, Process}
use ovh_ttyrec.Ttyrec.Session.Storm.{sends}
use ovh_ttyrec.Ttyrec.Watcher.{
  Limits, warn_of_lock, watch_lock, warn_or_kill, watch_kill, timeout_watcher,
}
use ovh_ttyrec.Ttyrec.Watcher.Late.{
  kills_same, kill_iff, watch_lock_view, watch_kill_view, after_lock,
}

-- A number of rounds, with the two readings of the clock in each.
unfoldable pub watch_all : Limits → List (ℤ × ℤ) → Process → Process
watch_all l [] p = p
watch_all l ((now, again) ∷ rounds) p = watch_all l rounds (timeout_watcher l now again p).0

-- In no round the clock is set back between its two readings.
abbrev pub AllForward : List (ℤ × ℤ) → Type 0
AllForward [] = Unit
AllForward ((now, again) ∷ rounds) = (now ≤ℤ again) × AllForward rounds

round_keeps_activity :
    (l : Limits) (now again : ℤ) (p : Process)
    → (timeout_watcher l now again p).0.activity.last_activity ≡ p.activity.last_activity
unfolding timeout_watcher
round_keeps_activity l now again p =
    (watch_kill_view l now again (after_lock l now again p)).1 ∙ (watch_lock_view l now again p).1

-- A session that cannot be locked, and that has been idle for too long.
module _ (l : Limits) (no_lock : (l.use_tty ≡ false) ⊎ (l.timeout_lock ≤ℤ pos 0))
    (limit : pos 0 <ℤ l.timeout_kill) (now again : ℤ) (p : Process)
    (free : locked p.activity ≡ false) where
  stays_free :
      let q = after_lock l now again p in
      (locked q.activity ≡ false)
      × (q.activity.last_activity ≡ p.activity.last_activity)
      × (q.activity.kill_warned ≡ p.activity.kill_warned)
  unfolding watch_lock warn_of_lock do_lock
  stays_free = ground (arith, no_lock, free)

  is_warned :
      l.timeout_kill <ℤ now -ℤ p.activity.last_activity
      → let q = (watch_kill l now p).0 in
        (locked q.activity ≡ false)
        × ((q.activity.kill_warned ≡ true) ⊎ (l.warn_before_kill_seconds ≤ℤ pos 0))
  unfolding watch_kill warn_or_kill
  is_warned idle =
      ground (arith, free, limit, idle, -ℤ_parts l.timeout_kill l.warn_before_kill_seconds)

  is_killed :
      l.timeout_kill <ℤ now -ℤ p.activity.last_activity
      → (p.activity.kill_warned ≡ true) ⊎ (l.warn_before_kill_seconds ≤ℤ pos 0)
      → sends p.child sigterm (watch_kill l now p).1 ≡ true
  unfolding watch_kill
  is_killed idle warned = ground (
    arith,
    free,
    limit,
    idle,
    warned,
    kill_iff l now again p p.activity.last_activity l.timeout_kill,
  )

-- A session that is not locked, and is not going to be, is killed in the second of two rounds that
-- both come more than `timeout_kill` seconds after the last activity, if not in the first.
pub watcher_kills :
    (l : Limits) (now again now' again' : ℤ) (p : Process)
    → locked p.activity ≡ false
    → (l.use_tty ≡ false) ⊎ (l.timeout_lock ≤ℤ pos 0)
    → pos 0 <ℤ l.timeout_kill
    → l.timeout_kill <ℤ now -ℤ p.activity.last_activity
    → l.timeout_kill <ℤ now' -ℤ p.activity.last_activity
    → let q = (timeout_watcher l now again p).0 in
      sends q.child sigterm (timeout_watcher l now' again' q).1 ≡ true
unfolding timeout_watcher
watcher_kills l now again now' again' p free no_lock limit idle idle' =
    let q = (timeout_watcher l now again p).0 in
    let p1 = after_lock l now again p in
    let first = stays_free l no_lock limit now again p free in
    let warned = is_warned l no_lock limit now again p1 first.0 (rw first.1 idle) in
    let q1 = after_lock l now' again' q in
    let second = stays_free l no_lock limit now' again' q warned.0 in
    kills_same l now' again' q
    ∙ is_killed l no_lock limit now' again' q1 second.0
        (rw (second.1 ∙ round_keeps_activity l now again p) idle') (rw second.2 warned.1)

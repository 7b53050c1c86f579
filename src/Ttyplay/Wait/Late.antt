-- ===== src/Ttyplay/Wait/Late.antt =====
-- `ttywait` of ttyplay.c, call after call.
use ovh_ttyrec.Base.{
  Bool-cases, List, [], ap, append-nil, append_assoc, arith, eq_of_parts, false, if◌then◌else◌, inl,
  inr, int_laws, length, ltb_ℤ, ltb_ℤ→le, ltb_ℤ→lt, neg_part, pos, pos_part, refl, replicate, sym,
  ℕ, ℤ, ◌++◌, ◌+ℤ◌, ◌+◌, ◌-ℤ◌, ◌∙◌, ◌∷◌, ◌≡◌, ◌≤ℤ◌,
}
use ovh_ttyrec.Header.{Timeval}
use ovh_ttyrec.Recording.{Record, time_of}
use ovh_ttyrec.Timeval.{timeval_diff}
use ovh_ttyrec.Timeval.Normal.{micros, IsNormal, timeval_diff-IsNormal, micros-timeval_diff}
use ovh_ttyrec.Ttyplay.Play.Replay.{waits}
use ovh_ttyrec.Ttyplay.Wait.{
  Double, Moment, Waiting, zero_time, timeval_div, time_to_wait, new_drift, ttywait,
}
use ovh_ttyrec.Ttyplay.Wait.Drift.{
  zero_time-IsNormal, wait_some, wait_none, drift_some, drift_none, new_drift-IsNormal, Undisturbed,
}

module _ {W : Type 0} (double : Double W) where
  open double use {is_zero}

  -- What is due between two records at a speed.
  abbrev pub due : W → Timeval → Timeval → Timeval
  due speed prev cur = timeval_div double (timeval_diff prev cur) speed

  abbrev pub moment : Waiting → Moment
  moment env = env.moments env.calls

  ttywait_eq :
      (prev cur : Timeval) (speed : W) (env : Waiting) (wanted : Timeval)
      → is_zero speed ≡ false
      → (moment env).key ≡ false
      → time_to_wait double env.drift (due speed prev cur) ≡ wanted
      → ttywait double prev cur speed env ≡ (
        speed,
        record env {
          drift = new_drift double env.drift wanted (moment env).start (moment env).stop;
          calls = env.calls + 1;
          asked = env.asked ++ wanted ∷ [];
        },
      )
  unfolding ttywait
  ttywait_eq prev cur speed env wanted z k w = simp (z, k, w) refl

  -- What a call that no key ends does to the timeout and to the drift.
  pub ttywait_drift :
      (prev cur : Timeval) (speed : W) (env : Waiting)
      → is_zero speed ≡ false
      → Undisturbed (moment env)
      → IsNormal env.drift
      → IsNormal (due speed prev cur)
      → let (speed', env') = ttywait double prev cur speed env in
        let late = ltb_ℤ (micros env.drift) (micros (due speed prev cur)) in
        (speed' ≡ speed)
        × ((wanted : Timeval) × (env'.asked ≡ env.asked ++ wanted ∷ [])
            × (micros wanted
                ≡ (if late then micros (due speed prev cur) -ℤ micros env.drift else pos 0)))
        × (micros env'.drift +ℤ (if late then micros (due speed prev cur) else pos 0)
            ≡ micros env.drift +ℤ (micros (moment env).stop -ℤ micros (moment env).start))
        × IsNormal env'.drift
  ttywait_drift prev cur speed env z u hd hu =
      let m = moment env in
      elim (Bool-cases (ltb_ℤ (micros env.drift) (micros (due speed prev cur)))) [
        | inl late ↦
            let later = ltb_ℤ→lt (micros env.drift) (micros (due speed prev cur)) late in
            let wanted = timeval_diff env.drift (due speed prev cur) in
            rw
              (
                ttywait_eq prev cur speed env wanted z u.no_key
                    (wait_some double env.drift (due speed prev cur) hd hu later),
                late,
              )
              (
                refl,
                (wanted, refl, micros-timeval_diff env.drift (due speed prev cur)),
                drift_some double env.drift (due speed prev cur) m.start m.stop later,
                new_drift-IsNormal double env.drift wanted m.start m.stop hd
                    (timeval_diff-IsNormal env.drift (due speed prev cur) hd hu) u.start_normal
                    u.stop_normal,
              )
        | inr early ↦
            let before = ltb_ℤ→le (micros env.drift) (micros (due speed prev cur)) early in
            let same = drift_none double env.drift m.start m.stop in
            rw
              (
                ttywait_eq prev cur speed env zero_time z u.no_key
                    (wait_none double env.drift (due speed prev cur) hd hu before),
                early,
              )
              (
                refl,
                (zero_time, refl, eq_of_parts (micros zero_time) (pos 0) (omega int_laws)),
                eq_of_parts (micros (new_drift double env.drift zero_time m.start m.stop) +ℤ pos 0)
                    (micros env.drift +ℤ (micros m.stop -ℤ micros m.start))
                    (omega (int_laws, ap pos_part same, ap neg_part same)),
                new_drift-IsNormal double env.drift zero_time m.start m.stop hd zero_time-IsNormal
                    u.start_normal u.stop_normal,
              )
      ]

  -- Between any two records no more is due than the player is late.
  abbrev pub Overdue : ℤ → W → Timeval → List Record → Type 0
  Overdue lateness speed prev [] = Unit
  Overdue lateness speed prev (r ∷ rs) =
      IsNormal (due speed prev (time_of r))
      × (micros (due speed prev (time_of r)) ≤ℤ lateness)
      × Overdue lateness speed (time_of r) rs

  -- One such call asks for no sleep, and the player is then as late as before, or later.
  overdue_step :
      (prev cur : Timeval) (speed : W) (env : Waiting) (lateness : ℤ)
      → is_zero speed ≡ false
      → ((n : ℕ) → Undisturbed (env.moments n))
      → IsNormal env.drift
      → lateness ≤ℤ micros env.drift
      → IsNormal (due speed prev cur)
      → micros (due speed prev cur) ≤ℤ lateness
      → let (speed', env') = ttywait double prev cur speed env in
        (speed' ≡ speed)
        × (env'.asked ≡ env.asked ++ zero_time ∷ [])
        × (env'.moments ≡ env.moments)
        × IsNormal env'.drift
        × (lateness ≤ℤ micros env'.drift)
  overdue_step prev cur speed env lateness z u hd late hu small =
      let m = moment env in
      let um = u env.calls in
      let same = drift_none double env.drift m.start m.stop in
      rw
        (ttywait_eq prev cur speed env zero_time z um.no_key
          (wait_none double env.drift (due speed prev cur) hd hu (omega arith)))
        (
          refl,
          refl,
          refl,
          new_drift-IsNormal double env.drift zero_time m.start m.stop hd zero_time-IsNormal
              um.start_normal um.stop_normal,
          omega (int_laws, ap pos_part same, ap neg_part same, um.goes_on),
        )

  -- A player that is late by more than what is due between any two records never waits again, however many
  -- records there are, and is never less late: the time that it saves is not taken off the drift. No
  -- key is hit, the clock does not go back, and the assertion on the speed holds.
  pub never_caught_up :
      (rs : List Record) (prev : Timeval) (speed : W) (env : Waiting) (lateness : ℤ)
      → is_zero speed ≡ false
      → ((n : ℕ) → Undisturbed (env.moments n))
      → IsNormal env.drift
      → lateness ≤ℤ micros env.drift
      → Overdue lateness speed prev rs
      → let (speed', env') = waits (ttywait double) prev speed env rs in
        (speed' ≡ speed)
        × (env'.asked ≡ env.asked ++ replicate (length rs) zero_time)
        × (lateness ≤ℤ micros env'.drift)
  never_caught_up [] prev speed env lateness z u hd late o =
      (refl, sym (append-nil env.asked), late)
  never_caught_up (r ∷ rs) prev speed env lateness z u hd late o =
      let (speed', env') = ttywait double prev (time_of r) speed env in
      let (kept, asks, moments, normal, later) =
        overdue_step prev (time_of r) speed env lateness z u hd late o.0 o.1 in
      let rest =
        never_caught_up rs (time_of r) speed' env' lateness (ap is_zero kept ∙ z)
          (λ n. rw moments (u n)) normal later (rw kept (o.2)) in
      (
        rest.0 ∙ kept,
        rest.1
            ∙ ap (λ (v : List Timeval). v ++ replicate (length rs) zero_time) asks
            ∙ append_assoc env.asked (zero_time ∷ []) (replicate (length rs) zero_time),
        rest.2,
      )

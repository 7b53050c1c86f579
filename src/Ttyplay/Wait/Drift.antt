-- ===== src/Ttyplay/Wait/Drift.antt =====
-- What `ttywait` of ttyplay.c keeps in its drift.
use ovh_ttyrec.Base.{
  +ℤ_parts, Bool-cases, ap, arith, eq_of_parts, false, inl, inr, int_laws, ltb_ℤ, ltb_ℤ→le,
  ltb_ℤ→lt, neg_part, pos, pos_part, refl, scale, scale_parts, ◌+ℤ◌, ◌-ℤ◌, ◌<ℤ◌, ◌≡◌, ◌≤ℤ◌,
}
use ovh_ttyrec.Header.{Timeval}
use ovh_ttyrec.Timeval.{timeval_diff}
use ovh_ttyrec.Timeval.Normal.{
  micros, IsNormal, micros-injective, timeval_diff-IsNormal, micros-timeval_diff,
}
use ovh_ttyrec.Ttyplay.Wait.{Double, Moment, zero_time, time_to_wait, is_zero_time, new_drift}

pub zero_time-IsNormal : IsNormal zero_time
zero_time-IsNormal = (omega arith, omega arith)

not_zero : (tv : Timeval) → pos 0 <ℤ micros tv → is_zero_time tv ≡ false
not_zero tv h =
    ground (arith, +ℤ_parts (scale 1000000 tv.tv_sec) tv.tv_usec, scale_parts 1000000 tv.tv_sec)

-- A call that no key ends, at a moment with normal times.
pub record Undisturbed (m : Moment) : Type 0 where
  pub no_key : m.key ≡ false
  pub start_normal : IsNormal m.start
  pub stop_normal : IsNormal m.stop
  pub goes_on : micros m.start ≤ℤ micros m.stop

module _ {W : Type 0} (double : Double W) where
  -- What is waited for is what is due less the drift, where that is more than nothing.
  pub wait_some :
      (drift due : Timeval)
      → IsNormal drift
      → IsNormal due
      → micros drift <ℤ micros due
      → time_to_wait double drift due ≡ timeval_diff drift due
  unfolding time_to_wait
  wait_some drift due hd hu later =
      let exact = micros-timeval_diff drift due in
      let normal = timeval_diff-IsNormal drift due hd hu in
      elim (Bool-cases (ltb_ℤ (timeval_diff drift due).tv_sec (pos 0))) [
        | inl e ↦ absurd (
            omega (
              int_laws,
              ltb_ℤ→lt (timeval_diff drift due).tv_sec (pos 0) e,
              ap pos_part exact,
              ap neg_part exact,
            ))
        | inr e ↦ rw e refl
      ]

  pub wait_none :
      (drift due : Timeval)
      → IsNormal drift
      → IsNormal due
      → micros due ≤ℤ micros drift
      → time_to_wait double drift due ≡ zero_time
  unfolding time_to_wait
  wait_none drift due hd hu early =
      let exact = micros-timeval_diff drift due in
      let normal = timeval_diff-IsNormal drift due hd hu in
      elim (Bool-cases (ltb_ℤ (timeval_diff drift due).tv_sec (pos 0))) [
        | inl e ↦ rw e refl
        | inr e ↦ rw e (
            micros-injective (timeval_diff drift due) zero_time normal zero_time-IsNormal (
              eq_of_parts (micros (timeval_diff drift due)) (micros zero_time) (
                omega (
                  int_laws,
                  ltb_ℤ→le (timeval_diff drift due).tv_sec (pos 0) e,
                  ap pos_part exact,
                  ap neg_part exact,
                ))))
      ]

  -- The drift is moved on exactly: by what the wait took, less what was due.
  pub drift_some :
      (drift due start stop : Timeval)
      → micros drift <ℤ micros due
      → micros (new_drift double drift (timeval_diff drift due) start stop) +ℤ micros due
        ≡ micros drift +ℤ (micros stop -ℤ micros start)
  unfolding new_drift
  drift_some drift due start stop later =
      let exact = micros-timeval_diff drift due in
      let took = micros-timeval_diff start stop in
      let test : is_zero_time (timeval_diff drift due) ≡ false =
        not_zero (timeval_diff drift due)
          (omega (int_laws, ap pos_part exact, ap neg_part exact)) in
      rw (test, micros-timeval_diff (timeval_diff drift due) (timeval_diff start stop), exact, took)
        (eq_of_parts _ _ (omega int_laws))

  -- Where nothing was waited for it is moved on too, but what was due is not taken off.
  pub drift_none :
      (drift start stop : Timeval)
      → micros (new_drift double drift zero_time start stop)
        ≡ micros drift +ℤ (micros stop -ℤ micros start)
  unfolding new_drift
  drift_none drift start stop =
      rw
        (
          micros-timeval_diff (timeval_diff drift zero_time) (timeval_diff start stop),
          micros-timeval_diff drift zero_time,
          micros-timeval_diff start stop,
        )
        (eq_of_parts _ _ (omega int_laws))

  pub new_drift-IsNormal :
      (drift diff start stop : Timeval)
      → IsNormal drift
      → IsNormal diff
      → IsNormal start
      → IsNormal stop
      → IsNormal (new_drift double drift diff start stop)
  unfolding new_drift
  new_drift-IsNormal drift diff start stop hd hf hs ht = elim (Bool-cases (is_zero_time diff)) [
    | inl e ↦ rw e (
        timeval_diff-IsNormal (timeval_diff drift diff) (timeval_diff start stop)
          (timeval_diff-IsNormal drift diff hd hf) (timeval_diff-IsNormal start stop hs ht))
    | inr e ↦ rw e (
        timeval_diff-IsNormal diff (timeval_diff start stop) hf
          (timeval_diff-IsNormal start stop hs ht))
  ]

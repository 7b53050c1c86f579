-- ===== src/Ttyrec/Rotation/Spacing.antt =====
-- How far apart in time two rotations are.
use ovh_ttyrec.Base.{
  false, int_laws, ltb_ℤ→le, ltb_ℤ→lt, negsuc, pos, scale, sub_ℕ_parts, suc, true, ℤ, ◌+ℤ◌, ◌-ℤ◌,
  ◌/◌, ◌<ℤ◌, ◌≡◌,
}
use ovh_ttyrec.Header.{Timeval}
use ovh_ttyrec.Timeval.Normal.{micros}
use ovh_ttyrec.Ttyrec.Process.{nonzero}
use ovh_ttyrec.Ttyrec.Rotation.{quot, elapsed_ms, coalesced}

-- The quotient is off by less than one.
quot_parts :
    (a : ℤ)
    → (scale 1000 (quot a 1000) <ℤ a +ℤ pos 1000) × (a <ℤ scale 1000 (quot a 1000) +ℤ pos 1000)
unfolding quot
quot_parts (pos n) = omega int_laws
quot_parts (negsuc n) = omega (int_laws, sub_ℕ_parts 0 (suc n / 1000))

-- Requests after the first rotation: one that is dropped came less than 250 ms after the last
-- rotation, or before it on a clock that was set back; one that is served came more than 249 ms
-- after it. The quotient of the microseconds is rounded towards 0, hence the millisecond between.
pub coalesced_spacing :
    (last now : Timeval)
    → nonzero last.tv_sec ≡ true
    → (coalesced last now ≡ true → micros now -ℤ micros last <ℤ pos 250000)
      × (coalesced last now ≡ false → pos 249000 <ℤ micros now -ℤ micros last)
unfolding coalesced elapsed_ms
coalesced_spacing last now n =
    let q = quot_parts (now.tv_usec -ℤ last.tv_usec) in
    (
      λ c. omega (int_laws, q, ltb_ℤ→lt (elapsed_ms last now) (pos 250) (rw n at c)),
      λ c. omega (int_laws, q, ltb_ℤ→le (elapsed_ms last now) (pos 250) (rw n at c)),
    )

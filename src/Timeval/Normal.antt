-- ===== src/Timeval/Normal.antt =====
-- `timeval_diff` of ttyplay.c, as arithmetic on microseconds.
use ovh_ttyrec.Base.{
  +ℤ_parts, -ℤ_parts, Bool-cases, ap, arith, eq_of_parts, inl, inr, int_laws, ltb_ℤ, neg_part, pos,
  pos_part, scale, sym, ℤ, ◌+ℤ◌, ◌-ℤ◌, ◌<ℤ◌, ◌↔◌, ◌∙◌, ◌≡◌, ◌≤ℤ◌,
}
use ovh_ttyrec.Header.{Timeval}
use ovh_ttyrec.Timeval.{timeval_diff}

-- The time as one number of microseconds.
abbrev pub micros : Timeval → ℤ
micros tv = scale 1000000 tv.tv_sec +ℤ tv.tv_usec

-- The microseconds stay below a second.
abbrev pub IsNormal : Timeval → Type 0
IsNormal tv = (pos 0 ≤ℤ tv.tv_usec) × (tv.tv_usec <ℤ pos 1000000)

-- The difference of two normal times is normal, also where it is negative.
pub timeval_diff-IsNormal : (a b : Timeval) → IsNormal a → IsNormal b → IsNormal (timeval_diff a b)
unfolding timeval_diff
timeval_diff-IsNormal a b ha hb =
    ground (arith, -ℤ_parts b.tv_usec a.tv_usec, +ℤ_parts (b.tv_usec -ℤ a.tv_usec) (pos 1000000))

-- Of any two times, also such as are not normal, the result is exactly their difference.
pub micros-timeval_diff : (a b : Timeval) → micros (timeval_diff a b) ≡ micros b -ℤ micros a
unfolding timeval_diff
micros-timeval_diff a b = elim (Bool-cases (ltb_ℤ (b.tv_usec -ℤ a.tv_usec) (pos 0))) [
  | inl e ↦ rw e (omega int_laws)
  | inr e ↦ rw e (omega int_laws)
]

Timeval-path : (a b : Timeval) → a.tv_sec ≡ b.tv_sec → a.tv_usec ≡ b.tv_usec → a ≡ b
Timeval-path a b p q = λ i. record { tv_sec = p i; tv_usec = q i }

-- A normal time is known from its number of microseconds.
pub micros-injective : (a b : Timeval) → IsNormal a → IsNormal b → micros a ≡ micros b → a ≡ b
micros-injective a b ha hb h =
    Timeval-path a b
      (eq_of_parts a.tv_sec b.tv_sec (omega (int_laws, ap pos_part h, ap neg_part h)))
      (eq_of_parts a.tv_usec b.tv_usec (omega (int_laws, ap pos_part h, ap neg_part h)))

-- Of normal times, `timeval_diff` gives the one normal time that is their difference.
pub timeval_diff_iff :
    (a b c : Timeval)
    → IsNormal a
    → IsNormal b
    → IsNormal c
    → (timeval_diff a b ≡ c) ↔ (micros c ≡ micros b -ℤ micros a)
timeval_diff_iff a b c ha hb hc = (
  λ e. ap micros (sym e) ∙ micros-timeval_diff a b,
  λ e.
      micros-injective (timeval_diff a b) c (timeval_diff-IsNormal a b ha hb) hc
        (micros-timeval_diff a b ∙ sym e),
)

-- ===== src/Base/Bits.antt =====
-- `|` of fields that do not overlap, and `&` with a run of ones, as arithmetic, for every width.
use Prim.Native.Nat.{
  ℕ, zero, suc, ◌+◌, ◌-◌, ◌*◌, ◌/◌, ◌%◌, ◌^◌, ◌≤◌, ◌<◌, min, max, bit_and, bit_or, digits,
  bit_and-bitwise, bit_or-bitwise,
}
use mathlib.Core.Path.{◌≡◌, refl, ap, ap₂, ◌∙◌}
use native.Mathlib.Nat.{pow-suc, mod-lt, one-le-pow, suc-add}
use native.Mathlib.Omega.{arith}

-- The recursion on digits does not depend on its fuel `n`, once there is a step for each digit.
module _ (z : ℕ → ℕ) (f : ℕ → ℕ → ℕ) where
  more_fuel : (n a b : ℕ) → a ≤ n → digits z f (suc n) a b ≡ digits z f n a b
  more_fuel zero zero b p = refl
  more_fuel zero (suc a) b p = absurd (omega arith)
  more_fuel (suc n) zero b p = refl
  more_fuel (suc n) (suc a) b p =
      ap (λ (d : ℕ). d * 2 + f (suc a % 2) (b % 2)) (more_fuel n (suc a / 2) (b / 2) (omega arith))

  any_fuel : (d n a b : ℕ) → a ≤ n → digits z f (d + n) a b ≡ digits z f n a b
  any_fuel zero n a b p = ap (λ (m : ℕ). digits z f m a b) (omega arith)
  any_fuel (suc d) n a b p =
      rw (suc-add d n) (more_fuel (d + n) a b (omega arith)) ∙ any_fuel d n a b p

  half_fuel : (a b : ℕ) → digits z f a (suc a / 2) b ≡ digits z f (suc a / 2) (suc a / 2) b
  half_fuel a b =
      ap (λ (n : ℕ). digits z f n (suc a / 2) b) split
      ∙ any_fuel (a - suc a / 2) (suc a / 2) (suc a / 2) b (omega arith)
    where
      split : a ≡ a - suc a / 2 + suc a / 2
      split = omega arith

-- One binary digit of the two operations.
pub bit_and_step : (x y : ℕ) → bit_and x y ≡ min (x % 2) (y % 2) + 2 * bit_and (x / 2) (y / 2)
bit_and_step zero y = omega (arith, bit_and-bitwise 0 y, bit_and-bitwise 0 (y / 2))
bit_and_step (suc x) y =
    let half = suc x / 2 in
    omega (
      arith,
      half_fuel (λ _. 0) min x (y / 2),
      bit_and-bitwise half (y / 2),
      bit_and-bitwise (suc x) y,
    )

pub bit_or_step : (x y : ℕ) → bit_or x y ≡ max (x % 2) (y % 2) + 2 * bit_or (x / 2) (y / 2)
bit_or_step zero y = omega (arith, bit_or-bitwise 0 y, bit_or-bitwise 0 (y / 2))
bit_or_step (suc x) y =
    let half = suc x / 2 in
    omega (
      arith,
      half_fuel (λ k. k) max x (y / 2),
      bit_or-bitwise half (y / 2),
      bit_or-bitwise (suc x) y,
    )

-- The next power, and the half of a multiple of it.
next_pow : (q k : ℕ) → q * 2 ^ suc k ≡ 2 * (q * 2 ^ k)
next_pow q k = omega (arith, ap (λ (t : ℕ). q * t) (pow-suc 2 k))

-- A low field of `k` bits beside a field above it.
pub bit_or_low_high : (k r q : ℕ) → r < 2 ^ k → bit_or r (q * 2 ^ k) ≡ r + q * 2 ^ k
bit_or_low_high zero zero q h = omega (arith, bit_or-bitwise 0 (q * 2 ^ 0))
bit_or_low_high zero (suc r) q h = absurd (omega arith)
bit_or_low_high (suc k) r q h = rw (next_pow q k) (
    omega (
      arith,
      bit_or_step r (2 * (q * 2 ^ k)),
      ap (bit_or (r / 2)) {x = 2 * (q * 2 ^ k) / 2} {y = q * 2 ^ k} (omega arith),
      bit_or_low_high k (r / 2) q (omega (arith, pow-suc 2 k)),
    ))

bit_or_comm_fuel : (n a b : ℕ) → a + b ≤ n → bit_or a b ≡ bit_or b a
bit_or_comm_fuel zero zero zero h = refl
bit_or_comm_fuel zero zero (suc b) h = absurd (omega arith)
bit_or_comm_fuel zero (suc a) b h = absurd (omega arith)
bit_or_comm_fuel (suc n) a b h =
    omega
      (arith, bit_or_step a b, bit_or_step b a, bit_or_comm_fuel n (a / 2) (b / 2) (omega arith))

pub bit_or_high_low : (k q r : ℕ) → r < 2 ^ k → bit_or (q * 2 ^ k) r ≡ q * 2 ^ k + r
bit_or_high_low k q r h =
    omega
      (arith, bit_or_comm_fuel (q * 2 ^ k + r) (q * 2 ^ k) r (omega arith), bit_or_low_high k r q h)

bit_and-zero_fuel : (fuel x : ℕ) → x ≤ fuel → bit_and x 0 ≡ 0
bit_and-zero_fuel fuel zero below = bit_and-bitwise 0 0
bit_and-zero_fuel zero (suc x) below = absurd (omega arith)
bit_and-zero_fuel (suc fuel) (suc x) below =
    let rest = bit_and-zero_fuel fuel (suc x / 2) (omega arith) in
    omega (arith, rest, bit_and_step (suc x) 0)

-- A number in two fields under a mask of the lower field, and under one of the higher field.
low_field : (w q r : ℕ) → r < 2 ^ w → bit_and (q * 2 ^ w + r) (2 ^ w - 1) ≡ r
low_field zero q r h =
    omega (arith, bit_and-zero_fuel (q * 2 ^ 0 + r) (q * 2 ^ 0 + r) (omega arith))
low_field (suc w) q r h =
    let half : (q * 2 ^ suc w + r) / 2 ≡ q * 2 ^ w + r / 2 = omega (arith, next_pow q w) in
    let ones : (2 ^ suc w - 1) / 2 ≡ 2 ^ w - 1 = omega (arith, pow-suc 2 w) in
    omega (
      arith,
      bit_and_step (q * 2 ^ suc w + r) (2 ^ suc w - 1),
      ap₂ bit_and half ones,
      low_field w q (r / 2) (omega (arith, pow-suc 2 w)),
      next_pow q w,
      pow-suc 2 w,
      one-le-pow w 2 (omega arith),
    )

high_field : (k m q r : ℕ) → r < 2 ^ k → bit_and (q * 2 ^ k + r) (m * 2 ^ k) ≡ bit_and q m * 2 ^ k
high_field zero m q r h =
    let same : q * 2 ^ 0 + r ≡ q = omega arith in
    let mask : m * 2 ^ 0 ≡ m = omega arith in omega (arith, ap₂ bit_and same mask)
high_field (suc k) m q r h =
    let half : (q * 2 ^ suc k + r) / 2 ≡ q * 2 ^ k + r / 2 = omega (arith, next_pow q k) in
    let mask : m * 2 ^ suc k / 2 ≡ m * 2 ^ k = omega (arith, next_pow m k) in
    omega (
      arith,
      bit_and_step (q * 2 ^ suc k + r) (m * 2 ^ suc k),
      ap₂ bit_and half mask,
      high_field k m q (r / 2) (omega (arith, pow-suc 2 k)),
      next_pow m k,
      next_pow (bit_and q m) k,
    )

-- A mask of `w` ones keeps the `w` lowest bits.
pub bit_and_low : (w a : ℕ) → bit_and a (2 ^ w - 1) ≡ a % 2 ^ w
bit_and_low w a =
    let split : a ≡ a / 2 ^ w * 2 ^ w + a % 2 ^ w = grind arith in
    ap (λ (x : ℕ). bit_and x (2 ^ w - 1)) split
    ∙ low_field w (a / 2 ^ w) (a % 2 ^ w) (mod-lt a (one-le-pow w 2 (omega arith)))

-- A mask with zeros below clears the `k` lowest bits.
pub bit_and_high : (k m a : ℕ) → bit_and a (m * 2 ^ k) ≡ bit_and (a / 2 ^ k) m * 2 ^ k
bit_and_high k m a =
    let split : a ≡ a / 2 ^ k * 2 ^ k + a % 2 ^ k = grind arith in
    ap (λ (x : ℕ). bit_and x (m * 2 ^ k)) split
    ∙ high_field k m (a / 2 ^ k) (a % 2 ^ k) (mod-lt a (one-le-pow k 2 (omega arith)))

-- A run of `w` ones from bit `k` on.
pub bit_and_field : (w k a : ℕ) → bit_and a ((2 ^ w - 1) * 2 ^ k) ≡ a / 2 ^ k % 2 ^ w * 2 ^ k
bit_and_field w k a =
    bit_and_high k (2 ^ w - 1) a ∙ ap (λ (x : ℕ). x * 2 ^ k) (bit_and_low w (a / 2 ^ k))

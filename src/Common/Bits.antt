-- ===== src/Common/Bits.antt =====
-- The bit operations of the control bytes as arithmetic.
use Prim.Native.Nat.{
  ℕ, zero, suc, ◌+◌, ◌-◌, ◌*◌, ◌/◌, ◌%◌, ◌≤◌, ◌<◌, min, bit_and, bit_xor, digits, differ,
  bit_and-bitwise, bit_xor-bitwise,
}
use mathlib.Core.Path.{◌≡◌, refl}
use native.Mathlib.Omega.{arith}

-- The recursion that the native operations stand for does not depend on rounds past the digits of
-- the first number.
module _ (none : ℕ → ℕ) (digit : ℕ → ℕ → ℕ) where
  rounds_enough :
      (r q x mask : ℕ) → x ≤ r → x ≤ q → digits none digit r x mask ≡ digits none digit q x mask
  rounds_enough zero zero zero mask h k = refl
  rounds_enough zero (suc q) zero mask h k = refl
  rounds_enough (suc r) zero zero mask h k = refl
  rounds_enough (suc r) (suc q) zero mask h k = refl
  rounds_enough zero q (suc x) mask h k = absurd (omega arith)
  rounds_enough (suc r) zero (suc x) mask h k = absurd (omega arith)
  rounds_enough (suc r) (suc q) (suc x) mask h k =
      omega (arith, rounds_enough r q (suc x / 2) (mask / 2) (omega arith) (omega arith))

-- One binary digit.
bit_and_digit :
    (x mask : ℕ) → bit_and x mask ≡ bit_and (x / 2) (mask / 2) * 2 + min (x % 2) (mask % 2)
bit_and_digit zero mask = omega (arith, bit_and-bitwise 0 mask, bit_and-bitwise 0 (mask / 2))
bit_and_digit (suc x) mask =
    let rest =
      rounds_enough (λ _. zero) min x (suc x / 2) (suc x / 2) (mask / 2) (omega arith)
        (omega arith) in
    omega (arith, bit_and-bitwise (suc x) mask, bit_and-bitwise (suc x / 2) (mask / 2), rest)

bit_xor_zero : (mask : ℕ) → bit_xor 0 mask ≡ mask
bit_xor_zero mask = bit_xor-bitwise 0 mask

bit_xor_digit :
    (x mask : ℕ) → bit_xor x mask ≡ bit_xor (x / 2) (mask / 2) * 2 + differ (x % 2) (mask % 2)
bit_xor_digit zero mask = omega (arith, bit_xor_zero mask, bit_xor_zero (mask / 2))
bit_xor_digit (suc x) mask =
    let rest =
      rounds_enough (λ b. b) differ x (suc x / 2) (suc x / 2) (mask / 2) (omega arith)
        (omega arith) in
    omega (arith, bit_xor-bitwise (suc x) mask, bit_xor-bitwise (suc x / 2) (mask / 2), rest)

differ_zero : (a : ℕ) → a < 2 → differ a 0 ≡ a
differ_zero zero h = refl
differ_zero (suc zero) h = refl
differ_zero (suc (suc a)) h = absurd (omega arith)

differ_one : (a : ℕ) → a < 2 → differ a 1 ≡ 1 - a
differ_one zero h = refl
differ_one (suc zero) h = refl
differ_one (suc (suc a)) h = absurd (omega arith)

bit_xor_nothing : (rounds x : ℕ) → x ≤ rounds → bit_xor x 0 ≡ x
bit_xor_nothing rounds zero h = refl
bit_xor_nothing zero (suc x) h = absurd (omega arith)
bit_xor_nothing (suc rounds) (suc x) h = omega (
  arith,
  bit_xor_digit (suc x) 0,
  bit_xor_nothing rounds (suc x / 2) (omega arith),
  differ_zero (suc x % 2) (omega arith),
)

-- Flipping the first, the second and the third digit.
pub bit_xor-one : (x : ℕ) → bit_xor x 1 ≡ x / 2 * 2 + (1 - x % 2)
bit_xor-one x = omega (
  arith,
  bit_xor_digit x 1,
  bit_xor_nothing (x / 2) (x / 2) (omega arith),
  differ_one (x % 2) (omega arith),
)

pub bit_xor-two : (x : ℕ) → bit_xor x 2 ≡ x / 4 * 4 + (1 - x / 2 % 2) * 2 + x % 2
bit_xor-two x =
    omega (arith, bit_xor_digit x 2, bit_xor-one (x / 2), differ_zero (x % 2) (omega arith))

pub bit_xor-four : (x : ℕ) → bit_xor x 4 ≡ x / 8 * 8 + (1 - x / 4 % 2) * 4 + x % 4
bit_xor-four x =
    omega (arith, bit_xor_digit x 4, bit_xor-two (x / 2), differ_zero (x % 2) (omega arith))

bit_and_nothing : (rounds x : ℕ) → x ≤ rounds → bit_and x 0 ≡ 0
bit_and_nothing rounds zero h = refl
bit_and_nothing zero (suc x) h = absurd (omega arith)
bit_and_nothing (suc rounds) (suc x) h =
    omega (arith, bit_and_digit (suc x) 0, bit_and_nothing rounds (suc x / 2) (omega arith))

pub bit_and-one : (x : ℕ) → bit_and x 1 ≡ x % 2
bit_and-one x = omega (arith, bit_and_digit x 1, bit_and_nothing (x / 2) (x / 2) (omega arith))

pub bit_and-two : (x : ℕ) → bit_and x 2 ≡ x / 2 % 2 * 2
bit_and-two x = omega (arith, bit_and_digit x 2, bit_and-one (x / 2))

pub bit_and-four : (x : ℕ) → bit_and x 4 ≡ x / 4 % 2 * 4
bit_and-four x = omega (arith, bit_and_digit x 4, bit_and_digit (x / 2) 2, bit_and-one (x / 2 / 2))

-- A mask of `2 * k + 1` keeps the last digit.
bit_and-ones : (x : ℕ) → bit_and x 31 ≡ x % 32
bit_and-ones x = omega (
  arith,
  bit_and_digit x 31,
  bit_and_digit (x / 2) 15,
  bit_and_digit (x / 2 / 2) 7,
  bit_and_digit (x / 2 / 2 / 2) 3,
  bit_and-one (x / 2 / 2 / 2 / 2),
)

bit_and-62 : (x : ℕ) → bit_and x 62 ≡ x / 2 % 32 * 2
bit_and-62 x = omega (arith, bit_and_digit x 62, bit_and-ones (x / 2))

-- 0xfb is 11111011.
pub bit_and-fb : (x : ℕ) → bit_and x 0xfb ≡ x / 8 % 32 * 8 + x % 4
bit_and-fb x =
    omega (arith, bit_and_digit x 0xfb, bit_and_digit (x / 2) 0x7d, bit_and-62 (x / 2 / 2))

-- The masks of five, six and seven ones.
bit_and-63 : (x : ℕ) → bit_and x 63 ≡ x % 64
bit_and-63 x = omega (arith, bit_and_digit x 63, bit_and-ones (x / 2))

bit_and-127 : (x : ℕ) → bit_and x 127 ≡ x % 128
bit_and-127 x = omega (arith, bit_and_digit x 127, bit_and-63 (x / 2))

-- 0xfe is 11111110.
pub bit_and-fe : (x : ℕ) → bit_and x 0xfe ≡ x / 2 % 128 * 2
bit_and-fe x = omega (arith, bit_and_digit x 0xfe, bit_and-127 (x / 2))

-- 0xfd is 11111101.
pub bit_and-fd : (x : ℕ) → bit_and x 0xfd ≡ x / 4 % 64 * 4 + x % 2
bit_and-fd x =
    omega (arith, bit_and_digit x 0xfd, bit_and_digit (x / 2) 0x7e, bit_and-63 (x / 2 / 2))

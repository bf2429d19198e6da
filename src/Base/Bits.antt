-- ===== src/Base/Bits.antt =====
-- Laws of `|` and `&` on unsigned words at variables, from the digit recursion of the native
-- operations: one step takes off the lowest binary digit.
use Prim.Native.Nat.{
  ℕ, zero, suc, ◌+◌, ◌-◌, ◌*◌, ◌/◌, ◌%◌, ◌≤◌, ◌<◌, min, max, bit_and, bit_or, digits,
  bit_and-bitwise, bit_or-bitwise,
}
use mathlib.Core.Path.{◌≡◌, refl}
use native.Mathlib.Omega.{arith}

module _ (z : ℕ → ℕ) (f : ℕ → ℕ → ℕ) where
  -- Any count of digits that covers the first number gives the same result.
  digits_stable :
      (a b n m : ℕ) (k : ℕ) → a ≤ k → a ≤ n → a ≤ m → digits z f n a b ≡ digits z f m a b
  digits_stable zero b zero zero k h p q = refl
  digits_stable zero b zero (suc m) k h p q = refl
  digits_stable zero b (suc n) zero k h p q = refl
  digits_stable zero b (suc n) (suc m) k h p q = refl
  digits_stable (suc a) b zero m k h p q = absurd (omega arith)
  digits_stable (suc a) b (suc n) zero k h p q = absurd (omega arith)
  digits_stable (suc a) b (suc n) (suc m) zero h p q = absurd (omega arith)
  digits_stable (suc a) b (suc n) (suc m) (suc k) h p q =
      omega
        (arith, digits_stable (suc a / 2) (b / 2) n m k (omega arith) (omega arith) (omega arith))

pub bit_and_step : (a b : ℕ) → bit_and a b ≡ min (a % 2) (b % 2) + 2 * bit_and (a / 2) (b / 2)
bit_and_step zero b = omega (arith, bit_and-bitwise 0 b, bit_and-bitwise 0 (b / 2))
bit_and_step (suc a) b = omega (
  arith,
  bit_and-bitwise (suc a) b,
  bit_and-bitwise (suc a / 2) (b / 2),
  digits_stable (λ _. 0) min (suc a / 2) (b / 2) a (suc a / 2) a (omega arith) (omega arith)
      (omega arith),
)

pub bit_or_step : (a b : ℕ) → bit_or a b ≡ max (a % 2) (b % 2) + 2 * bit_or (a / 2) (b / 2)
bit_or_step zero b = omega (arith, bit_or-bitwise 0 b, bit_or-bitwise 0 (b / 2))
bit_or_step (suc a) b = omega (
  arith,
  bit_or-bitwise (suc a) b,
  bit_or-bitwise (suc a / 2) (b / 2),
  digits_stable (λ c. c) max (suc a / 2) (b / 2) a (suc a / 2) a (omega arith) (omega arith)
      (omega arith),
)

bit_and-zero_below : (k a : ℕ) → a ≤ k → bit_and a 0 ≡ 0
bit_and-zero_below k zero h = bit_and-bitwise 0 0
bit_and-zero_below zero (suc a) h = absurd (omega arith)
bit_and-zero_below (suc k) (suc a) h =
    omega (arith, bit_and_step (suc a) 0, bit_and-zero_below k (suc a / 2) (omega arith))

pub bit_and-zero : (a : ℕ) → bit_and a 0 ≡ 0
bit_and-zero a = bit_and-zero_below a a (omega arith)

bit_or-zero_below : (k a : ℕ) → a ≤ k → bit_or a 0 ≡ a
bit_or-zero_below k zero h = bit_or-bitwise 0 0
bit_or-zero_below zero (suc a) h = absurd (omega arith)
bit_or-zero_below (suc k) (suc a) h =
    omega (arith, bit_or_step (suc a) 0, bit_or-zero_below k (suc a / 2) (omega arith))

pub bit_or-zero : (a : ℕ) → bit_or a 0 ≡ a
bit_or-zero a = bit_or-zero_below a a (omega arith)

-- One bit, read: `x & (1 << k)` for k below 4.
pub bit_and_1 : (x : ℕ) → bit_and x 1 ≡ x % 2
bit_and_1 x = omega (arith, bit_and_step x 1, bit_and-zero (x / 2))

pub bit_and_2 : (x : ℕ) → bit_and x 2 ≡ x / 2 % 2 * 2
bit_and_2 x = omega (arith, bit_and_step x 2, bit_and_1 (x / 2))

pub bit_and_4 : (x : ℕ) → bit_and x 4 ≡ x / 4 % 2 * 4
bit_and_4 x = omega (arith, bit_and_step x 4, bit_and_2 (x / 2))

pub bit_and_8 : (x : ℕ) → bit_and x 8 ≡ x / 8 % 2 * 8
bit_and_8 x = omega (arith, bit_and_step x 8, bit_and_4 (x / 2))

-- One bit, set: `x | (1 << k)` adds the bit where it was 0.
pub bit_or_1 : (x : ℕ) → bit_or x 1 ≡ x + (1 - x % 2)
bit_or_1 x = omega (arith, bit_or_step x 1, bit_or-zero (x / 2))

pub bit_or_2 : (x : ℕ) → bit_or x 2 ≡ x + (1 - x / 2 % 2) * 2
bit_or_2 x = omega (arith, bit_or_step x 2, bit_or_1 (x / 2))

pub bit_or_4 : (x : ℕ) → bit_or x 4 ≡ x + (1 - x / 4 % 2) * 4
bit_or_4 x = omega (arith, bit_or_step x 4, bit_or_2 (x / 2))

pub bit_or_8 : (x : ℕ) → bit_or x 8 ≡ x + (1 - x / 8 % 2) * 8
bit_or_8 x = omega (arith, bit_or_step x 8, bit_or_4 (x / 2))

bit_and_3bits : (x : ℕ) → bit_and x 7 ≡ x % 8
bit_and_3bits x = omega (arith, bit_and_step x 7, bit_and_step (x / 2) 3, bit_and_1 (x / 2 / 2))

bit_and_6bits : (x : ℕ) → bit_and x 63 ≡ x % 64
bit_and_6bits x = omega (
  arith,
  bit_and_step x 63,
  bit_and_step (x / 2) 31,
  bit_and_step (x / 2 / 2) 15,
  bit_and_3bits (x / 2 / 2 / 2),
)

bit_and_9bits : (x : ℕ) → bit_and x 511 ≡ x % 512
bit_and_9bits x = omega (
  arith,
  bit_and_step x 511,
  bit_and_step (x / 2) 255,
  bit_and_step (x / 2 / 2) 127,
  bit_and_6bits (x / 2 / 2 / 2),
)

bit_and_12bits : (x : ℕ) → bit_and x 4095 ≡ x % 4096
bit_and_12bits x = omega (
  arith,
  bit_and_step x 4095,
  bit_and_step (x / 2) 2047,
  bit_and_step (x / 2 / 2) 1023,
  bit_and_9bits (x / 2 / 2 / 2),
)

-- The mask of the reserved flag bits leaves what stands above the lowest four.
pub bit_and_0xfff0 : (x : ℕ) → x < 0x10000 → bit_and x 0xfff0 ≡ x / 16 * 16
bit_and_0xfff0 x h = omega (
  arith,
  bit_and_step x 0xfff0,
  bit_and_step (x / 2) 0x7ff8,
  bit_and_step (x / 2 / 2) 0x3ffc,
  bit_and_step (x / 2 / 2 / 2) 0x1ffe,
  bit_and_12bits (x / 2 / 2 / 2 / 2),
)

-- ===== src/BigInteger/Digits.antt =====
-- `|` of two words that have no bit in common is their sum.
use Prim.Native.Nat.{bit_or}
use qrack.Bits.Step.{bit_or_step, zero-bit_or}
use qrack.Bits.Power.{power_double}
use qrack.Prelude.{ℕ, zero, suc, ◌+◌, ◌*◌, ◌/◌, ◌^◌, ◌≤◌, ◌<◌, ◌≡◌, refl, ap, arith}
use native.Mathlib.Omega.{pow_step}

bit_or-zero_fuel : (n a : ℕ) → a ≤ n → bit_or a 0 ≡ a
bit_or-zero_fuel n zero h = refl
bit_or-zero_fuel zero (suc a) h = absurd (omega arith)
bit_or-zero_fuel (suc n) (suc a) h =
    omega (arith, bit_or_step (suc a) 0, bit_or-zero_fuel n (suc a / 2) (omega arith))

half_power : (k b : ℕ) → 2 ^ suc k * b / 2 ≡ 2 ^ k * b
half_power k b = omega (arith, power_double k b)

-- Low bits and a multiple of a power above them.
pub bit_or-add : (k a b : ℕ) → a < 2 ^ k → bit_or a (2 ^ k * b) ≡ a + 2 ^ k * b
bit_or-add zero a b h = grind (arith, zero-bit_or (1 * b))
bit_or-add (suc k) a b h = omega (
  arith,
  pow_step 2 k,
  bit_or_step a (2 ^ suc k * b),
  power_double k b,
  ap (λ y. bit_or (a / 2) y) (half_power k b),
  bit_or-add k (a / 2) b (omega (arith, pow_step 2 k)),
)

-- The other way around.
pub bit_or-add_right : (k a b : ℕ) → a < 2 ^ k → bit_or (2 ^ k * b) a ≡ 2 ^ k * b + a
bit_or-add_right zero a b h = grind (arith, bit_or-zero_fuel (1 * b) (1 * b) (omega arith))
bit_or-add_right (suc k) a b h = omega (
  arith,
  pow_step 2 k,
  bit_or_step (2 ^ suc k * b) a,
  power_double k b,
  ap (λ y. bit_or y (a / 2)) (half_power k b),
  bit_or-add_right k (a / 2) b (omega (arith, pow_step 2 k)),
)

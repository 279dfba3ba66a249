-- ===== src/Bits/Power.antt =====
-- Powers of two.
use native.Mathlib.Nat.{
  div-eq_of_lt-le, mul_assoc, mul_left_comm, add-mul-mod_self_left, mod-eq_of_lt, mod-lt,
  div-add-mod,
}
use native.Mathlib.Omega.{pow_step}
use qrack.Prelude.{ℕ, zero, suc, ◌+◌, ◌*◌, ◌/◌, ◌%◌, ◌^◌, ◌<◌, ◌≡◌, ap, ◌∙◌, arith}

pub div_unique : (p d r : ℕ) {x : ℕ} → x ≡ p * d + r → r < p → x / p ≡ d
div_unique p d r e h = div-eq_of_lt-le {k = d} p (grind (arith, e)) (grind (arith, e, h))

pub power_congr : (m n : ℕ) → m ≡ n → 2 ^ m ≡ 2 ^ n
power_congr m n e = ap (λ k. 2 ^ k) e

pub power_add : (m n : ℕ) → 2 ^ m * 2 ^ n ≡ 2 ^ (m + n)
power_add zero n = grind arith
power_add (suc m) n = grind (
  arith,
  pow_step 2 m,
  pow_step 2 (m + n),
  power_add m n,
  power_congr (suc m + n) (suc (m + n)) (omega arith),
)

pub power_pos : (k : ℕ) → 0 < 2 ^ k
power_pos zero = omega arith
power_pos (suc k) = omega (arith, pow_step 2 k, power_pos k)

pub power_double : (k b : ℕ) → 2 ^ suc k * b ≡ 2 * (2 ^ k * b)
power_double k b = ap (λ p. p * b) (pow_step 2 k) ∙ mul_assoc 2 (2 ^ k) b

pub mod_unique : (q : ℕ) {x r m : ℕ} → x ≡ r + m * q → r < m → x % m ≡ r
mod_unique q {x} {r} {m} e h = ap (λ y. y % m) e ∙ add-mul-mod_self_left r m q ∙ mod-eq_of_lt h

mul_power : (a s : ℕ) → a * 2 ^ suc s ≡ 2 * (a * 2 ^ s)
mul_power a s = ap (λ p. a * p) (pow_step 2 s) ∙ mul_left_comm a 2 (2 ^ s)

-- The lowest bit of a product with a power, and the rest.
pub shift_low : (a s : ℕ) → (a * 2 ^ suc s) % 2 ≡ 0
shift_low a s = omega (arith, mul_power a s)

pub shift_rest : (a s : ℕ) → (a * 2 ^ suc s) / 2 ≡ a * 2 ^ s
shift_rest a s = omega (arith, mul_power a s)

-- The lowest bit of a remainder by a power, and the rest.
mod_power : (a n : ℕ) → a % 2 ^ suc n ≡ 2 * (a / 2 % 2 ^ n) + a % 2
mod_power a n =
    mod_unique (a / 2 / 2 ^ n)
      (omega (arith, power_double n (a / 2 / 2 ^ n), div-add-mod (a / 2) (2 ^ n), div-add-mod a 2))
      (omega (arith, pow_step 2 n, mod-lt (a / 2) (power_pos n)))

pub mod_low : (a n : ℕ) → a % 2 ^ suc n % 2 ≡ a % 2
mod_low a n = omega (arith, mod_power a n)

pub mod_rest : (a n : ℕ) → a % 2 ^ suc n / 2 ≡ a / 2 % 2 ^ n
mod_rest a n = omega (arith, mod_power a n)

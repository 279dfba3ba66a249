-- ===== src/Integers/Laws.antt =====
-- What the integer functions compute, and that their fuel is enough.
use native.Mathlib.Omega.{pow_step}
use native.Mathlib.Nat.{
  pow-zero, pow-suc, add-mul-mod_self_left, div-add-mod, mul_comm, mul_assoc, mod-eq_of_lt, add-mul,
}
use qrack.Prelude.{
  ℕ, zero, suc, ◌+◌, ◌*◌, ◌/◌, ◌%◌, ◌^◌, ◌<◌, ◌≤◌, ◌≡◌, ◌==◌, sym, ap, ◌∙◌, arith, if◌then◌else◌,
  if_split,
}
use qrack.BigInteger.Words.{word_power}
use qrack.Bits.Power.{power_add, power_congr}
use qrack.Integers.{int_pow, log2_from, log2_ocl}

log2_from-value :
    (fuel p pow : ℕ)
    → p < 2 ^ fuel
    → (j : ℕ) × (log2_from fuel p pow ≡ pow + j)
      × (p < 2 ^ j)
      × (2 ^ j ≤ p + p + (if p == 0 then 1 else 0))
unfolding log2_from
log2_from-value zero p pow h = (0, omega arith, h, ground arith)
log2_from-value (suc fuel) p pow h =
    let (j, e, b, a) = log2_from-value fuel (p / 2) (pow + 1) (omega (arith, pow_step 2 fuel)) in
    if_split
      (λ (r : ℕ).
        (j : ℕ) × (r ≡ pow + j) × (p < 2 ^ j) × (2 ^ j ≤ p + p + (if p == 0 then 1 else 0)))
      (p == 0) _ _ (λ z. (0, omega arith, ground (arith, z), ground (arith, z)))
      (λ z.
        (j + 1, omega (arith, e), omega (arith, power_add j 1), ground (arith, power_add j 1, z)))

-- For a number that is not 0 and fits in a word, `log2Ocl` is the highest exponent whose power of two
-- is not above it: its loop ends within the fuel of 64 rounds.
pub log2_ocl-floor :
    (n : ℕ) → 0 < n → n < word_power → (2 ^ log2_ocl n ≤ n) × (n < 2 ^ (log2_ocl n + 1))
unfolding log2_ocl
log2_ocl-floor n pos h =
    let (j, e, b, a) = log2_from-value 64 (n / 2) 0 (omega arith) in
    let same : 2 ^ log2_ocl n ≡ 2 ^ j = power_congr (log2_ocl n) j (omega (arith, e)) in
    (ground (arith, a, same), omega (arith, b, same, power_add (log2_ocl n) 1))

-- A factor may be reduced before a product is.
mod_factor : (x y m : ℕ) → x % m * y % m ≡ x * y % m
mod_factor x y m =
    sym (add-mul-mod_self_left (x % m * y) m (x / m * y))
    ∙ ap (λ z. z % m)
        (grind (
          arith,
          ap (λ z. z * y) (div-add-mod x m),
          mul_assoc m (x / m) y,
          add-mul (m * (x / m)) (x % m) y,
        ))

mod_factors : (x y m : ℕ) → x % m * (y % m) % m ≡ x * y % m
mod_factors x y m =
    mod_factor x (y % m) m
    ∙ ap (λ z. z % m) (mul_comm x (y % m))
    ∙ mod_factor y x m
    ∙ ap (λ z. z % m) (mul_comm y x)

power_index : (c m n : ℕ) → m ≡ n → c ^ m ≡ c ^ n
power_index c m n e = ap (λ k. c ^ k) e

power_sum : (c m n : ℕ) → c ^ m * c ^ n ≡ c ^ (m + n)
power_sum c zero n = grind (arith, pow-zero c, power_index c (0 + n) n)
power_sum c (suc m) n =
    ap (λ k. k * c ^ n) (pow_step c m)
    ∙ mul_assoc c (c ^ m) (c ^ n)
    ∙ ap (λ k. c * k) (power_sum c m n)
    ∙ sym (pow_step c (m + n))
    ∙ power_index c (suc (m + n)) (suc m + n) (omega arith)

-- `intPowOcl` is the power modulo 2^64 of a word: the depth of its calls is within the fuel when the
-- exponent has at most that many bits.
pub int_pow-power :
    (fuel base power : ℕ)
    → base < word_power
    → power < 2 ^ fuel
    → int_pow fuel base power ≡ base ^ power % word_power
unfolding int_pow
int_pow-power zero base power b h =
    ap (λ k. k % word_power) (sym (pow-zero base)) ∙ ap (λ k. base ^ k % word_power) (omega arith)
int_pow-power (suc fuel) base power b h =
    let half = int_pow-power fuel base (power / 2) b (omega (arith, pow_step 2 fuel)) in
    let tmp = int_pow fuel base (power / 2) in
    let square = tmp * tmp % word_power in
    let squared : square ≡ base ^ (power / 2 + power / 2) % word_power =
      ap (λ x. x * x % word_power) half
      ∙ mod_factors (base ^ (power / 2)) (base ^ (power / 2)) word_power
      ∙ ap (λ x. x % word_power) (power_sum base (power / 2) (power / 2)) in
    if_split (λ r. r ≡ base ^ power % word_power) (power == 0) _ _
      (λ e.
        ap (λ k. k % word_power)
          (sym (pow-zero base) ∙ power_index base 0 power (ground (arith, e))))
      (λ e.
        if_split (λ r. r ≡ base ^ power % word_power) (power == 1) _ _
          (λ e1. sym (
            ap (λ k. k % word_power)
              (power_index base power 1 (ground (arith, e1))
                ∙ pow_step base 0
                ∙ grind (arith, pow-zero base))
            ∙ mod-eq_of_lt b))
          (λ e1.
            if_split (λ r. r ≡ base ^ power % word_power) (power % 2 == 1) _ _
              (λ o.
                ap (λ x. x * base % word_power) squared
                ∙ mod_factor (base ^ (power / 2 + power / 2)) base word_power
                ∙ ap (λ x. x % word_power)
                    (sym (pow-suc base (power / 2 + power / 2))
                      ∙ ap (λ k. base ^ k) (ground (arith, o))))
              (λ o. squared ∙ ap (λ k. base ^ k % word_power) (ground (arith, o)))))

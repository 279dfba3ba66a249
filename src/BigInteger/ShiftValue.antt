-- ===== src/BigInteger/ShiftValue.antt =====
-- A left shift multiplies and a right shift divides by a power of two.
use Prim.Native.Nat.{bit_or}
use native.Mathlib.Nat.{
  div-add-mod, mod-lt, mul_assoc, zero-div, zero-mod, add-mul-mod_self_left, mod-one,
  mul-le-mul_left, mul_comm,
}
use qrack.Prelude.{ℕ, ◌+◌, ◌*◌, ◌-◌, ◌/◌, ◌%◌, ◌^◌, ◌<◌, ◌≤◌, ◌≡◌, sym, ap, ap₂, ◌∙◌, ◌∷◌, arith}
use qrack.Bits.Power.{div_unique, power_congr, power_add, power_pos}
use qrack.BigInteger.Words.{BigInteger, word_power}
use qrack.Bits.Power.{mod_unique}
use qrack.BigInteger.Value.{value, modulus, IsWords, done, step, mod_words, modulus-pos}
use qrack.BigInteger.Digits.{bit_or-add, bit_or-add_right}
use qrack.BigInteger.Shift.{lshift_bits, rshift_bits}

power_split : (k : ℕ) → k ≤ 64 → 2 ^ k * 2 ^ (64 - k) ≡ word_power
power_split k h = power_add k (64 - k) ∙ power_congr (k + (64 - k)) 64 (omega arith)

module _ (p q : ℕ) (e : p * q ≡ word_power) where
  product : (a : ℕ) → a * p ≡ p * (a % q) + word_power * (a / q)
  product a = grind (arith, div-add-mod a q, e, mul_assoc p q (a / q))

  low_bound : (a : ℕ) → 0 < q → p * (a % q) + p ≤ word_power
  low_bound a h = grind (arith, mod-lt a h, e)

  high_bound : (a : ℕ) → a < word_power → a / q < p
  high_bound a h = grind (arith, div-add-mod a q, e, mul-le-mul_left {m = p} {n = a / q} q)

  regroup :
      (a c v : ℕ) → c + p * (a % q) + word_power * (a / q + p * v) ≡ c + p * (a + word_power * v)
  regroup a c v = grind (arith, product a)

  low_word : (a v : ℕ) → (a + word_power * v) % p ≡ a % p
  low_word a v =
      ap (λ w. (a + w * v) % p) (sym e)
      ∙ ap (λ w. (a + w) % p) (mul_assoc p q v)
      ∙ add-mul-mod_self_left a p (q * v)

  high_words :
      (a v : ℕ) → 0 < p → q * (v % p) + a / p + word_power * (v / p) ≡ (a + word_power * v) / p
  high_words a v h = sym (
      div_unique p (q * (v % p) + a / p + word_power * (v / p)) (a % p)
        (grind (arith, e, div-add-mod a p, div-add-mod v p, mul_assoc p q (v % p))) (mod-lt a h))

  shifted_word : (a : ℕ) → 0 < p → 0 < q → a * p % word_power ≡ p * (a % q)
  shifted_word a g h = mod_unique (a / q) (product a) (omega (arith, low_bound a h))

-- The loop of a left shift by `k` bits, with a carry below 2^k, multiplies by 2^k and adds the carry,
-- modulo 2 to the number of bits, for `k` up to 64.
pub value-lshift_bits :
    (k : ℕ)
    → k ≤ 64
    → {a : BigInteger} → IsWords a
    → (carry : ℕ) → carry < 2 ^ k
    → value (lshift_bits k carry a) ≡ (carry + 2 ^ k * value a) % modulus a
unfolding lshift_bits
value-lshift_bits k bound done carry h = omega (arith, mod-one (carry + 2 ^ k * 0))
value-lshift_bits k bound (step a left w ws) carry h =
    let p = 2 ^ k in
    let q = 2 ^ (64 - k) in
    let e = power_split k bound in
    let qpos = power_pos (64 - k) in
    let hi = a / q in
    let lo = a % q in
    let word =
      ap (bit_or carry) (shifted_word p q e a (power_pos k) qpos) ∙ bit_or-add k carry lo h in
    let rest = value-lshift_bits k bound ws hi (high_bound p q e a w) in
    ap₂ (λ x y. x + word_power * y) word rest
    ∙ sym (
        mod_words (carry + p * lo) (hi + p * value left) (modulus left)
          (omega (arith, low_bound p q e a qpos)) (modulus-pos left))
    ∙ ap (λ x. x % modulus (a ∷ left)) (regroup p q e a carry (value left))

-- The loop of a right shift by `k` bits divides by 2^k, and its carry is what remains, at the top of
-- a word, for `k` from 1 to 64.
pub value-rshift_bits :
    (k : ℕ)
    → 0 < k
    → k ≤ 64
    → {a : BigInteger} → IsWords a
    → (value (rshift_bits k a).1 ≡ value a / 2 ^ k)
      × ((rshift_bits k a).0 ≡ 2 ^ (64 - k) * (value a % 2 ^ k))
unfolding rshift_bits
value-rshift_bits k pos bound done =
    (sym (zero-div (2 ^ k)), omega (arith, ap (λ x. 2 ^ (64 - k) * x) (zero-mod (2 ^ k))))
value-rshift_bits k pos bound (step a left w ws) =
    let p = 2 ^ k in
    let q = 2 ^ (64 - k) in
    let e = power_split k bound in
    let e' = mul_comm q p ∙ e in
    let rest = value-rshift_bits k pos bound ws in
    let word =
      ap (λ c. bit_or c (a / p)) rest.1
      ∙ bit_or-add_right (64 - k) (a / p) (value left % p) (high_bound q p e' a w) in
    (
      ap₂ (λ x y. x + word_power * y) word rest.0 ∙ high_words p q e a (value left) (power_pos k),
      shifted_word q p e' a (power_pos (64 - k)) (power_pos k)
          ∙ ap (λ x. q * x) (sym (low_word p q e a (value left))),
    )

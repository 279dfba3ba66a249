-- ===== src/BigInteger/MultiplyValue.antt =====
-- Products and quotients by a half word.
use Prim.Native.Nat.{bit_or}
use native.Mathlib.Nat.{
  div-add-mod, mod-lt, mod-eq_of_lt, mod-one, mul-le-mul, div-lt_iff_lt-mul, add_comm,
}
use qrack.Prelude.{ℕ, ◌+◌, ◌*◌, ◌/◌, ◌%◌, ◌<◌, ◌≡◌, sym, ap, ap₂, ◌∙◌, ◌∷◌, arith}
use qrack.BigInteger.Words.{BigInteger, word_power, half_word_power}
use qrack.Bits.Power.{mod_unique}
use qrack.BigInteger.Value.{value, modulus, IsWords, done, step, mod_words, modulus-pos}
use qrack.BigInteger.Digits.{bit_or-add, bit_or-add_right}
use qrack.Bits.Power.{div_unique}
use qrack.BigInteger.Multiply.{times_half, times_half_from, divide_small, bi_div_mod_small}

-- The bits of a half word below those of another are their sum.
half_or : (a b : ℕ) → a < half_word_power → bit_or a (half_word_power * b) ≡ a + half_word_power * b
half_or a b h = bit_or-add 32 a b h

half_or_right :
    (a b : ℕ)
    → a < half_word_power
    → b < half_word_power
    → bit_or (half_word_power * b % word_power) a ≡ half_word_power * b + a
half_or_right a b h k =
    ap (λ x. bit_or x a) (mod-eq_of_lt {n = half_word_power * b} {m = word_power} (omega arith))
    ∙ bit_or-add_right 32 a b h

module _ (v a c : ℕ) (h : v < half_word_power) (w : a < word_power) where
  -- The two rounds of `times_half_from` for a word.
  abbrev low_round : ℕ
  low_round = (v * (a % half_word_power) + c) % word_power

  abbrev high_round : ℕ
  high_round = (v * (a / half_word_power) + low_round / half_word_power) % word_power

  -- A product of two half words and a carry fits a word.
  product_bound : (b d : ℕ) → b < half_word_power → d < half_word_power → v * b + d < word_power
  product_bound b d k l =
      let bound =
        mul-le-mul {n₁ = v} {m₁ = b} {n₂ = 4294967295} {m₂ = 4294967295} (omega arith)
          (omega arith) in
      omega (arith, bound)

  low_exact : c < half_word_power → low_round ≡ v * (a % half_word_power) + c
  low_exact l = mod-eq_of_lt (product_bound (a % half_word_power) c (omega arith) l)

  high_exact : high_round ≡ v * (a / half_word_power) + low_round / half_word_power
  high_exact = mod-eq_of_lt (
      product_bound (a / half_word_power) (low_round / half_word_power) (omega arith) (omega arith))

  halves : v * a ≡ half_word_power * (v * (a / half_word_power)) + v * (a % half_word_power)
  halves = ap (λ x. v * x) (sym (div-add-mod a half_word_power)) ∙ grind arith

  times_word :
      c < half_word_power
      → low_round % half_word_power
          + half_word_power * (high_round % half_word_power)
          + word_power * (high_round / half_word_power)
        ≡ c + v * a
  times_word l = omega (arith, low_exact l, high_exact, halves)

spread :
    (v x y q : ℕ)
    → v * (half_word_power * x + y + word_power * q)
      ≡ half_word_power * (v * x) + v * y + word_power * (v * q)
spread v x y q = grind arith

-- The two rounds of `divide_small` for a word `a` under the carry `c`.
module _ (v a c : ℕ) (pos : 0 < v) (h : v < half_word_power) (w : a < word_power) (k : c < v) where
  abbrev odd : ℕ
  odd = bit_or (half_word_power * c % word_power) (a / half_word_power)

  abbrev even : ℕ
  even = bit_or (half_word_power * (odd % v) % word_power) (a % half_word_power)

  abbrev quotient_word : ℕ
  quotient_word = bit_or (half_word_power * (odd / v) % word_power) (even / v)

  odd_exact : odd ≡ half_word_power * c + a / half_word_power
  odd_exact = half_or_right (a / half_word_power) c (omega arith) (omega arith)

  even_exact : even ≡ half_word_power * (odd % v) + a % half_word_power
  even_exact =
      half_or_right (a % half_word_power) (odd % v) (omega arith) (omega (arith, mod-lt odd pos))

  quotient_exact : quotient_word ≡ half_word_power * (odd / v) + even / v
  quotient_exact =
      half_or_right (even / v) (odd / v)
        ((div-lt_iff_lt-mul {k = v} pos).1 (omega (arith, even_exact, mod-lt odd pos)))
        ((div-lt_iff_lt-mul {k = v} pos).1 (omega (arith, odd_exact)))

  divide_word :
      (q : ℕ) → a + word_power * (v * q + c) ≡ v * (quotient_word + word_power * q) + even % v
  divide_word q = omega (
    arith,
    odd_exact,
    even_exact,
    ap (λ x. v * (x + word_power * q)) quotient_exact,
    spread v (odd / v) (even / v) q,
    div-add-mod odd v,
    div-add-mod even v,
  )

value-times_half_from :
    (v : ℕ)
    → v < half_word_power
    → {a : BigInteger} → IsWords a
    → (carry : ℕ) → carry < half_word_power
    → value (times_half_from carry a v) ≡ (carry + v * value a) % modulus a
unfolding times_half_from
value-times_half_from v h done carry k = omega (arith, mod-one (carry + v * 0))
value-times_half_from v h (step a left w ws) carry k =
    let low = low_round v a carry h w in
    let high = high_round v a carry h w in
    let word = half_or (low % half_word_power) (high % half_word_power) (omega arith) in
    let rest = value-times_half_from v h ws (high / half_word_power) (omega arith) in
    ap₂ (λ x y. x + word_power * y) word rest
    ∙ sym (
        mod_words (low % half_word_power + half_word_power * (high % half_word_power))
          (high / half_word_power + v * value left) (modulus left) (omega arith) (modulus-pos left))
    ∙ ap (λ x. x % modulus (a ∷ left)) (grind (arith, times_word v a carry h w k))

divide_small-value :
    (v : ℕ)
    → 0 < v
    → v < half_word_power
    → {a : BigInteger} → IsWords a
    → ((divide_small a v).0 < v) × (value a ≡ v * value (divide_small a v).1 + (divide_small a v).0)
unfolding divide_small
divide_small-value v pos h done = (pos, omega arith)
divide_small-value v pos h (step a left w ws) =
    let rest = divide_small-value v pos h ws in
    (
      mod-lt (even v a (divide_small left v).0 pos h w rest.0) pos,
      ap (λ l. a + word_power * l) rest.1
          ∙ divide_word v a (divide_small left v).0 pos h w rest.0 (value (divide_small left v).1),
    )

-- `a * v` for a half word `v` is the product modulo 2 to the number of bits, for words below 2^64.
pub value-times_half :
    {a : BigInteger}
    → IsWords a
    → (v : ℕ) → v < half_word_power
    → value (times_half a v) ≡ v * value a % modulus a
unfolding times_half
value-times_half {a = a} w v h =
    value-times_half_from v h w 0 (omega arith) ∙ ap (λ x. x % modulus a) (omega arith)

-- `bi_div_mod_small` by a half word `v` that is not 0 writes the quotient and the remainder of the
-- division by `v`, for words below 2^64.
pub bi_div_mod_small-value :
    {a : BigInteger}
    → IsWords a
    → (v : ℕ) → 0 < v
    → v < half_word_power
    → (value (bi_div_mod_small a v).0 ≡ value a / v) × ((bi_div_mod_small a v).1 ≡ value a % v)
unfolding bi_div_mod_small
bi_div_mod_small-value {a = a} w v pos h =
    let both = divide_small-value v pos h w in
    let q = value (divide_small a v).1 in
    let r = (divide_small a v).0 in
    (sym (div_unique v q r both.1 both.0), sym (mod_unique q (both.1 ∙ add_comm (v * q) r) both.0))

-- ===== src/BigInteger/WordShift.antt =====
-- The shifts `operator<<` and `operator>>` as a product and a quotient.
use native.Mathlib.Omega.{pow_step}
use native.Mathlib.Nat.{
  zero-mod, zero-div, div-one, mod-eq_of_lt, div-div-eq-div-mul, div-le_self, mul_comm, mul_assoc,
  div-add-mod, add-mul-mod_self_left,
}
use qrack.Prelude.{
  ℕ, zero, suc, ◌+◌, ◌*◌, ◌/◌, ◌%◌, ◌^◌, ◌<◌, ◌≤◌, ◌≡◌, ◌==◌, refl, sym, ap, ap₂, ◌∙◌, List, [],
  ◌∷◌, ◌++◌, arith, take, drop, replicate, length, if◌then◌else◌, if_both, Bool-cases, ==_iff, inl,
  inr, true,
}
use qrack.BigInteger.Words.{BigInteger, word_power}
use qrack.BigInteger.Value.{
  value, modulus, IsWords, done, step, mod_words, value-bound, modulus-length,
}
use qrack.Bits.Power.{power_congr, power_add, power_pos, div_unique}
use qrack.BigInteger.ShiftValue.{value-lshift_bits, value-rshift_bits}
use qrack.BigInteger.Shift.{
  lshift_bits, rshift_bits, lshift, rshift, shift_words, bi_lshift_word, bi_rshift_word,
}

word_power_pos : (n : ℕ) → 0 < word_power ^ n
word_power_pos zero = omega arith
word_power_pos (suc n) = omega (arith, pow_step word_power n, word_power_pos n)

pub modulus-power : (a : BigInteger) → modulus a ≡ word_power ^ length a
modulus-power [] = refl
modulus-power (a ∷ left) = omega (arith, modulus-power left, pow_step word_power (length left))

value-take : (n : ℕ) {a : BigInteger} → IsWords a → value (take n a) ≡ value a % word_power ^ n
value-take zero w = omega arith
value-take (suc n) done = sym (zero-mod (word_power ^ suc n))
value-take (suc n) (step a left h w) =
    ap (λ x. a + word_power * x) (value-take n w)
    ∙ sym (mod_words a (value left) (word_power ^ n) h (word_power_pos n))
    ∙ ap (λ m. (a + word_power * value left) % m) (sym (pow_step word_power n))

value-zeros : (k : ℕ) (a : BigInteger) → value (replicate k 0 ++ a) ≡ word_power ^ k * value a
value-zeros zero a = omega arith
value-zeros (suc k) a =
    ap (λ x. 0 + word_power * x) (value-zeros k a)
    ∙ grind (
      arith,
      mul_assoc word_power (word_power ^ k) (value a),
      ap (λ p. p * value a) (pow_step word_power k),
    )

zeros-IsWords : (k : ℕ) {a : BigInteger} → IsWords a → IsWords (replicate k 0 ++ a)
zeros-IsWords zero w = w
zeros-IsWords (suc k) w = step 0 _ (omega arith) (zeros-IsWords k w)

take-IsWords : (n : ℕ) {a : BigInteger} → IsWords a → IsWords (take n a)
take-IsWords zero w = done
take-IsWords (suc n) done = done
take-IsWords (suc n) (step a left h w) = step a _ h (take-IsWords n w)

drop-IsWords : (n : ℕ) {a : BigInteger} → IsWords a → IsWords (drop n a)
drop-IsWords zero w = w
drop-IsWords (suc n) done = done
drop-IsWords (suc n) (step a left h w) = drop-IsWords n w

value-drop : (k : ℕ) {a : BigInteger} → IsWords a → value (drop k a) ≡ value a / word_power ^ k
value-drop zero {a = a} w = sym (div-one (value a))
value-drop (suc k) done = sym (zero-div (word_power ^ suc k))
value-drop (suc k) (step a left h w) =
    value-drop k w
    ∙ ap (λ x. x / word_power ^ k) (sym (div_unique word_power (value left) a (omega arith) h))
    ∙ div-div-eq-div-mul (a + word_power * value left) word_power (word_power ^ k)
    ∙ ap (λ m. (a + word_power * value left) / m) (sym (pow_step word_power k))

value-padded : (a : BigInteger) (n : ℕ) → value (a ++ replicate n 0) ≡ value a
value-padded [] zero = refl
value-padded [] (suc n) = omega (arith, value-padded [] n)
value-padded (a ∷ left) n = ap (λ x. a + word_power * x) (value-padded left n)

padded-IsWords : (n : ℕ) {a : BigInteger} → IsWords a → IsWords (a ++ replicate n 0)
padded-IsWords zero done = done
padded-IsWords (suc n) done = step 0 _ (omega arith) (padded-IsWords n done)
padded-IsWords n (step a left h w) = step a _ h (padded-IsWords n w)

length-take_all : {A : Type 0} (n : ℕ) (xs : List A) → n ≤ length xs → length (take n xs) ≡ n
length-take_all zero xs h = refl
length-take_all (suc n) [] h = absurd (omega arith)
length-take_all (suc n) (x ∷ xs) h = ap suc (length-take_all n xs (omega arith))

lshift_word_suc :
    (a : BigInteger) (k : ℕ) → bi_lshift_word a (suc k) ≡ take (length a) (replicate (suc k) 0 ++ a)
unfolding bi_lshift_word
lshift_word_suc a k = ground arith

rshift_word_suc :
    (a : BigInteger) (k : ℕ)
    → bi_rshift_word a (suc k) ≡ take (length a) (drop (suc k) a ++ replicate (length a) 0)
unfolding bi_rshift_word
rshift_word_suc a k = ground arith

value-bi_lshift_word :
    {a : BigInteger}
    → IsWords a
    → (k : ℕ) → value (bi_lshift_word a k) ≡ word_power ^ k * value a % modulus a
unfolding bi_lshift_word
value-bi_lshift_word {a = a} w zero =
    sym (ap (λ x. x % modulus a) (omega arith) ∙ mod-eq_of_lt (value-bound w))
value-bi_lshift_word {a = a} w (suc k) =
    ap value (lshift_word_suc a k)
    ∙ value-take (length a) (zeros-IsWords (suc k) w)
    ∙ ap₂ (λ x m. x % m) (value-zeros (suc k) a) (sym (modulus-power a))

value-bi_rshift_word :
    {a : BigInteger} → IsWords a → (k : ℕ) → value (bi_rshift_word a k) ≡ value a / word_power ^ k
unfolding bi_rshift_word
value-bi_rshift_word {a = a} w zero = sym (div-one (value a))
value-bi_rshift_word {a = a} w (suc k) =
    ap value (rshift_word_suc a k)
    ∙ value-take (length a) (padded-IsWords (length a) (drop-IsWords (suc k) w))
    ∙ ap (λ x. x % word_power ^ length a)
        (value-padded (drop (suc k) a) (length a) ∙ value-drop (suc k) w)
    ∙ mod-eq_of_lt
        (omega (arith, div-le_self (value a) (word_power ^ suc k), value-bound w, modulus-power a))

pub words-power : (k : ℕ) → word_power ^ k ≡ 2 ^ (64 * k)
words-power zero = refl
words-power (suc k) =
    pow_step word_power k
    ∙ ap (λ p. word_power * p) (words-power k)
    ∙ power_add 64 (64 * k)
    ∙ power_congr (64 + 64 * k) (64 * suc k) (omega arith)

split_power : (n : ℕ) → 2 ^ (n % 64) * word_power ^ (n / 64) ≡ 2 ^ n
split_power n =
    ap (λ p. 2 ^ (n % 64) * p) (words-power (n / 64))
    ∙ power_add (n % 64) (64 * (n / 64))
    ∙ power_congr (n % 64 + 64 * (n / 64)) n (omega arith)

whole_power : (n : ℕ) → (n % 64 == 0) ≡ true → word_power ^ (n / 64) ≡ 2 ^ n
whole_power n e =
    words-power (n / 64) ∙ power_congr (64 * (n / 64)) n (omega (arith, (==_iff (n % 64) 0).0 e))

part_power : (n v : ℕ) → 2 ^ (n % 64) * (word_power ^ (n / 64) * v) ≡ 2 ^ n * v
part_power n v =
    sym (mul_assoc (2 ^ (n % 64)) (word_power ^ (n / 64)) v) ∙ ap (λ p. p * v) (split_power n)

times_mod : (p x m : ℕ) → (0 + p * (x % m)) % m ≡ p * x % m
times_mod p x m =
    sym (add-mul-mod_self_left (0 + p * (x % m)) m (p * (x / m)))
    ∙ ap (λ y. y % m) (grind (arith, ap (λ y. p * y) (div-add-mod x m)))

bi_lshift_word-IsWords : {a : BigInteger} → IsWords a → (k : ℕ) → IsWords (bi_lshift_word a k)
unfolding bi_lshift_word
bi_lshift_word-IsWords {a = a} w k =
    if_both IsWords (k == 0) _ _ w (take-IsWords (length a) (zeros-IsWords k w))

bi_rshift_word-IsWords : {a : BigInteger} → IsWords a → (k : ℕ) → IsWords (bi_rshift_word a k)
unfolding bi_rshift_word
bi_rshift_word-IsWords {a = a} w k =
    if_both IsWords (k == 0) _ _ w
      (take-IsWords (length a) (padded-IsWords (length a) (drop-IsWords k w)))

length-zeros : (k : ℕ) (a : BigInteger) → length (replicate k 0 ++ a) ≡ k + length a
length-zeros zero a = omega arith
length-zeros (suc k) a = omega (arith, length-zeros k a)

length-bi_lshift_word : (a : BigInteger) (k : ℕ) → length (bi_lshift_word a k) ≡ length a
unfolding bi_lshift_word
length-bi_lshift_word a k =
    if_both {A = BigInteger} (λ b. length b ≡ length a) (k == 0) _ _ refl
      (length-take_all (length a) (replicate k 0 ++ a) (omega (arith, length-zeros k a)))

small_words : (n : ℕ) → n < 2 ^ 31 → shift_words n ≡ n / 64
small_words n h = ground (arith, h)

module _ {a : BigInteger} (w : IsWords a) (n : ℕ) where
  abbrev left_by : ℕ → BigInteger
  left_by k =
      let result = bi_lshift_word a k in
      if n % 64 == 0 then result else lshift_bits (n % 64) 0 result

  value-left_by : value (left_by (n / 64)) ≡ 2 ^ n * value a % modulus a
  value-left_by =
      let k = n / 64 in
      let result = bi_lshift_word a k in
      let words = value-bi_lshift_word w k in
      let same = modulus-length result a (length-bi_lshift_word a k) in
      let bits : value (lshift_bits (n % 64) 0 result) ≡ 2 ^ n * value a % modulus a =
        value-lshift_bits (n % 64) (omega arith) (bi_lshift_word-IsWords w k) 0 (power_pos (n % 64))
        ∙ ap₂ (λ x m. (0 + 2 ^ (n % 64) * x) % m) words same
        ∙ times_mod (2 ^ (n % 64)) (word_power ^ k * value a) (modulus a)
        ∙ ap (λ x. x % modulus a) (part_power n (value a)) in
      elim (Bool-cases (n % 64 == 0)) [
        | inl e ↦
            ap (λ b. value (if b then result else lshift_bits (n % 64) 0 result)) e
            ∙ words
            ∙ ap (λ p. p * value a % modulus a) (whole_power n e)
        | inr e ↦ ap (λ b. value (if b then result else lshift_bits (n % 64) 0 result)) e ∙ bits
      ]

  abbrev right_by : ℕ → BigInteger
  right_by k =
      let result = bi_rshift_word a k in
      if n % 64 == 0 then result else (rshift_bits (n % 64) result).1

  value-right_by : value (right_by (n / 64)) ≡ value a / 2 ^ n
  value-right_by =
      let k = n / 64 in
      let words = value-bi_rshift_word w k in
      elim (Bool-cases (n % 64 == 0)) [
        | inl e ↦
            ap
              (λ b.
                value
                  (if b then bi_rshift_word a k else (rshift_bits (n % 64) (bi_rshift_word a k)).1))
              e
            ∙ words
            ∙ ap (λ p. value a / p) (whole_power n e)
        | inr e ↦
            ap
              (λ b.
                value
                  (if b then bi_rshift_word a k else (rshift_bits (n % 64) (bi_rshift_word a k)).1))
              e
            ∙ (value-rshift_bits (n % 64) (ground (arith, e)) (omega arith)
                (bi_rshift_word-IsWords w k)).0
            ∙ ap (λ x. x / 2 ^ (n % 64)) words
            ∙ div-div-eq-div-mul (value a) (word_power ^ k) (2 ^ (n % 64))
            ∙ ap (λ p. value a / p) (mul_comm (word_power ^ k) (2 ^ (n % 64)) ∙ split_power n)
      ]

-- `left << n` is the product with 2^n, modulo 2 to the number of bits, for words below 2^64 and `n` below
-- 2^31.
pub value-lshift :
    {a : BigInteger}
    → IsWords a
    → (n : ℕ) → n < 2 ^ 31
    → value (lshift a n) ≡ 2 ^ n * value a % modulus a
unfolding lshift
value-lshift w n h = ap (λ k. value (left_by w n k)) (small_words n h) ∙ value-left_by w n

-- `left >> n` is the quotient by 2^n, for words below 2^64 and `n` below 2^31.
pub value-rshift :
    {a : BigInteger} → IsWords a → (n : ℕ) → n < 2 ^ 31 → value (rshift a n) ≡ value a / 2 ^ n
unfolding rshift
value-rshift w n h = ap (λ k. value (right_by w n k)) (small_words n h) ∙ value-right_by w n

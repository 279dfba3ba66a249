-- ===== src/BigInteger/Addition.antt =====
-- Sums, differences, increments and decrements of `BigInteger` as arithmetic modulo 2^(64 n).
use native.Mathlib.Nat.{mod-one, add-mod_right, mod-add-mod, mod-eq_of_lt, mod-lt}
use qrack.Prelude.{
  ℕ, ◌+◌, ◌*◌, ◌-◌, ◌%◌, ◌^◌, ◌<◌, ◌≡◌, refl, sym, ap, ◌∙◌, [], ◌∷◌, arith, length, ltb, leb,
  if◌then◌else◌,
}
use qrack.BigInteger.Words.{
  BigInteger, word_power, carry_up, borrow_up, bi_add_ip, bi_sub_ip, bi_increment, bi_decrement,
  plus, plus_from, minus, minus_from,
}
use qrack.Bits.Power.{mod_unique}
use qrack.BigInteger.Value.{
  value, modulus, IsWords, done, step, value-bound, modulus-pos, modulus-length, mod_words,
}

length-carry_up : (a : BigInteger) → length (carry_up a) ≡ length a
unfolding carry_up
length-carry_up [] = refl
length-carry_up (a ∷ left) = ground (arith, length-carry_up left)

carry_up-IsWords : {a : BigInteger} → IsWords a → IsWords (carry_up a)
unfolding carry_up
carry_up-IsWords done = done
carry_up-IsWords (step a left h w) =
    step _ _ (mod-lt (a + 1) (omega arith)) (ground (arith, carry_up-IsWords w, w))

value-carry_up : {a : BigInteger} → IsWords a → value (carry_up a) ≡ (value a + 1) % modulus a
unfolding carry_up
value-carry_up done = refl
value-carry_up (step a left h w) = ground (
  arith,
  value-carry_up w,
  mod_words ((a + 1) % word_power) (value left) (modulus left) (omega arith) (modulus-pos left),
  mod_words ((a + 1) % word_power) (value left + 1) (modulus left) (omega arith) (modulus-pos left),
  value-bound w,
  mod-eq_of_lt (value-bound w),
)

length-borrow_up : (a : BigInteger) → length (borrow_up a) ≡ length a
unfolding borrow_up
length-borrow_up [] = refl
length-borrow_up (a ∷ left) = ground (arith, length-borrow_up left)

borrow_up-IsWords : {a : BigInteger} → IsWords a → IsWords (borrow_up a)
unfolding borrow_up
borrow_up-IsWords done = done
borrow_up-IsWords (step a left h w) =
    step _ _ (mod-lt (a + word_power - 1) (omega arith)) (ground (arith, borrow_up-IsWords w, w))

value-borrow_up :
    {a : BigInteger} → IsWords a → value (borrow_up a) ≡ (value a + (modulus a - 1)) % modulus a
unfolding borrow_up
value-borrow_up done = refl
value-borrow_up (step a left h w) = ground (
  arith,
  value-borrow_up w,
  mod_words ((a + word_power - 1) % word_power) (value left + (modulus left - 1)) (modulus left)
      (omega arith) (modulus-pos left),
  mod_words (a - 1) (value left + modulus left) (modulus left) (omega arith) (modulus-pos left),
  mod_unique 1 {x = value left + modulus left} {r = value left} {m = modulus left} (omega arith)
      (value-bound w),
  modulus-pos left,
)

-- The lowest word of a sum with the rest that its carry selects.
add_word :
    (a b l m : ℕ) (x y : BigInteger)
    → a < word_power
    → b < word_power
    → 0 < m
    → value x ≡ (l + 1) % m
    → value y ≡ l % m
    → value ((a + b) % word_power ∷ (if ltb ((a + b) % word_power) a then x else y))
      ≡ (a + b + word_power * l) % (word_power * m)
add_word a b l m x y h k p ex ey = ground (
  arith,
  mod_words ((a + b) % word_power) l m (omega arith) p,
  mod_words ((a + b) % word_power) (l + 1) m (omega arith) p,
)

-- The lowest word of a difference with the rest that its borrow selects, where `c` is a multiple of
-- the modulus above what is taken away.
sub_word :
    (a b l m : ℕ) (x y : BigInteger)
    → a < word_power
    → b < word_power
    → 0 < m
    → value x ≡ l % m
    → value y ≡ (l + 1) % m
    → value (
        (a + word_power - b) % word_power
        ∷ (if ltb a ((a + word_power - b) % word_power) then x else y))
      ≡ (a + word_power - b + word_power * l) % (word_power * m)
sub_word a b l m x y h k p ex ey = ground (
  arith,
  mod_words ((a + word_power - b) % word_power) l m (omega arith) p,
  mod_words ((a + word_power - b) % word_power) (l + 1) m (omega arith) p,
)

-- `bi_add_ip(&a, b)` leaves the sum of `a` and `b` in `a`, modulo 2 to the number of its bits, for
-- any two integers of as many words, each word below 2^64.
pub value-bi_add_ip :
    {b : BigInteger}
    → IsWords b
    → (a : BigInteger) → IsWords a
    → length a ≡ length b
    → value (bi_add_ip a b) ≡ (value a + value b) % modulus a
unfolding bi_add_ip
value-bi_add_ip done [] w e = refl
value-bi_add_ip done (a ∷ left) w e = absurd (omega arith)
value-bi_add_ip (step b right k v) [] w e = absurd (omega arith)
value-bi_add_ip (step b right k v) (a ∷ left) (step _ _ h w) e =
    let with_carry =
      value-bi_add_ip v (carry_up left) (carry_up-IsWords w) (omega (arith, length-carry_up left))
      ∙ ap (λ m. (value (carry_up left) + value right) % m)
          (modulus-length (carry_up left) left (length-carry_up left))
      ∙ ap (λ x. (x + value right) % modulus left) (value-carry_up w)
      ∙ mod-add-mod (value left + 1) (modulus left) (value right)
      ∙ ap (λ x. x % modulus left) (omega arith) in
    add_word a b (value left + value right) (modulus left) _ _ h k (modulus-pos left) with_carry
      (value-bi_add_ip v left w (omega arith))
    ∙ ap (λ x. x % modulus (a ∷ left)) (omega arith)

-- `bi_sub_ip(&a, b)` leaves the difference of `a` and `b` in `a`, modulo 2 to the number of its
-- bits, for any two integers of as many words, each word below 2^64.
pub value-bi_sub_ip :
    {b : BigInteger}
    → IsWords b
    → (a : BigInteger) → IsWords a
    → length a ≡ length b
    → value (bi_sub_ip a b) ≡ (value a + (modulus a - value b)) % modulus a
unfolding bi_sub_ip
value-bi_sub_ip done [] w e = refl
value-bi_sub_ip done (a ∷ left) w e = absurd (omega arith)
value-bi_sub_ip (step b right k v) [] w e = absurd (omega arith)
value-bi_sub_ip (step b right k v) (a ∷ left) (step _ _ h w) e =
    let bound = value-bound v in
    let same = modulus-length right left (omega arith) in
    let with_borrow =
      value-bi_sub_ip v (borrow_up left) (borrow_up-IsWords w)
        (omega (arith, length-borrow_up left))
      ∙ ap (λ m. (value (borrow_up left) + (m - value right)) % m)
          (modulus-length (borrow_up left) left (length-borrow_up left))
      ∙ ap (λ x. (x + (modulus left - value right)) % modulus left) (value-borrow_up w)
      ∙ mod-add-mod (value left + (modulus left - 1)) (modulus left) (modulus left - value right)
      ∙ ap (λ x. x % modulus left) (omega arith)
      ∙ add-mod_right (value left + (modulus left - 1 - value right)) (modulus left) in
    sub_word a b (value left + (modulus left - 1 - value right)) (modulus left) _ _ h k
      (modulus-pos left) with_borrow
      (value-bi_sub_ip v left w (omega arith) ∙ ap (λ x. x % modulus left) (omega arith))
    ∙ ap (λ x. x % modulus (a ∷ left)) (omega arith)

increment_word :
    (a v : ℕ) (left : BigInteger)
    → v < word_power
    → bi_increment (a ∷ left) v
      ≡ (a + v) % word_power ∷ (if ltb ((a + v) % word_power) a then carry_up left else left)
unfolding bi_increment
increment_word a v left k = ground arith

-- `bi_increment(&a, v)` adds `v` to `a`, modulo 2 to the number of its bits, for words and a `v`
-- below 2^64.
pub value-bi_increment :
    {a : BigInteger}
    → IsWords a
    → (v : ℕ) → v < word_power
    → value (bi_increment a v) ≡ (value a + v) % modulus a
unfolding bi_increment
value-bi_increment done v k = omega (arith, mod-one (0 + v))
value-bi_increment (step a left h w) v k =
    ap value (increment_word a v left k)
    ∙ add_word a v (value left) (modulus left) _ _ h k (modulus-pos left) (value-carry_up w)
        (sym (mod-eq_of_lt (value-bound w)))
    ∙ ap (λ x. x % modulus (a ∷ left)) (omega arith)

-- `bi_decrement(&a, v)` takes `v` away if the lowest word is not below it, and else leaves
-- 2^64 - v - 1 more than `a`: the loop takes 1 from the lowest word in place of the next one. The
-- integer has a word, its words are below 2^64, and so is `v`.
pub value-bi_decrement :
    (a : ℕ) (left : BigInteger) (v : ℕ)
    → IsWords (a ∷ left)
    → v < word_power
    → value (bi_decrement (a ∷ left) v)
      ≡ (if leb v a then value (a ∷ left) - v else value (a ∷ left) + (word_power - v - 1))
unfolding bi_decrement borrow_up
value-bi_decrement a left v (step _ _ h w) k = ground arith

-- `left + right` of two words each is the sum of `right` and the lowest word of `left`, modulo
-- 2^128, for lowest words below 2^64: the top word of `left` is not added.
pub value-plus :
    (a a1 b b1 : ℕ)
    → a < word_power
    → b < word_power
    → value (plus (a ∷ a1 ∷ []) (b ∷ b1 ∷ [])) ≡ (a + value (b ∷ b1 ∷ [])) % word_power ^ 2
unfolding plus plus_from
value-plus a a1 b b1 h k = ground (
  arith,
  mod_words ((a + b) % word_power) b1 word_power (omega arith) (omega arith),
  mod_words ((a + b) % word_power) (b1 + 1) word_power (omega arith) (omega arith),
)

-- `left - right` of two words each is the difference of the lowest word of `left` and of `right`,
-- modulo 2^128, for a lowest word of `left` and words of `right` below 2^64: the top word of `left`
-- is dropped.
pub value-minus :
    (a a1 b b1 : ℕ)
    → a < word_power
    → IsWords (b ∷ b1 ∷ [])
    → value (minus (a ∷ a1 ∷ []) (b ∷ b1 ∷ []))
      ≡ (a + (word_power ^ 2 - value (b ∷ b1 ∷ []))) % word_power ^ 2
unfolding minus minus_from
value-minus a a1 b b1 h (step _ _ k (step _ _ k1 done)) = ground (
  arith,
  mod_words ((a + word_power - b) % word_power) (word_power - b1) word_power (omega arith)
      (omega arith),
  mod_words ((a + word_power - b) % word_power) (word_power - 1 - b1) word_power (omega arith)
      (omega arith),
)

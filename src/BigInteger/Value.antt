-- ===== src/BigInteger/Value.antt =====
-- The number that a `BigInteger` stands for, and arithmetic modulo a power of the word.
use qrack.Prelude.{ℕ, ◌+◌, ◌*◌, ◌%◌, ◌/◌, ◌<◌, ◌≡◌, refl, [], ◌∷◌, arith, length}
use native.Mathlib.Nat.{mod-lt, div-add-mod}
use qrack.Bits.Power.{mod_unique}
use qrack.BigInteger.Words.{BigInteger, word_power}

abbrev pub value : BigInteger → ℕ
value [] = 0
value (a ∷ left) = a + word_power * value left

-- One more than the greatest number of as many words.
abbrev pub modulus : BigInteger → ℕ
modulus [] = 1
modulus (a ∷ left) = word_power * modulus left

-- Every word is below 2^64.
pub data IsWords : BigInteger → Type 0 where
  done : IsWords []
  step : (a : ℕ) (left : BigInteger) → a < word_power → IsWords left → IsWords (a ∷ left)

pub value-bound : {a : BigInteger} → IsWords a → value a < modulus a
value-bound done = omega arith
value-bound (step a left h w) = omega (arith, value-bound w)

pub modulus-pos : (a : BigInteger) → 0 < modulus a
modulus-pos [] = omega arith
modulus-pos (a ∷ left) = omega (arith, modulus-pos left)

pub modulus-length : (a b : BigInteger) → length a ≡ length b → modulus a ≡ modulus b
modulus-length [] [] e = refl
modulus-length [] (b ∷ bs) e = absurd (omega arith)
modulus-length (a ∷ left) [] e = absurd (omega arith)
modulus-length (a ∷ left) (b ∷ bs) e = omega (arith, modulus-length left bs (omega arith))

-- A number modulo the words from the lowest on, by its lowest word.
pub mod_words :
    (a b m : ℕ)
    → a < word_power
    → 0 < m
    → (a + word_power * b) % (word_power * m) ≡ a + word_power * (b % m)
mod_words a b m h p =
    mod_unique (b / m) (omega (arith, div-add-mod b m)) (omega (arith, mod-lt b p))

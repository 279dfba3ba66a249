-- ===== src/BigInteger/Bitwise.antt =====
-- The bitwise operations of a `BigInteger`.
use Prim.Native.Nat.{bit_and, bit_or, bit_xor}
use qrack.Prelude.{ℕ, ◌-◌, [], ◌∷◌}
use qrack.BigInteger.Words.{BigInteger, word_power}

-- A loop over the words of two numbers.
abbrev pub words_with : (ℕ → ℕ → ℕ) → BigInteger → BigInteger → BigInteger
words_with f (a ∷ left) (b ∷ right) = f a b ∷ words_with f left right
words_with f left right = left

unfoldable pub and_words : BigInteger → BigInteger → BigInteger
and_words left right = words_with bit_and left right

unfoldable pub or_words : BigInteger → BigInteger → BigInteger
or_words left right = words_with bit_or left right

unfoldable pub xor_words : BigInteger → BigInteger → BigInteger
xor_words left right = words_with bit_xor left right

-- `~` of a word is its distance from the word of ones.
unfoldable pub not_words : BigInteger → BigInteger
not_words [] = []
not_words (a ∷ left) = (word_power - 1 - a) ∷ not_words left

unfoldable pub bi_and_ip : BigInteger → BigInteger → BigInteger
bi_and_ip left right = words_with bit_and left right

unfoldable pub bi_or_ip : BigInteger → BigInteger → BigInteger
bi_or_ip left right = words_with bit_or left right

unfoldable pub bi_xor_ip : BigInteger → BigInteger → BigInteger
bi_xor_ip left right = words_with bit_xor left right

unfoldable pub bi_not_ip : BigInteger → BigInteger
bi_not_ip [] = []
bi_not_ip (a ∷ left) = (word_power - 1 - a) ∷ bi_not_ip left

unfoldable pub bi_and_1 : BigInteger → ℕ
bi_and_1 [] = 0
bi_and_1 (a ∷ left) = bit_and a 1

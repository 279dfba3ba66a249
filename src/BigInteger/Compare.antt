-- ===== src/BigInteger/Compare.antt =====
-- `bi_compare` and its kin decide the order of the numbers.
use Prim.Native.Nat.{compare}
use qrack.Prelude.{ℕ, ◌≡◌, refl, [], ◌∷◌, arith, length}
use qrack.BigInteger.Words.{BigInteger, bi_compare, bi_compare_0, bi_compare_1}
use qrack.BigInteger.Value.{value, IsWords, done, step}

-- `bi_compare` returns the order of the two numbers, for any two of as many words, each
-- below 2^64.
pub bi_compare-value :
    {a b : BigInteger}
    → IsWords a
    → IsWords b
    → length a ≡ length b
    → bi_compare a b ≡ compare (value a) (value b)
unfolding bi_compare
bi_compare-value done done e = refl
bi_compare-value done (step b right k v) e = absurd (omega arith)
bi_compare-value (step a left h w) done e = absurd (omega arith)
bi_compare-value (step a left h w) (step b right k v) e =
    ground (arith, bi_compare-value w v (omega arith))

-- `bi_compare_0` returns the order of the number and 0.
pub bi_compare_0-value : (a : BigInteger) → bi_compare_0 a ≡ compare (value a) 0
unfolding bi_compare_0
bi_compare_0-value [] = refl
bi_compare_0-value (a ∷ left) = ground (arith, bi_compare_0-value left)

-- `bi_compare_1` returns the order of the number and 1, for a number of at least one word.
pub bi_compare_1-value :
    (a : ℕ) (left : BigInteger) → bi_compare_1 (a ∷ left) ≡ compare (value (a ∷ left)) 1
unfolding bi_compare_1
bi_compare_1-value a left = ground (arith, bi_compare_0-value left)

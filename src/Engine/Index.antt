-- ===== src/Engine/Index.antt =====
-- The masks of the code as fields of an index.
use Prim.Native.Nat.{bit_and, bit_or, bit_xor}
use qrack.Prelude.{ℕ, ◌+◌, ◌-◌, ◌%◌, ◌^◌, ◌<◌, ◌≤◌, ◌≡◌, arith, ◌&&◌, ltb, leb}
use qrack.Bits.Test.{
  test, test-bit_and, test-bit_or, test-bit_xor, test-div, test-mod, test_eq, test_beyond,
}
use qrack.Bits.Word.{
  shl, shr, pow2_mask, test-shl, test-pow2_mask, field, with_field, test-field, test-with_field,
}

-- Bits of the mask of a register.
pub test-reg_mask :
    (s l i : ℕ) → s + l < 64 → test (shl (pow2_mask l) s) i ≡ (leb s i && ltb i (s + l))
test-reg_mask s l i h = ground (arith, test-shl s (pow2_mask l) i, test-pow2_mask l (i - s))

pub and_mask : (a l : ℕ) → l < 64 → bit_and a (pow2_mask l) ≡ a % 2 ^ l
and_mask a l h =
    test_eq _ _
      (λ i. ground (arith, test-bit_and a (pow2_mask l) i, test-pow2_mask l i, test-mod l a i))

pub reg_value : (s l i : ℕ) → s + l < 64 → shr (bit_and i (shl (pow2_mask l) s)) s ≡ field s l i
reg_value s l i h = test_eq _ _ (λ k. ground (
  arith,
  test-div s (bit_and i (shl (pow2_mask l) s)) k,
  test-bit_and i (shl (pow2_mask l) s) (s + k),
  test-reg_mask s l (s + k),
  test-field s l i k,
))

pub put_field :
    (n s l x i : ℕ)
    → s + l ≤ n
    → n < 64
    → x < 2 ^ l
    → i < 2 ^ n
    → bit_or (shl x s) (bit_and i (bit_xor (pow2_mask n) (shl (pow2_mask l) s)))
      ≡ with_field s l x i
put_field n s l x i h k b c = test_eq _ _ (λ j. ground (
  arith,
  test-bit_or (shl x s) (bit_and i (bit_xor (pow2_mask n) (shl (pow2_mask l) s))) j,
  test-shl s x j,
  test-bit_and i (bit_xor (pow2_mask n) (shl (pow2_mask l) s)) j,
  test-bit_xor (pow2_mask n) (shl (pow2_mask l) s) j,
  test-pow2_mask n j,
  test-reg_mask s l j,
  test-with_field s l x i j b,
  test_beyond l x (j - s) b,
  test_beyond n i j c,
))

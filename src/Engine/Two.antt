-- ===== src/Engine/Two.antt =====
-- The masks of the code for two fields of an index.
use Prim.Native.Nat.{bit_and, bit_or, bit_xor}
use qrack.Prelude.{
  ℕ, ◌+◌, ◌-◌, ◌^◌, ◌<◌, ◌≤◌, ◌≡◌, sym, ap, ap₂, ◌∙◌, arith, Bool, not, ◌&&◌, ◌||◌, ◌⊎◌, xor, ltb,
  leb, if◌then◌else◌,
}
use qrack.Bits.Test.{test, test-bit_and, test-bit_or, test-bit_xor, test_eq, test_beyond}
use qrack.Bits.Word.{shl, pow2_mask, test-shl, test-pow2_mask, with_field, test-with_field}
use qrack.Engine.Index.{test-reg_mask}

rest_bits :
    (n s l c m i k : ℕ)
    → n < 64
    → s + l ≤ n
    → c + m ≤ n
    → i < 2 ^ n
    → test
        (bit_and i (bit_xor (pow2_mask n) (bit_or (shl (pow2_mask l) s) (shl (pow2_mask m) c))))
        k
      ≡ (test i k && not ((leb s k && ltb k (s + l)) || (leb c k && ltb k (c + m))))
rest_bits n s l c m i k small fs fc b =
    let a = shl (pow2_mask l) s in
    let d = shl (pow2_mask m) c in
    test-bit_and i (bit_xor (pow2_mask n) (bit_or a d)) k
    ∙ ap (λ b. test i k && b)
        (test-bit_xor (pow2_mask n) (bit_or a d) k
          ∙ ap₂ xor (test-pow2_mask n k small) (
              test-bit_or a d k
              ∙ ap₂ ◌||◌ (test-reg_mask s l k (omega arith)) (test-reg_mask c m k (omega arith))))
    ∙ ground (arith, test_beyond n i k b)

shifted :
    (x s l k : ℕ)
    → s + l < 64
    → x < 2 ^ l
    → test (shl x s) k ≡ (leb s k && ltb k (s + l) && test x (k - s))
shifted x s l k h b = test-shl s x k ∙ ground (arith, test_beyond l x (k - s) b)

join_fields :
    (s l c m k : ℕ) (a p q : Bool)
    → (s + l ≤ c) ⊎ (c + m ≤ s)
    → (((leb s k && ltb k (s + l) && p) || (leb c k && ltb k (c + m) && q))
        || (a && not ((leb s k && ltb k (s + l)) || (leb c k && ltb k (c + m)))))
      ≡ (if leb s k && ltb k (s + l) then p else (if leb c k && ltb k (c + m) then q else a))
join_fields s l c m k a p q apart = ground arith

-- Two values put into the fields that the code has masked out.
pub put_two :
    (n s l c m x y i : ℕ)
    → n < 64
    → s + l ≤ n
    → c + m ≤ n
    → (s + l ≤ c) ⊎ (c + m ≤ s)
    → x < 2 ^ l
    → y < 2 ^ m
    → i < 2 ^ n
    → bit_or
        (bit_or (shl x s) (shl y c))
        (bit_and i (bit_xor (pow2_mask n) (bit_or (shl (pow2_mask l) s) (shl (pow2_mask m) c))))
      ≡ with_field s l x (with_field c m y i)
put_two n s l c m x y i small fs fc apart bx by b = test_eq _ _ (λ k.
    test-bit_or (bit_or (shl x s) (shl y c)) _ k
    ∙ ap₂ ◌||◌
        (test-bit_or (shl x s) (shl y c) k
          ∙ ap₂ ◌||◌ (shifted x s l k (omega arith) bx) (shifted y c m k (omega arith) by))
        (rest_bits n s l c m i k small fs fc b)
    ∙ join_fields s l c m k (test i k) (test x (k - s)) (test y (k - c)) apart
    ∙ ap (λ t. if leb s k && ltb k (s + l) then test x (k - s) else t)
        (sym (test-with_field c m y i k by))
    ∙ sym (test-with_field s l x (with_field c m y i) k bx))

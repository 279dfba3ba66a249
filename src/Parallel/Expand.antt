-- ===== src/Parallel/Expand.antt =====
-- Numbers with zero bits put in, which the increment functions of src/common/parallel_for.cpp compute.
use Prim.Native.Nat.{bit_and, bit_or}
use native.Mathlib.Nat.{mod-lt}
use qrack.Prelude.{
  ℕ, ◌+◌, ◌-◌, ◌*◌, ◌/◌, ◌%◌, ◌^◌, ◌<◌, ◌≤◌, ◌≡◌, ◌==◌, sym, ap, ap₂, ◌∙◌, arith, ◌&&◌, ◌||◌, xor,
  if_split, ltb, leb, if◌then◌else◌,
}
use qrack.BigInteger.Words.{word_power}
use qrack.Bits.Power.{power_pos}
use qrack.Bits.Test.{
  test, test-shift, test-zero, test_index, test-bit_and, test-bit_or, test-bit_xor, test-div,
  test-mod, test_eq, test_beyond, test-join, test_ones, test_bound,
}
use qrack.Bits.Word.{shl, complement, test-shl, power_mono, field, test-field}
use qrack.Parallel.Order.{skip_inc}

-- `j` with `w` zero bits put in at bit `s`, and `k` with the bits there taken out.
abbrev pub expand : ℕ → ℕ → ℕ → ℕ
expand s w j = j % 2 ^ s + (j / 2 ^ s * 2 ^ w) * 2 ^ s

abbrev pub contract : ℕ → ℕ → ℕ → ℕ
contract s w k = k % 2 ^ s + k / 2 ^ (s + w) * 2 ^ s

pub test-expand :
    (s w j k : ℕ)
    → test (expand s w j) k ≡ (if ltb k s then test j k else leb (s + w) k && test j (k - w))
test-expand s w j k =
    test-join s (j % 2 ^ s) (j / 2 ^ s * 2 ^ w) k (mod-lt j (power_pos s))
    ∙ ground (
      arith,
      test-mod s j k,
      test-shift w (j / 2 ^ s) (k - s),
      test-div s j (k - s - w),
      test_index j (s + (k - s - w)) (k - w),
    )

pub test-contract :
    (s w k i : ℕ) → test (contract s w k) i ≡ (if ltb i s then test k i else test k (i + w))
test-contract s w k i =
    test-join s (k % 2 ^ s) (k / 2 ^ (s + w)) i (mod-lt k (power_pos s))
    ∙ ground
        (arith, test-mod s k i, test-div (s + w) k (i - s), test_index k (s + w + (i - s)) (i + w))

pub contract-expand : (s w j : ℕ) → contract s w (expand s w j) ≡ j
contract-expand s w j = test_eq _ _ (λ i. ground (
  arith,
  test-contract s w (expand s w j) i,
  test-expand s w j i,
  test-expand s w j (i + w),
  test_index j (i + w - w) i,
))

pub field-expand : (s w j : ℕ) → field s w (expand s w j) ≡ 0
field-expand s w j =
    test_eq _ _
      (λ i. ground (arith, test-field s w (expand s w j) i, test-expand s w j (s + i), test-zero i))

pub expand-contract : (s w k : ℕ) → field s w k ≡ 0 → expand s w (contract s w k) ≡ k
expand-contract s w k h = test_eq _ _ (λ i. ground (
  arith,
  test-expand s w (contract s w k) i,
  test-contract s w k i,
  test-contract s w k (i - w),
  test_index k (i - w + w) i,
  test-field s w k (i - s),
  test_index k (s + (i - s)) i,
  ap (λ x. test x (i - s)) h,
  test-zero (i - s),
))

pub expand-bound : (s w n j : ℕ) → s + w ≤ n → j < 2 ^ (n - w) → expand s w j < 2 ^ n
expand-bound s w n j h b = test_bound n _ (λ k m.
    ground (arith, test-expand s w j k, test_beyond (n - w) j (k - w) b, test_beyond (n - w) j k b))

pub contract-bound : (s w n k : ℕ) → s + w ≤ n → k < 2 ^ n → contract s w k < 2 ^ (n - w)
contract-bound s w n k h b =
    test_bound (n - w) _
      (λ i m. ground (arith, test-contract s w k i, test_beyond n k (i + w) b, test_beyond n k i b))

power_one : (s : ℕ) → (2 ^ s ≤ 1) → s ≡ 0
power_one s h = grind (arith, power_mono 1 s)

pub test-complement : (a i : ℕ) → test (complement a) i ≡ xor (ltb i 64) (test a i)
test-complement a i =
    test-bit_xor (word_power - 1) a i ∙ ap (λ b. xor b (test a i)) (test_ones 64 i)

spread_bits :
    (s w j i : ℕ)
    → test (bit_or (bit_and j (2 ^ s - 1)) (shl (bit_and j (complement (2 ^ s - 1))) w)) i ≡ (
        (test j i && ltb i s)
        || (ltb i 64 && (leb w i && (test j (i - w) && xor (ltb (i - w) 64) (ltb (i - w) s)))))
spread_bits s w j i =
    let mask = 2 ^ s - 1 in
    test-bit_or (bit_and j mask) (shl (bit_and j (complement mask)) w) i
    ∙ ap₂ ◌||◌ (test-bit_and j mask i ∙ ap (λ b. test j i && b) (test_ones s i)) (
        test-shl w (bit_and j (complement mask)) i
        ∙ ap (λ b. ltb i 64 && (leb w i && b))
            (test-bit_and j (complement mask) (i - w)
              ∙ ap (λ b. test j (i - w) && b)
                  (test-complement mask (i - w) ∙ ap (xor (ltb (i - w) 64)) (test_ones s (i - w)))))

spread_all :
    (s w n j i : ℕ)
    → s + w ≤ n
    → n < 64
    → test j (i - w) ≡ (test j (i - w) && ltb (i - w) (n - w))
    → ((test j i && ltb i s)
        || (ltb i 64 && (leb w i && (test j (i - w) && xor (ltb (i - w) 64) (ltb (i - w) s)))))
      ≡ (if ltb i s then test j i else leb (s + w) i && test j (i - w))
spread_all s w n j i h small e = ground arith

leading :
    (s w n j i : ℕ)
    → s + w ≤ n
    → n < 64
    → s ≡ 0
    → test j (i - w) ≡ (test j (i - w) && ltb (i - w) (n - w))
    → (ltb i 64 && (leb w i && test j (i - w)))
      ≡ (if ltb i s then test j i else leb (s + w) i && test j (i - w))
leading s w n j i h small z e = ground arith

within_bits : (m j i : ℕ) → j < 2 ^ m → test j i ≡ (test j i && ltb i m)
within_bits m j i b = ground (arith, test_beyond m j i b)

-- The increment function of `par_for_skip`, for the mask 2^s.
pub skip_inc-expand :
    (s w n j : ℕ) → s + w ≤ n → n < 64 → j < 2 ^ (n - w) → skip_inc (2 ^ s) w j ≡ expand s w j
unfolding skip_inc
skip_inc-expand s w n j h small b = test_eq _ _ (λ i.
    if_split (λ x. test x i ≡ test (expand s w j) i) (2 ^ s - 1 == 0) _ _
      (λ e.
        test-shl w j i
        ∙ leading s w n j i h small (power_one s (ground (arith, e)))
            (within_bits (n - w) j (i - w) b)
        ∙ sym (test-expand s w j i))
      (λ e.
        spread_bits s w j i
        ∙ spread_all s w n j i h small (within_bits (n - w) j (i - w) b)
        ∙ sym (test-expand s w j i)))

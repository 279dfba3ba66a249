-- ===== src/Bits/Field.antt =====
-- Fields of an index: reading a field that was written, and writing one twice.
use native.Mathlib.Nat.{mod-lt}
use qrack.Prelude.{ℕ, ◌+◌, ◌-◌, ◌^◌, ◌<◌, ◌≤◌, ◌≡◌, arith, ◌⊎◌}
use qrack.Bits.Power.{power_pos}
use qrack.Bits.Test.{test_index, test_eq, test_beyond, test_bound}
use qrack.Bits.Word.{field, with_field, test-field, test-with_field}

module _ (s l i : ℕ) where
  pub field_bound : field s l i < 2 ^ l
  field_bound = mod-lt _ (power_pos l)

  pub field-with_field : (x : ℕ) → x < 2 ^ l → field s l (with_field s l x i) ≡ x
  field-with_field x b = test_eq _ _ (λ k. ground (
    arith,
    test-field s l (with_field s l x i) k,
    test-with_field s l x i (s + k) b,
    test_index x (s + k - s) k,
    test_beyond l x k b,
  ))

  pub with_field-field : with_field s l (field s l i) i ≡ i
  with_field-field = test_eq _ _ (λ k. ground (
    arith,
    test-with_field s l (field s l i) i k field_bound,
    test-field s l i (k - s),
    test_index i (s + (k - s)) k,
  ))

  pub with_field_twice :
      (x y : ℕ) → x < 2 ^ l → y < 2 ^ l → with_field s l x (with_field s l y i) ≡ with_field s l x i
  with_field_twice x y b c = test_eq _ _ (λ k. ground (
    arith,
    test-with_field s l x (with_field s l y i) k b,
    test-with_field s l y i k c,
    test-with_field s l x i k b,
  ))

  pub with_field-bound : (n x : ℕ) → s + l ≤ n → x < 2 ^ l → i < 2 ^ n → with_field s l x i < 2 ^ n
  with_field-bound n x h b c =
      test_bound n _ (λ k m. ground (arith, test-with_field s l x i k b, test_beyond n i k c))

-- Two fields that share no bit.
module _ (s l t m i : ℕ) (apart : (s + l ≤ t) ⊎ (t + m ≤ s)) where
  pub field_other : (y : ℕ) → y < 2 ^ m → field s l (with_field t m y i) ≡ field s l i
  field_other y b = test_eq _ _ (λ k. ground (
    arith,
    test-field s l (with_field t m y i) k,
    test-field s l i k,
    test-with_field t m y i (s + k) b,
    apart,
  ))

  pub with_field_swap :
      (x y : ℕ)
      → x < 2 ^ l
      → y < 2 ^ m
      → with_field s l x (with_field t m y i) ≡ with_field t m y (with_field s l x i)
  with_field_swap x y b c = test_eq _ _ (λ k. ground (
    arith,
    test-with_field s l x (with_field t m y i) k b,
    test-with_field t m y i k c,
    test-with_field t m y (with_field s l x i) k c,
    test-with_field s l x i k b,
    apart,
  ))

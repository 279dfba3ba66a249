-- ===== src/Stabilizer/Product.antt =====
-- `clifford` and the product of rows against the Pauli group.
use qrack.Prelude.{
  ℕ, zero, suc, ◌+◌, ◌*◌, ◌%◌, ◌≡◌, refl, sym, ◌∙◌, arith, Bool, false, xor, bit, bool_val,
  for_upto, sum, length-xor_list, bit-xor_list, sum_mod_congr, sum-add, sum_double, sum-parity,
  xor_sum_congr, xor_sum-xor, xor_sum-false,
}
use qrack.Stabilizer.Row.{Row, clifford, clifford_round, mult_row}
use qrack.Stabilizer.Pauli.{phase_at, clash, clash_at, anticommute, IsRow}

clifford_round-phase :
    (xi zi xk zk : Bool) (e : ℕ) → clifford_round xi zi xk zk e % 4 ≡ (e + phase_at xi zi xk zk) % 4
unfolding clifford_round
clifford_round-phase xi zi xk zk e = ground arith

-- The phases of the qubits below `n`.
abbrev pub phase_sum : ℕ → Row → Row → ℕ
phase_sum n i k = sum n (λ j. phase_at (bit i.x j) (bit i.z j) (bit k.x j) (bit k.z j))

clifford_loop :
    (n : ℕ) (i k : Row)
    → for_upto n (λ j e. clifford_round (bit i.x j) (bit i.z j) (bit k.x j) (bit k.z j) e) 0 % 4
      ≡ phase_sum n i k % 4
unfolding for_upto sum
clifford_loop zero i k = refl
clifford_loop (suc n) i k = omega (
  arith,
  clifford_round-phase (bit i.x n) (bit i.z n) (bit k.x n) (bit k.z n)
      (for_upto n (λ j e. clifford_round (bit i.x j) (bit i.z j) (bit k.x j) (bit k.z j) e) 0),
  clifford_loop n i k,
)

-- The 8-bit counter of `clifford`, which wraps below zero, gives the power of `i` in the product
-- of the Pauli operators of row `k` and row `i`, with the phases of both rows, modulo 4.
pub clifford-phase_sum : (n : ℕ) (i k : Row) → clifford n i k ≡ (phase_sum n i k + i.r + k.r) % 4
unfolding clifford
clifford-phase_sum n i k = omega (arith, clifford_loop n i k)

clash_comm : (xa za xb zb : Bool) → clash xa za xb zb ≡ clash xb zb xa za
clash_comm xa za xb zb = ground arith

pub anticommute_comm : (n : ℕ) (a b : Row) → anticommute n a b ≡ anticommute n b a
unfolding anticommute
anticommute_comm n a b =
    xor_sum_congr n _ _ (λ j p. clash_comm (bit a.x j) (bit a.z j) (bit b.x j) (bit b.z j))

clash_self : (xa za : Bool) → clash xa za xa za ≡ false
clash_self xa za = ground arith

pub anticommute_self : (n : ℕ) (a : Row) → anticommute n a a ≡ false
unfolding anticommute
anticommute_self n a =
    xor_sum_congr n _ _ (λ j p. clash_self (bit a.x j) (bit a.z j)) ∙ xor_sum-false n

pub mult_row-IsRow : (n : ℕ) {i : Row} (k : Row) → IsRow n i → IsRow n (mult_row n i k)
unfolding mult_row clifford
mult_row-IsRow n {i} k h = record {
  length_x = length-xor_list i.x k.x ∙ h.length_x;
  length_z = length-xor_list i.z k.z ∙ h.length_z;
  phase = omega arith;
}

clash-xor :
    (xa za xk zk xb zb : Bool)
    → clash (xor xa xk) (xor za zk) xb zb ≡ xor (clash xa za xb zb) (clash xk zk xb zb)
clash-xor xa za xk zk xb zb = ground arith

module _ (n : ℕ) {i k : Row} (hi : IsRow n i) (hk : IsRow n k) where
  pub bit_x-mult_row : (j : ℕ) → bit (mult_row n i k).x j ≡ xor (bit i.x j) (bit k.x j)
  unfolding mult_row
  bit_x-mult_row j = bit-xor_list i.x k.x j (hi.length_x ∙ sym hk.length_x)

  pub bit_z-mult_row : (j : ℕ) → bit (mult_row n i k).z j ≡ xor (bit i.z j) (bit k.z j)
  unfolding mult_row
  bit_z-mult_row j = bit-xor_list i.z k.z j (hi.length_z ∙ sym hk.length_z)

  -- A product anticommutes with a row exactly when one of its factors does and the other not.
  pub anticommute-mult_row :
      (b : Row) → anticommute n (mult_row n i k) b ≡ xor (anticommute n i b) (anticommute n k b)
  unfolding anticommute
  anticommute-mult_row b =
      xor_sum_congr n _ _ (λ j p.
        rw (bit_x-mult_row j, bit_z-mult_row j)
          (clash-xor (bit i.x j) (bit i.z j) (bit k.x j) (bit k.z j) (bit b.x j) (bit b.z j)))
      ∙ xor_sum-xor n (clash_at i b) (clash_at k b)

phase_at_swap :
    (xi zi xk zk : Bool)
    → phase_at xk zk xi zi % 4 ≡ (phase_at xi zi xk zk + 2 * bool_val (clash xi zi xk zk)) % 4
phase_at_swap xi zi xk zk = ground arith

phase_sum_swap :
    (n : ℕ) (i k : Row)
    → phase_sum n k i % 4 ≡ (phase_sum n i k + 2 * bool_val (anticommute n i k)) % 4
unfolding anticommute
phase_sum_swap n i k = omega (
  arith,
  sum_mod_congr n _ _ (λ j p. phase_at_swap (bit i.x j) (bit i.z j) (bit k.x j) (bit k.z j)),
  sum-add n (λ j. phase_at (bit i.x j) (bit i.z j) (bit k.x j) (bit k.z j))
      (λ j. 2 * bool_val (clash_at i k j)),
  sum_double n (clash_at i k),
)

-- The two orders of a product differ in phase by 2, a sign, exactly when the rows anticommute.
pub clifford_swap :
    (n : ℕ) (i k : Row) → clifford n k i ≡ (clifford n i k + 2 * bool_val (anticommute n i k)) % 4
clifford_swap n i k =
    omega (arith, clifford-phase_sum n i k, clifford-phase_sum n k i, phase_sum_swap n i k)

phase_at-parity : (xi zi xk zk : Bool) → phase_at xi zi xk zk % 2 ≡ bool_val (clash xi zi xk zk)
phase_at-parity xi zi xk zk = ground arith

-- A product of rows with real phases has a real phase exactly when they commute.
pub clifford-parity :
    (n : ℕ) (i k : Row) → clifford n i k % 2 ≡ (i.r + k.r + bool_val (anticommute n i k)) % 2
unfolding anticommute
clifford-parity n i k = omega (
  arith,
  clifford-phase_sum n i k,
  sum-parity n (λ j. phase_at (bit i.x j) (bit i.z j) (bit k.x j) (bit k.z j)) (clash_at i k)
      (λ j p. phase_at-parity (bit i.x j) (bit i.z j) (bit k.x j) (bit k.z j)),
)

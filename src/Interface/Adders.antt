-- ===== src/Interface/Adders.antt =====
-- The full adders and the additions of registers (include/qinterface.hpp,
-- src/qinterface/arithmetic.cpp).
use qrack.Prelude.{ℕ, ◌+◌, ◌-◌, ◌==◌, List, [], ◌∷◌, ◌++◌, for_upto, if◌then◌else◌}
use qrack.Interface.Gates.{Gates, cnot, ccnot, swap, cswap}

module _ {S : Type 0} (g : Gates S) where
  unfoldable pub full_add : ℕ → ℕ → ℕ → ℕ → S → S
  full_add input1 input2 carry_in_sum_out carry_out s = cnot g input1 input2 (
      cnot g input2 carry_in_sum_out (
        ccnot g input2 carry_in_sum_out carry_out
          (cnot g input1 input2 (ccnot g input1 input2 carry_out s))))

  unfoldable pub ifull_add : ℕ → ℕ → ℕ → ℕ → S → S
  ifull_add input1 input2 carry_in_sum_out carry_out s = ccnot g input1 input2 carry_out (
      cnot g input1 input2 (
        ccnot g input2 carry_in_sum_out carry_out
          (cnot g input2 carry_in_sum_out (cnot g input1 input2 s))))

  unfoldable pub cfull_add : List ℕ → ℕ → ℕ → ℕ → ℕ → S → S
  cfull_add controls input1 input2 carry_in_sum_out carry_out s =
      g.mc_invert (controls ++ input1 ∷ []) input2 (
        g.mc_invert (controls ++ input2 ∷ []) carry_in_sum_out (
          g.mc_invert (controls ++ input2 ∷ carry_in_sum_out ∷ []) carry_out (
            g.mc_invert (controls ++ input1 ∷ []) input2
              (g.mc_invert (controls ++ input1 ∷ input2 ∷ []) carry_out s))))

  unfoldable pub cifull_add : List ℕ → ℕ → ℕ → ℕ → ℕ → S → S
  cifull_add controls input1 input2 carry_in_sum_out carry_out s =
      g.mc_invert (controls ++ input1 ∷ input2 ∷ []) carry_out (
        g.mc_invert (controls ++ input1 ∷ []) input2 (
          g.mc_invert (controls ++ input2 ∷ carry_in_sum_out ∷ []) carry_out (
            g.mc_invert (controls ++ input2 ∷ []) carry_in_sum_out
              (g.mc_invert (controls ++ input1 ∷ []) input2 s))))

  -- `ADC`, for the adder of its bits and the swap of its qubits.
  unfoldable pub ripple_add : (ℕ → ℕ → ℕ → ℕ → S → S) → (ℕ → ℕ → S → S) → ℕ → ℕ → ℕ → ℕ → ℕ → S → S
  ripple_add add exchange input1 input2 output length carry s =
      let end = length - 1 in
      if length == 0
      then s
      else if length == 1
      then exchange carry output (add input1 input2 carry output s)
      else add (input1 + end) (input2 + end) (output + end) carry (
          for_upto (end - 1)
            (λ i s.
              add (input1 + (i + 1)) (input2 + (i + 1)) (output + (i + 1)) (output + (i + 1) + 1) s)
            (add input1 input2 carry output s))

  -- `IADC`, in the same way: its loop goes from `end - 1` down to 1.
  unfoldable pub iripple_add : (ℕ → ℕ → ℕ → ℕ → S → S) → (ℕ → ℕ → S → S) → ℕ → ℕ → ℕ → ℕ → ℕ → S → S
  iripple_add add exchange input1 input2 output length carry s =
      let end = length - 1 in
      if length == 0
      then s
      else if length == 1
      then add input1 input2 carry output (exchange carry output s)
      else add input1 input2 carry output (
          for_upto (end - 1)
            (λ k s.
              let i = end - 1 - k in add (input1 + i) (input2 + i) (output + i) (output + i + 1) s)
            (add (input1 + end) (input2 + end) (output + end) carry s))

  unfoldable pub adc : ℕ → ℕ → ℕ → ℕ → ℕ → S → S
  adc input1 input2 output length carry s =
      ripple_add full_add (swap g) input1 input2 output length carry s

  unfoldable pub iadc : ℕ → ℕ → ℕ → ℕ → ℕ → S → S
  iadc input1 input2 output length carry s =
      iripple_add ifull_add (swap g) input1 input2 output length carry s

  unfoldable pub cadc : List ℕ → ℕ → ℕ → ℕ → ℕ → ℕ → S → S
  cadc controls input1 input2 output length carry s =
      ripple_add (cfull_add controls) (cswap g controls) input1 input2 output length carry s

  unfoldable pub ciadc : List ℕ → ℕ → ℕ → ℕ → ℕ → ℕ → S → S
  ciadc controls input1 input2 output length carry s =
      iripple_add (cifull_add controls) (cswap g controls) input1 input2 output length carry s

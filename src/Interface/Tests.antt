-- ===== src/Interface/Tests.antt =====
-- The theorems on the gate sequences at concrete amplitudes.
use qrack.Prelude.{
  zero, suc, ◌≤◌, ◌∙◌, true, get_or, ltb, if_both, ℕ, ◌+◌, ◌<◌, ◌^◌, ◌*◌, ◌≡◌, refl, ap, arith,
  false, List, [], ◌∷◌, if◌then◌else◌, inl, inr, ok, replicate, for_upto, length-replicate,
}
use qrack.Integers.{is_power_of_two, log2_ocl, log2_from}
use qrack.Bits.Word.{field}
use qrack.Bits.Test.{test_bound, test_beyond}
use qrack.Parallel.Threads.{from_to}
use qrack.Parallel.Schedule.{from_to-IsOrder}
use qrack.Engine.State.{Runtime, IsRuntime, read}
use qrack.Engine.Moves.{dense}
use qrack.Engine.Registers.{on_register}
use qrack.Engine.Adding.{added}
use qrack.Engine.Arithmetic
use qrack.Interface.Gates.{Gates, cnot, ccnot}
use qrack.Interface.Basis.{flip, test-flip, all_set, IsLawful}
use qrack.Interface.Sums.{inc, cinc, cdec}
use qrack.Interface.Modular.{
  output_length, cmul_mod_n_out, cimul_mod_n_out, mul_mod_n_out, imul_mod_n_out,
}
use qrack.Interface.Adders.{full_add, ripple_add, adc, iadc}
use qrack.Interface.Adding.{IsMoved, inc-adds}
use qrack.Interface.Controlled.{cinc-adds}
use qrack.Interface.Agree.{inc-inc}
use qrack.Interface.Undo.{IsOutside, cdec-cinc, flip_twice, if_back}
use qrack.Interface.Product.{IsSeparate, cimul-cmul}
use qrack.Interface.Multiplying.{mul-adds}
use qrack.Interface.Adder.{IsFour, bits_added, full_add-adds}
use qrack.Interface.AdderBack.{IsRegisters, iadc-adc, all_set-flip}

-- A simulator of `n` qubits: its states are the lists of 2^n amplitudes, and a call with a qubit that it
-- does not have leaves them.
module _ {A : Type 0} (zero_amp : A) where
  abbrev amplitudes : ℕ → (ℕ → A) → List A
  amplitudes zero f = []
  amplitudes (suc m) f = f 0 ∷ amplitudes m (λ i. f (suc i))

  abbrev at : List A → ℕ → A
  at s i = get_or s i zero_amp

  get_or-amplitudes : (m i : ℕ) (f : ℕ → A) → i < m → at (amplitudes m f) i ≡ f i
  get_or-amplitudes zero i f h = absurd (omega arith)
  get_or-amplitudes (suc m) zero f h = refl
  get_or-amplitudes (suc m) (suc i) f h = get_or-amplitudes m i (λ j. f (suc j)) (omega arith)

  abbrev vectors : ℕ → Gates (List A)
  vectors n = record {
    x = λ q s. if ltb q n then amplitudes (2 ^ n) (λ i. at s (flip q i)) else s;
    mc_invert = λ cs t s.
        if ltb t n
        then amplitudes (2 ^ n) (λ i. at s (if all_set cs i then flip t i else i))
        else s;
    m = λ q s. (false, s);
  }

  flip-bound : (n q i : ℕ) → q < n → i < 2 ^ n → flip q i < 2 ^ n
  flip-bound n q i h b =
      test_bound n (flip q i) (λ k m. test-flip q i k ∙ ground (arith, test_beyond n i k b))

  vectors-IsLawful : (n : ℕ) → n ≤ 64 → IsLawful n (vectors n) at
  vectors-IsLawful n small = record {
    fits = small;
    amp-x = λ q i s h b.
        ap (λ c. at (if c then amplitudes (2 ^ n) (λ i. at s (flip q i)) else s) (flip q i))
          {x = ltb q n} {y = true} (ground arith)
        ∙ get_or-amplitudes (2 ^ n) (flip q i) (λ i. at s (flip q i)) (flip-bound n q i h b)
        ∙ ap (at s) (flip_twice q i);
    amp-mc_invert = λ cs t i s h b.
        let f : ℕ → ℕ = λ i. if all_set cs i then flip t i else i in
        ap (λ c. at (if c then amplitudes (2 ^ n) (λ i. at s (f i)) else s) (f i)) {x = ltb t n}
          {y = true} (ground (arith, h.0))
        ∙ get_or-amplitudes (2 ^ n) (f i) (λ i. at s (f i))
            (if_both (λ j. j < 2 ^ n) (all_set cs i) _ _ (flip-bound n t i h.0 b) b)
        ∙ ap (at s)
            (if_back (all_set cs) (flip t) (flip t) i (all_set-flip n cs t i h) (flip_twice t i));
  }

abbrev amp : List ℕ → ℕ → ℕ
amp s i = at 0 s i

abbrev ramp : ℕ → List ℕ
ramp n = amplitudes 0 (2 ^ n) (λ i. i * i + 1)

inc-adds_example :
    (on_register 1 2 (added 2 3) 5 < 2 ^ 3)
    × (amp (inc (vectors 0 3) 3 1 2 (ramp 3)) (on_register 1 2 (added 2 3) 5) ≡ 26)
inc-adds_example =
    inc-adds (vectors 0 3) amp (vectors-IsLawful 0 3 (omega arith)) 3 1 2 (omega arith) 5 (ramp 3)
      (omega arith)

one_control : IsOutside 3 1 2 (0 ∷ [])
one_control = record {
  fits = omega arith;
  indices = λ k m. ground (arith, m);
  different = refl;
  disjoint = λ k m. ground (arith, m);
}

cinc-adds_example :
    ((if all_set (0 ∷ []) 5 then on_register 1 2 (added 2 3) 5 else 5) < 2 ^ 3)
    × (amp
          (cinc (vectors 0 3) 3 1 2 (0 ∷ []) (ramp 3))
          (if all_set (0 ∷ []) 5 then on_register 1 2 (added 2 3) 5 else 5)
        ≡ 26)
cinc-adds_example =
    cinc-adds (vectors 0 3) amp (vectors-IsLawful 0 3 (omega arith)) 3 1 2 (0 ∷ []) (omega arith)
      one_control.indices refl one_control.disjoint 5 (ramp 3) (omega arith)

cdec-cinc_example :
    amp (cdec (vectors 0 3) 3 1 2 (0 ∷ []) (cinc (vectors 0 3) 3 1 2 (0 ∷ []) (ramp 3))) 5 ≡ 26
cdec-cinc_example =
    cdec-cinc (vectors 0 3) amp (vectors-IsLawful 0 3 (omega arith)) 3 1 2 (0 ∷ []) (omega arith)
      one_control 5 (ramp 3) (omega arith)

-- Amplitudes that are numbers, loops in order, and vectors that hold 9 when they are allocated.
abbrev plain : Runtime ℕ
plain = record { zero_amp = 0; negate = λ a. a; order = from_to 0; alloc = λ n. replicate n 9 }

plain-IsRuntime : IsRuntime plain
plain-IsRuntime = record { ordered = from_to-IsOrder; allocated = λ n. length-replicate n 9 }

abbrev eight : List ℕ
eight = 1 ∷ 2 ∷ 3 ∷ 4 ∷ 5 ∷ 6 ∷ 7 ∷ 8 ∷ []

inc-inc_example :
    (w : List ℕ) × (Arithmetic.inc plain 3 1 2 (dense 3 eight) ≡ ok (dense 3 w))
    × ((i : ℕ) → i < 2 ^ 3 → amp (inc (vectors 0 3) 3 1 2 eight) i ≡ read plain w i)
inc-inc_example =
    inc-inc (vectors 0 3) amp (vectors-IsLawful 0 3 (omega arith)) plain-IsRuntime 3 1 2 eight eight
      (omega arith) refl (omega arith) (λ i b. refl)

-- Two qubits of input and three of output, for the modulus 5 and no controls.
input_of_output : (k : ℕ) → k < 2 → IsOutside 5 2 3 ((0 + k) ∷ [])
input_of_output k h = record {
  fits = omega arith;
  indices = λ j m. ground (arith, m);
  different = refl;
  disjoint = λ j m. ground (arith, m);
}

separate : IsSeparate 5 [] 5 0 2 2
unfolding output_length is_power_of_two log2_ocl log2_from
separate = record {
  positive = omega arith;
  word = omega arith;
  short = omega arith;
  outside_in = record {
    fits = omega arith;
    indices = λ k m. absurd (ground (arith, m));
    different = refl;
    disjoint = λ k m. absurd (ground (arith, m));
  };
  outside_out = input_of_output;
  controls_out = λ k m. absurd (ground (arith, m));
  output_word = omega arith;
}

cimul-cmul_example :
    (amp
        (cimul_mod_n_out
          (vectors 0 5)
          2
          5
          0
          2
          2
          []
          (cmul_mod_n_out (vectors 0 5) 2 5 0 2 2 [] (ramp 5)))
        3
      ≡ 10)
    × (amp
          (imul_mod_n_out (vectors 0 5) 2 5 0 2 2 (mul_mod_n_out (vectors 0 5) 2 5 0 2 2 (ramp 5)))
          3
        ≡ 10)
cimul-cmul_example =
    cimul-cmul (vectors 0 5) amp (vectors-IsLawful 0 5 (omega arith)) [] 2 5 0 2 2 separate 3
      (ramp 5) (omega arith)

mul-adds_example :
    (let j = on_register 2 3 (added 3 (3 * field 0 2 3)) 3 in
      IsMoved 5 amp
        (cmul_mod_n_out (vectors 0 5) 3 (2 ^ 3) 0 2 2 [])
        (if all_set [] 3 then j else 3)
        3
        (ramp 5)
      × IsMoved 5 amp (mul_mod_n_out (vectors 0 5) 3 (2 ^ 3) 0 2 2) j 3 (ramp 5))
mul-adds_example =
    mul-adds (vectors 0 5) amp (vectors-IsLawful 0 5 (omega arith)) [] 3 3 0 2 2 (omega arith)
      (omega arith) (omega arith) input_of_output 3 (ramp 5) (omega arith)

four : IsFour 4 0 1 2 3
four = record {
  below_a = omega arith;
  below_b = omega arith;
  below_c = omega arith;
  below_d = omega arith;
  ab = λ e. omega (arith, e);
  ac = λ e. omega (arith, e);
  ad = λ e. omega (arith, e);
  bc = λ e. omega (arith, e);
  bd = λ e. omega (arith, e);
  cd = λ e. omega (arith, e);
}

full_add-adds_example :
    (bits_added 0 1 2 3 3 < 2 ^ 4)
    × (amp (full_add (vectors 0 4) 0 1 2 3 (ramp 4)) (bits_added 0 1 2 3 3) ≡ 10)
full_add-adds_example =
    full_add-adds (vectors 0 4) amp (vectors-IsLawful 0 4 (omega arith)) 0 1 2 3 four 3 (ramp 4)
      (omega arith)

registers : IsRegisters 7 0 2 4 2 6
registers = record {
  fits1 = omega arith;
  fits2 = omega arith;
  fits = omega arith;
  below = omega arith;
  apart12 = inl (omega arith);
  apart1 = inl (omega arith);
  apart2 = inl (omega arith);
  carry1 = inr (omega arith);
  carry2 = inr (omega arith);
  carry3 = inr (omega arith);
}

iadc-adc_example :
    amp (iadc (vectors 0 7) 0 2 4 2 6 (adc (vectors 0 7) 0 2 4 2 6 (ramp 7))) 5 ≡ amp (ramp 7) 5
iadc-adc_example =
    iadc-adc (vectors 0 7) amp (vectors-IsLawful 0 7 (omega arith)) 0 2 4 2 6 registers 5 (ramp 7)
      (omega arith)

-- A simulator whose states are the functions to the amplitudes.
abbrev waves : Gates (ℕ → ℕ)
waves = record {
  x = λ q s i. s (flip q i);
  mc_invert = λ cs t s i. s (if all_set cs i then flip t i else i);
  m = λ q s. (false, s);
}

-- 1 + 1 in registers of two qubits: the carry of the low qubits stays in the low qubit of the output.
low_carry : adc waves 0 2 4 2 6 (λ i. i * i + 1) (5 + 16) ≡ 26
unfolding adc ripple_add full_add cnot ccnot for_upto
low_carry = refl

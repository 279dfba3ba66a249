-- ===== src/Engine/FullAdd.antt =====
-- `FullAdd`, `IFullAdd`, `CPhaseFlipIfLess` and `PhaseFlipIfLess` (src/qengine/arithmetic.cpp), which
-- write the state vector in place.
use Prim.Native.Nat.{bit_and, bit_or}
use qrack.Prelude.{
  ℕ, ◌%◌, ◌==◌, Bool, not, ◌&&◌, ◌||◌, List, [], ◌∷◌, set, ltb, leb, if◌then◌else◌, Result, ok, err,
  invalid_argument,
}
use qrack.BigInteger.Words.{word_power}
use qrack.Bits.Word.{shr, pow2, bit_reg_mask}
use qrack.Ranges.{is_bad_bit_range}
use qrack.Parallel.Order.{par_for, par_for_mask}
use qrack.Engine.State.{Engine, Runtime, read, max_power, zero_skip, reset_state_vec}
use qrack.Engine.Targets.{sort_powers}

-- The four amplitudes of an iteration, by the bit `s` at the place of the carry-in, which becomes the
-- sum, and the bit `c` at the place of the carry-out. The source names what FullAdd reads, and what
-- IFullAdd writes, with the two digits the other way round.
pub record Quad (A : Type 0) : Type 0 where
  pub s0c0 : A
  pub s0c1 : A
  pub s1c0 : A
  pub s1c1 : A

-- The outputs of `FullAdd` for its inputs, by the values of the two added bits.
unfoldable pub add_quad : {A : Type 0} → Bool → Bool → Quad A → Quad A
add_quad a b ins =
    if not a
    then if not b
      then record { s0c0 = ins.s0c0; s1c0 = ins.s1c0; s0c1 = ins.s0c1; s1c1 = ins.s1c1 }
      else record { s1c0 = ins.s0c0; s0c1 = ins.s1c0; s1c1 = ins.s0c1; s0c0 = ins.s1c1 }
    else if not b
    then record { s1c0 = ins.s0c0; s0c1 = ins.s1c0; s1c1 = ins.s0c1; s0c0 = ins.s1c1 }
    else record { s0c1 = ins.s0c0; s1c1 = ins.s1c0; s0c0 = ins.s0c1; s1c0 = ins.s1c1 }

-- The inputs that `IFullAdd` writes for the outputs that it reads.
unfoldable pub unadd_quad : {A : Type 0} → Bool → Bool → Quad A → Quad A
unadd_quad a b outs =
    if not a
    then if not b
      then record { s0c0 = outs.s0c0; s1c0 = outs.s1c0; s0c1 = outs.s0c1; s1c1 = outs.s1c1 }
      else record { s0c0 = outs.s1c0; s1c0 = outs.s0c1; s0c1 = outs.s1c1; s1c1 = outs.s0c0 }
    else if not b
    then record { s0c0 = outs.s1c0; s1c0 = outs.s0c1; s0c1 = outs.s1c1; s1c1 = outs.s0c0 }
    else record { s0c0 = outs.s0c1; s1c0 = outs.s1c1; s0c1 = outs.s0c0; s1c1 = outs.s1c0 }

module _ {A : Type 0} (rt : Runtime A) where
  -- `s` and `c` are the masks of the carry-in and of the carry-out.
  unfoldable pub read_quad : ℕ → ℕ → ℕ → List A → Quad A
  read_quad s c lcv v = record {
    s0c0 = read rt v lcv;
    s0c1 = read rt v (bit_or lcv c);
    s1c0 = read rt v (bit_or lcv s);
    s1c1 = read rt v (bit_or (bit_or lcv s) c);
  }

  unfoldable pub write_quad : ℕ → ℕ → ℕ → Quad A → List A → List A
  write_quad s c lcv q v =
      set (set (set (set v lcv q.s0c0) (bit_or lcv c) q.s0c1) (bit_or lcv s) q.s1c0)
        (bit_or (bit_or lcv s) c) q.s1c1

  -- What `FullAdd` and `IFullAdd` share.
  unfoldable pub each_quad :
      (Bool → Bool → Quad A → Quad A) → ℕ → ℕ → ℕ → ℕ → Engine A → Result (Engine A)
  each_quad change input1 input2 carry_in_sum_out carry_out e =
      let n = e.qubit_count in
      let s = pow2 carry_in_sum_out in
      let c = pow2 carry_out in
      if (leb n input1 || leb n input2) || (leb n carry_in_sum_out || leb n carry_out)
      then err invalid_argument
      else ok (
          zero_skip e λ v. reset_state_vec e (
            par_for_mask rt.order 0 (max_power e) (sort_powers (s ∷ c ∷ []))
              (λ lcv v.
                let a = not (bit_and lcv (pow2 input1) == 0) in
                let b = not (bit_and lcv (pow2 input2) == 0) in
                write_quad s c lcv (change a b (read_quad s c lcv v)) v)
              v))

  unfoldable pub full_add : ℕ → ℕ → ℕ → ℕ → Engine A → Result (Engine A)
  full_add input1 input2 carry_in_sum_out carry_out e =
      each_quad add_quad input1 input2 carry_in_sum_out carry_out e

  unfoldable pub ifull_add : ℕ → ℕ → ℕ → ℕ → Engine A → Result (Engine A)
  ifull_add input1 input2 carry_in_sum_out carry_out e =
      each_quad unadd_quad input1 input2 carry_in_sum_out carry_out e

  unfoldable pub phase_flip_if_less : ℕ → ℕ → ℕ → Engine A → Result (Engine A)
  phase_flip_if_less greater_perm start length e =
      if is_bad_bit_range start length e.qubit_count
      then err invalid_argument
      else ok (
          zero_skip e λ v. reset_state_vec e (
            par_for rt.order 0 (max_power e)
              (λ lcv v.
                if ltb (shr (bit_and lcv (bit_reg_mask start length)) start)
                  (greater_perm % word_power)
                then set v lcv (rt.negate (read rt v lcv))
                else v)
              v))

  unfoldable pub cphase_flip_if_less : ℕ → ℕ → ℕ → ℕ → Engine A → Result (Engine A)
  cphase_flip_if_less greater_perm start length flag e =
      if is_bad_bit_range start length e.qubit_count || leb e.qubit_count flag
      then err invalid_argument
      else ok (
          zero_skip e λ v. reset_state_vec e (
            par_for rt.order 0 (max_power e)
              (λ lcv v.
                if ltb (shr (bit_and lcv (bit_reg_mask start length)) start)
                    (greater_perm % word_power)
                  && bit_and lcv (pow2 flag) == pow2 flag
                then set v lcv (rt.negate (read rt v lcv))
                else v)
              v))

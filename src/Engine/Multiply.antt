-- ===== src/Engine/Multiply.antt =====
-- `MUL`, `DIV` and their controlled forms (src/qengine/arithmetic.cpp).
use Prim.Native.Nat.{bit_and, bit_or, bit_xor}
use qrack.Prelude.{
  ℕ, zero, suc, ◌+◌, ◌-◌, ◌*◌, ◌/◌, ◌%◌, ◌==◌, ◌||◌, List, [], ◌∷◌, ◌++◌, set, length, for_upto,
  if◌then◌else◌, Result, ok, err, invalid_argument, ◌>>=◌,
}
use qrack.BigInteger.Words.{word_power}
use qrack.Bits.Word.{shl, shr, pow2, pow2_mask}
use qrack.Ranges.{is_bad_bit_range, throw_if_qb_id_array_is_bad}
use qrack.Parallel.Order.{par_for_skip, par_for_mask}
use qrack.Engine.State.{
  Engine, Runtime, Calls, read, cleared, max_power, zero_skip, reset_state_vec,
}
use qrack.Engine.Targets.{control_mask, sort_powers, powers}

-- The index that `MULDIV` has for the product.
unfoldable pub mul_index : ℕ → ℕ → ℕ → ℕ → ℕ → ℕ → ℕ
mul_index n to_mul start carry length lcv =
    let low_mask = pow2_mask length in
    let high_mask = shl low_mask length in
    let in_out_mask = shl low_mask start in
    let carry_mask = shl low_mask carry in
    let other_mask = bit_xor (pow2_mask n) (bit_or in_out_mask carry_mask) in
    let other_res = bit_and lcv other_mask in
    let mul_int = shr (bit_and lcv in_out_mask) start * to_mul % word_power in
    bit_or
      (bit_or (shl (bit_and mul_int low_mask) start)
        (shl (shr (bit_and mul_int high_mask) length) carry))
      other_res

-- The index that `CMULDIV` has for the product.
unfoldable pub cmul_index : ℕ → ℕ → ℕ → ℕ → ℕ → ℕ → ℕ → ℕ
cmul_index n to_mul start carry length mask lcv =
    let low_mask = pow2_mask length in
    let high_mask = shl low_mask length in
    let in_out_mask = shl low_mask start in
    let carry_mask = shl low_mask carry in
    let other_mask = bit_xor (pow2_mask n) (bit_or (bit_or in_out_mask carry_mask) mask) in
    let other_res = bit_and lcv other_mask in
    let mul_int = shr (bit_and lcv in_out_mask) start * to_mul % word_power in
    bit_or
      (bit_or
        (bit_or (shl (bit_and mul_int low_mask) start)
          (shl (shr (bit_and mul_int high_mask) length) carry))
        other_res)
      mask

-- The controls that the bits of `j` select.
unfoldable pub part_control_mask : ℕ → List ℕ → ℕ
part_control_mask j [] = 0
part_control_mask j (c ∷ cs) =
    let rest = part_control_mask (j / 2) cs in if j % 2 == 1 then bit_or (pow2 c) rest else rest

-- The powers of the bits of a register.
unfoldable pub register_powers : ℕ → ℕ → List ℕ
register_powers start zero = []
register_powers start (suc length) = pow2 start ∷ register_powers (start + 1) length

module _ {A : Type 0} (rt : Runtime A) (calls : Calls A) where
  unfoldable pub muldiv : (ℕ → ℕ → ℕ) → (ℕ → ℕ → ℕ) → ℕ → ℕ → ℕ → ℕ → Engine A → Result (Engine A)
  muldiv in_fn out_fn to_mul start carry length e =
      let n = e.qubit_count in
      let mul : ℕ → ℕ = λ lcv. mul_index n (to_mul % word_power) start carry length lcv in
      if is_bad_bit_range start length n || is_bad_bit_range carry length n
      then err invalid_argument
      else ok (
          zero_skip e λ v. reset_state_vec e (
            par_for_skip rt.order 0 (max_power e) (pow2 carry) length
              (λ lcv nv. set nv (out_fn lcv (mul lcv)) (read rt v (in_fn lcv (mul lcv))))
              (cleared rt (max_power e))))

  unfoldable pub mul : ℕ → ℕ → ℕ → ℕ → Engine A → Result (Engine A)
  mul to_mul start carry length e = calls.set_reg carry length 0 e >>= λ e1.
      if to_mul == 0
      then calls.set_reg start length 0 e1
      else if to_mul == 1
      then ok e1
      else muldiv (λ orig mul. orig) (λ orig mul. mul) to_mul start carry length e1

  unfoldable pub div : ℕ → ℕ → ℕ → ℕ → Engine A → Result (Engine A)
  div to_div start carry length e =
      if to_div == 0
      then err invalid_argument
      else if to_div == 1
      then ok e
      else muldiv (λ orig mul. mul) (λ orig mul. orig) to_div start carry length e

  -- The writes of the indices whose controls are not all set, for the index `lcv` that has none set.
  unfoldable pub keep_uncontrolled : List ℕ → ℕ → List A → List A → List A
  keep_uncontrolled controls lcv v nv =
      for_upto (pow2_mask (length controls) - 1)
        (λ d nv. let i = bit_or lcv (part_control_mask (1 + d) controls) in set nv i (read rt v i))
        (set nv lcv (read rt v lcv))

  unfoldable pub cmuldiv :
      (ℕ → ℕ → ℕ) → (ℕ → ℕ → ℕ) → ℕ → ℕ → ℕ → ℕ → List ℕ → Engine A → Result (Engine A)
  cmuldiv in_fn out_fn to_mul start carry length controls e =
      let n = e.qubit_count in
      let mask = control_mask controls in
      let mul : ℕ → ℕ = λ lcv. cmul_index n (to_mul % word_power) start carry length mask lcv in
      if (is_bad_bit_range start length n || is_bad_bit_range carry length n)
        || throw_if_qb_id_array_is_bad controls n
      then err invalid_argument
      else ok (
          zero_skip e λ v. reset_state_vec e (
            par_for_mask rt.order 0 (max_power e)
              (sort_powers (powers controls ++ register_powers carry length))
              (λ lcv nv.
                let orig = bit_or lcv mask in
                keep_uncontrolled controls lcv v
                  (set nv (out_fn orig (mul lcv)) (read rt v (in_fn orig (mul lcv)))))
              (cleared rt (max_power e))))

  unfoldable pub cmul : ℕ → ℕ → ℕ → ℕ → List ℕ → Engine A → Result (Engine A)
  cmul to_mul start carry length [] e = mul to_mul start carry length e
  cmul to_mul start carry length (c ∷ cs) e = calls.set_reg carry length 0 e >>= λ e1.
      if to_mul == 0
      then calls.set_reg start length 0 e1
      else if to_mul == 1
      then ok e1
      else cmuldiv (λ orig mul. orig) (λ orig mul. mul) to_mul start carry length (c ∷ cs) e1

  unfoldable pub cdiv : ℕ → ℕ → ℕ → ℕ → List ℕ → Engine A → Result (Engine A)
  cdiv to_div start carry length [] e = div to_div start carry length e
  cdiv to_div start carry length (c ∷ cs) e =
      if to_div == 0
      then err invalid_argument
      else if to_div == 1
      then ok e
      else cmuldiv (λ orig mul. mul) (λ orig mul. orig) to_div start carry length (c ∷ cs) e

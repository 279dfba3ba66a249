-- ===== src/Engine/Bcd.antt =====
-- `INCBCD` and `INCDECBCDC` (src/qengine/arithmetic.cpp): additions to a register of decimal digits of
-- 4 bits each.
use Prim.Native.Nat.{bit_and, bit_or, bit_xor}
use qrack.Prelude.{
  ℕ, zero, suc, ◌+◌, ◌-◌, ◌*◌, ◌/◌, ◌%◌, ◌==◌, Bool, true, not, ◌&&◌, ◌||◌, List, [], ◌∷◌, set, ltb,
  leb, if◌then◌else◌, Result, ok, err, invalid_argument,
}
use qrack.Bits.Word.{shl, shr, pow2, pow2_mask, bit_reg_mask}
use qrack.Integers.{int_pow}
use qrack.Ranges.{is_bad_bit_range}
use qrack.Parallel.Order.{par_for, par_for_skip}
use qrack.Engine.State.{
  Engine, Runtime, read, cleared, max_power, zero_skip_result, reset_state_vec,
}

-- The first loop: the sums of the digits, and whether every digit of the register is valid.
unfoldable pub digit_sums : ℕ → ℕ → ℕ → List ℕ × Bool
digit_sums zero in_out_int part_to_add = ([], true)
digit_sums (suc count) in_out_int part_to_add =
    let test1 = bit_and in_out_int 15 in
    let rest = digit_sums count (in_out_int / 16) (part_to_add / 10) in
    ((test1 + part_to_add % 10) ∷ rest.0, not (ltb 9 test1) && rest.1)

-- The second loop, from digit `j` on with the carry from the digit before: the digits as a number, and
-- the carry out of the last one.
unfoldable pub carry_digits : ℕ → ℕ → List ℕ → ℕ × ℕ
carry_digits j carry [] = (0, carry)
carry_digits j carry (nibble ∷ nibbles) =
    let sum = nibble + carry in
    let over = ltb 9 sum in
    let rest = carry_digits (j + 1) (if over then 1 else 0) nibbles in
    (bit_or (shl (if over then sum - 10 else sum) (j * 4)) rest.0, rest.1)

unfoldable pub bcd_index : ℕ → ℕ → ℕ → ℕ → ℕ → ℕ
bcd_index n to_add start length lcv =
    let in_out_mask = bit_reg_mask start length in
    let other_mask = bit_xor (pow2_mask n) in_out_mask in
    let other_res = bit_and lcv other_mask in
    let sums = digit_sums (length / 4) (shr (bit_and lcv in_out_mask) start) to_add in
    if sums.1 then bit_or (shl (carry_digits 0 0 sums.0).0 start) other_res else lcv

-- Where `INCDECBCDC` takes an index whose carry bit is 0.
unfoldable pub bcdc_index : ℕ → ℕ → ℕ → ℕ → ℕ → ℕ → ℕ
bcdc_index n to_mod start length carry lcv =
    let in_out_mask = bit_reg_mask start length in
    let carry_mask = pow2 carry in
    let other_mask = bit_xor (pow2_mask n) (bit_or in_out_mask carry_mask) in
    let other_res = bit_and lcv other_mask in
    let sums = digit_sums (length / 4) (shr (bit_and lcv in_out_mask) start) to_mod in
    let out = carry_digits 0 0 sums.0 in
    if sums.1
    then bit_or (bit_or (shl out.0 start) other_res) (if out.1 == 0 then 0 else carry_mask)
    else lcv

module _ {A : Type 0} (rt : Runtime A) where
  unfoldable pub incbcd : ℕ → ℕ → ℕ → Engine A → Result (Engine A)
  incbcd to_add start length e =
      let n = e.qubit_count in
      let nibble_count = length / 4 in
      let adding = to_add % int_pow 64 10 nibble_count in
      let run : List A → Engine A = λ v. reset_state_vec e (
        par_for rt.order 0 (max_power e)
          (λ lcv nv. set nv (bcd_index n adding start length lcv) (read rt v lcv))
          (cleared rt (max_power e))) in
      if is_bad_bit_range start length n
      then err invalid_argument
      else zero_skip_result e λ v.
        if length == 0
        then ok e
        else if not (nibble_count * 4 == length)
        then err invalid_argument
        else if adding == 0
        then ok e
        else ok (run v)

  -- Both values of the carry are written from the index whose carry bit is 0.
  unfoldable pub incdecbcdc : ℕ → ℕ → ℕ → ℕ → Engine A → Result (Engine A)
  incdecbcdc to_mod start length carry e =
      let n = e.qubit_count in
      let nibble_count = length / 4 in
      let adding = to_mod % int_pow 64 10 nibble_count in
      let carry_mask = pow2 carry in
      let run : List A → Engine A = λ v. reset_state_vec e (
        par_for_skip rt.order 0 (max_power e) carry_mask 1
          (λ lcv nv.
            let out = bcdc_index n adding start length carry lcv in
            set (set nv out (read rt v lcv)) (bit_xor out carry_mask)
              (read rt v (bit_or lcv carry_mask)))
          (cleared rt (max_power e))) in
      if is_bad_bit_range start length n || leb n carry
      then err invalid_argument
      else zero_skip_result e λ v.
        if length == 0
        then ok e
        else if not (nibble_count * 4 == length)
        then err invalid_argument
        else if adding == 0
        then ok e
        else ok (run v)

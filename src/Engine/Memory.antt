-- ===== src/Engine/Memory.antt =====
-- `IndexedLDA`, `IndexedADC`, `IndexedSBC` and `Hash` (src/qengine/arithmetic.cpp): tables of
-- classical memory under the index that a register holds.
use Prim.Native.Nat.{bit_and, bit_or}
use qrack.Prelude.{
  ℕ, zero, suc, ◌+◌, ◌-◌, ◌*◌, ◌/◌, ◌%◌, Bool, true, false, ◌||◌, none, some, set, ltb, leb,
  if◌then◌else◌, Result, ok, err, invalid_argument, ◌>>=◌,
}
use qrack.BigInteger.Words.{word_power}
use qrack.Bits.Word.{shl, shr, complement, pow2, pow2_mask, bit_reg_mask}
use qrack.Ranges.{is_bad_bit_range}
use qrack.Parallel.Order.{par_for, par_for_skip}
use qrack.Engine.State.{
  Engine, Runtime, Calls, read, cleared, max_power, zero_skip, reset_state_vec,
}

-- The bytes of entry `i` of a table of `bytes` bytes each, the lowest first. The source casts the
-- table to words of 2 and of 4 bytes, which read them in this order where the lowest is first.
unfoldable pub load_value : (ℕ → ℕ) → ℕ → ℕ → ℕ → ℕ
load_value values bytes i zero = 0
load_value values bytes i (suc j) =
    bit_or (load_value values bytes i j) (shl (values (i * bytes + j)) (8 * j))

abbrev pub entry_of : (ℕ → ℕ) → ℕ → ℕ → ℕ
entry_of values length i = load_value values ((length + 7) / 8) i ((length + 7) / 8)

unfoldable pub lda_index : (ℕ → ℕ) → ℕ → ℕ → ℕ → ℕ → ℕ → ℕ
lda_index values index_start index_length value_start value_length lcv =
    let input_int = shr (bit_and lcv (bit_reg_mask index_start index_length)) index_start in
    bit_or lcv (shl (entry_of values value_length input_int) value_start)

-- Where `IndexedADC` takes an index whose carry bit is 0; `combine` is how it has the new value from
-- the table's and the register's. `IndexedSBC` does the same.
unfoldable pub adc_index : (ℕ → ℕ → ℕ) → ℕ → (ℕ → ℕ) → ℕ → ℕ → ℕ → ℕ → ℕ → ℕ → ℕ
adc_index combine n values index_start index_length value_start value_length carry lcv =
    let length_power = pow2 value_length in
    let carry_mask = pow2 carry in
    let input_mask = bit_reg_mask index_start index_length in
    let output_mask = bit_reg_mask value_start value_length in
    let other_mask =
      bit_and (pow2_mask n) (complement (bit_or (bit_or input_mask output_mask) carry_mask)) in
    let other_res = bit_and lcv other_mask in
    let input_res = bit_and lcv input_mask in
    let output_int =
      combine (entry_of values value_length (shr input_res index_start))
        (shr (bit_and lcv output_mask) value_start)
      % word_power in
    if ltb output_int length_power
    then bit_or (bit_or (shl output_int value_start) input_res) other_res
    else bit_or (bit_or (bit_or (shl (output_int - length_power) value_start) input_res) other_res)
        carry_mask

unfoldable pub hash_index : (ℕ → ℕ) → ℕ → ℕ → ℕ → ℕ
hash_index values start length lcv =
    let input_res = bit_and lcv (bit_reg_mask start length) in
    let output_int = entry_of values length (shr input_res start) in
    bit_or (shl output_int start) (bit_and lcv (complement input_res))

module _ {A : Type 0} (rt : Runtime A) (calls : Calls A) (values : ℕ → ℕ) where
  -- The return value, which is 0, is left out.
  unfoldable pub indexed_lda : ℕ → ℕ → ℕ → ℕ → Bool → Engine A → Result (Engine A)
  indexed_lda index_start index_length value_start value_length reset_value e =
      let n = e.qubit_count in
      let start : Engine A → Result (Engine A) =
        λ e. if reset_value then calls.set_reg value_start value_length 0 e else ok e in
      let load : Engine A → Result (Engine A) = λ e1. ok (
        zero_skip e1 λ v. reset_state_vec e1 (
          par_for_skip rt.order 0 (max_power e1) (pow2 value_start) value_length
            (λ lcv nv.
              set nv (lda_index values index_start index_length value_start value_length lcv)
                (read rt v lcv))
            (cleared rt (max_power e1)))) in
      if is_bad_bit_range index_start index_length n || is_bad_bit_range value_start value_length n
      then err invalid_argument
      else elim e.state_vec [ none ↦ ok e | some v ↦ start e >>= load ]

  -- The carry's value before the operation, after which the carry is 0.
  unfoldable pub take_carry : ℕ → Engine A → Result (Bool × Engine A)
  take_carry carry e = calls.m carry e >>= λ (b, e1).
      if b then (calls.x carry e1 >>= λ e2. ok (true, e2)) else ok (false, e1)

  -- The loop of `IndexedADC` and of `IndexedSBC`, which differ in the width that they skip.
  unfoldable pub indexed_carry :
      (Bool → ℕ → ℕ → ℕ) → ℕ → ℕ → ℕ → ℕ → ℕ → ℕ → Engine A → Result (Engine A)
  indexed_carry combine width index_start index_length value_start value_length carry e =
      let n = e.qubit_count in
      let add : Bool × Engine A → Result (Engine A) = λ (b, e1). ok (
        zero_skip e1 λ v. reset_state_vec e1 (
          par_for_skip rt.order 0 (max_power e1) (pow2 carry) width
            (λ lcv nv.
              set nv
                (adc_index (combine b) n values index_start index_length value_start value_length
                  carry lcv)
                (read rt v lcv))
            (cleared rt (max_power e1)))) in
      if (is_bad_bit_range index_start index_length n
          || is_bad_bit_range value_start value_length n)
        || leb n carry
      then err invalid_argument
      else elim e.state_vec [ none ↦ ok e | some v ↦ take_carry carry e >>= add ]

  unfoldable pub indexed_adc : ℕ → ℕ → ℕ → ℕ → ℕ → Engine A → Result (Engine A)
  indexed_adc index_start index_length value_start value_length carry e =
      indexed_carry (λ carry_in entry value. entry + (value + (if carry_in then 1 else 0))) 1
        index_start index_length value_start value_length carry e

  -- `IndexedSBC` skips as many bits from the carry on as the value has.
  unfoldable pub indexed_sbc : ℕ → ℕ → ℕ → ℕ → ℕ → Engine A → Result (Engine A)
  indexed_sbc index_start index_length value_start value_length carry e =
      indexed_carry
        (λ borrow entry value.
          value
          + (pow2 value_length + word_power - (entry + (if borrow then 0 else 1)) % word_power)
            % word_power)
        value_length index_start index_length value_start value_length carry e

  unfoldable pub hash : ℕ → ℕ → Engine A → Result (Engine A)
  hash start length e =
      if is_bad_bit_range start length e.qubit_count
      then err invalid_argument
      else ok (
          zero_skip e λ v. reset_state_vec e (
            par_for rt.order 0 (max_power e)
              (λ lcv nv. set nv (hash_index values start length lcv) (read rt v lcv))
              (cleared rt (max_power e))))

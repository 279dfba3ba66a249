-- ===== src/Engine/Modular.antt =====
-- `MULModNOut`, `IMULModNOut`, `POWModNOut` and their controlled forms
-- (src/qengine/arithmetic.cpp): a function of one register modulo N, written to another.
use Prim.Native.Nat.{bit_and, bit_or, bit_xor}
use qrack.Prelude.{
  ℕ, ◌+◌, ◌-◌, ◌*◌, ◌%◌, ◌==◌, Bool, true, false, ◌||◌, List, [], ◌∷◌, ◌++◌, set, length,
  if◌then◌else◌, Result, ok, err, invalid_argument, ◌>>=◌,
}
use qrack.BigInteger.Words.{word_power}
use qrack.Bits.Word.{shl, shr, pow2, pow2_mask}
use qrack.Ranges.{is_bad_bit_range, throw_if_qb_id_array_is_bad}
use qrack.Parallel.Order.{par_for_skip, par_for_mask}
use qrack.Engine.State.{
  Engine, Runtime, Calls, read, cleared, max_power, zero_skip, reset_state_vec,
}
use qrack.Engine.Targets.{control_mask, sort_powers, powers}
use qrack.Integers.{int_pow, log2_ocl, is_power_of_two}
use qrack.Engine.Multiply.{register_powers, keep_uncontrolled}

-- The mask that `ModNOut` has for the values below N.
unfoldable pub mod_mask : ℕ → ℕ
mod_mask mod_n = (if is_power_of_two mod_n then mod_n else pow2 (log2_ocl mod_n + 1)) - 1

-- The index that `ModNOut` has for the value of its function, with the bits of `out_mask` cleared.
unfoldable pub mod_index : (ℕ → ℕ) → ℕ → ℕ → ℕ → ℕ → ℕ → ℕ → ℕ → ℕ
mod_index kernel n mod_n in_start out_start length out_mask lcv =
    let in_mask = shl (pow2_mask length) in_start in
    let other_mask = bit_xor (pow2_mask n) (bit_or in_mask out_mask) in
    let other_res = bit_and lcv other_mask in
    let in_res = bit_and lcv in_mask in
    let out_res = shl (kernel (shr in_res in_start) % mod_n) out_start in
    bit_or (bit_or in_res out_res) other_res

module _ {A : Type 0} (rt : Runtime A) (calls : Calls A) where
  unfoldable pub mod_n_out : (ℕ → ℕ) → ℕ → ℕ → ℕ → ℕ → Bool → Engine A → Result (Engine A)
  mod_n_out kernel mod_n in_start out_start length inverse e =
      let n = e.qubit_count in
      let out_mask = shl (mod_mask mod_n) out_start in
      let out : ℕ → ℕ = λ lcv. mod_index kernel n mod_n in_start out_start length out_mask lcv in
      if is_bad_bit_range in_start length n || is_bad_bit_range out_start length n
      then err invalid_argument
      else ok (
          zero_skip e λ v. reset_state_vec e (
            par_for_skip rt.order 0 (max_power e) (pow2 out_start) length
              (λ lcv nv.
                if inverse
                then set nv lcv (read rt v (out lcv))
                else set nv (out lcv) (read rt v lcv))
              (cleared rt (max_power e))))

  unfoldable pub mul_mod_n_out : ℕ → ℕ → ℕ → ℕ → ℕ → Engine A → Result (Engine A)
  mul_mod_n_out to_mod mod_n in_start out_start length e =
      calls.set_reg out_start length 0 e >>= λ e1.
      if to_mod == 0
      then ok e1
      else mod_n_out (λ i. i * to_mod % word_power) mod_n in_start out_start length false e1

  unfoldable pub imul_mod_n_out : ℕ → ℕ → ℕ → ℕ → ℕ → Engine A → Result (Engine A)
  imul_mod_n_out to_mod mod_n in_start out_start length e =
      if to_mod == 0
      then ok e
      else mod_n_out (λ i. i * to_mod % word_power) mod_n in_start out_start length true e

  unfoldable pub pow_mod_n_out : ℕ → ℕ → ℕ → ℕ → ℕ → Engine A → Result (Engine A)
  pow_mod_n_out to_mod mod_n in_start out_start length e =
      if to_mod == 1
      then calls.set_reg out_start length 1 e
      else mod_n_out (λ i. int_pow 64 to_mod i) mod_n in_start out_start length false e

  unfoldable pub cmod_n_out : (ℕ → ℕ) → ℕ → ℕ → ℕ → ℕ → List ℕ → Bool → Engine A → Result (Engine A)
  cmod_n_out kernel mod_n in_start out_start length controls inverse e =
      let n = e.qubit_count in
      let mask = control_mask controls in
      let out_mask = bit_or (shl (pow2_mask length) out_start) mask in
      let out : ℕ → ℕ =
        λ lcv. bit_or (mod_index kernel n mod_n in_start out_start length out_mask lcv) mask in
      if (is_bad_bit_range in_start length n || is_bad_bit_range out_start length n)
        || throw_if_qb_id_array_is_bad controls n
      then err invalid_argument
      else ok (
          zero_skip e λ v. reset_state_vec e (
            par_for_mask rt.order 0 (max_power e)
              (sort_powers (powers controls ++ register_powers out_start length))
              (λ lcv nv. keep_uncontrolled rt calls controls lcv v (
                if inverse
                then set nv (bit_or lcv mask) (read rt v (out lcv))
                else set nv (out lcv) (read rt v (bit_or lcv mask))))
              (cleared rt (max_power e))))

  unfoldable pub cmul_mod_n_out : ℕ → ℕ → ℕ → ℕ → ℕ → List ℕ → Engine A → Result (Engine A)
  cmul_mod_n_out to_mod mod_n in_start out_start length [] e =
      mul_mod_n_out to_mod mod_n in_start out_start length e
  cmul_mod_n_out to_mod mod_n in_start out_start length (c ∷ cs) e =
      calls.set_reg out_start length 0 e >>= λ e1.
      cmod_n_out (λ i. i * to_mod % word_power) mod_n in_start out_start length (c ∷ cs) false e1

  unfoldable pub cimul_mod_n_out : ℕ → ℕ → ℕ → ℕ → ℕ → List ℕ → Engine A → Result (Engine A)
  cimul_mod_n_out to_mod mod_n in_start out_start length [] e =
      imul_mod_n_out to_mod mod_n in_start out_start length e
  cimul_mod_n_out to_mod mod_n in_start out_start length (c ∷ cs) e =
      cmod_n_out (λ i. i * to_mod % word_power) mod_n in_start out_start length (c ∷ cs) true e

  unfoldable pub cpow_mod_n_out : ℕ → ℕ → ℕ → ℕ → ℕ → List ℕ → Engine A → Result (Engine A)
  cpow_mod_n_out to_mod mod_n in_start out_start length [] e =
      pow_mod_n_out to_mod mod_n in_start out_start length e
  cpow_mod_n_out to_mod mod_n in_start out_start length (c ∷ cs) e =
      cmod_n_out (λ i. int_pow 64 to_mod i) mod_n in_start out_start length (c ∷ cs) false e

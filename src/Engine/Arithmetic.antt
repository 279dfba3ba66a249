-- ===== src/Engine/Arithmetic.antt =====
-- `ROL`, `INC`, `CINC`, `INCDECC`, `INCS` and both `INCDECSC` of src/qengine/arithmetic.cpp.
use Prim.Native.Nat.{bit_and, bit_or}
use qrack.Prelude.{
  ℕ, ◌+◌, ◌-◌, ◌%◌, ◌==◌, Bool, ◌&&◌, ◌||◌, List, [], ◌∷◌, set, leb, if◌then◌else◌, Result, ok, err,
  invalid_argument,
}
use qrack.BigInteger.Words.{word_power}
use qrack.Bits.Word.{pow2, pow2_mask}
use qrack.Ranges.{is_bad_bit_range, throw_if_qb_id_array_is_bad}
use qrack.Parallel.Order.{par_for, par_for_skip, par_for_mask}
use qrack.Engine.Targets.{
  rol_index, inc_index, control_mask, sort_powers, powers, cinc_index, carry_index, incs_index,
  is_overflow_add, register_value,
}
use qrack.Engine.State.{
  Engine, Runtime, read, cleared, max_power, zero_skip, zero_skip_result, reset_state_vec,
}

-- `pow2(length) - toSub`, which wraps around.
unfoldable pub less : ℕ → ℕ → ℕ
less length to_sub = (pow2 length + word_power - to_sub) % word_power

module _ {A : Type 0} (rt : Runtime A) where
  unfoldable pub rol : ℕ → ℕ → ℕ → Engine A → Result (Engine A)
  rol shift start length e =
      let n = e.qubit_count in
      let by = shift % length in
      if is_bad_bit_range start length n
      then err invalid_argument
      else ok (
          zero_skip e λ v.
            if length == 0
            then e
            else if by == 0
            then e
            else reset_state_vec e (
                par_for rt.order 0 (max_power e)
                  (λ lcv nv. set nv (rol_index n by start length lcv) (read rt v lcv))
                  (rt.alloc (max_power e))))

  unfoldable pub inc : ℕ → ℕ → ℕ → Engine A → Result (Engine A)
  inc to_add start length e =
      let n = e.qubit_count in
      let adding = bit_and to_add (pow2_mask length) in
      if is_bad_bit_range start length n
      then err invalid_argument
      else ok (
          zero_skip e λ v.
            if length == 0
            then e
            else if adding == 0
            then e
            else reset_state_vec e (
                par_for rt.order 0 (max_power e)
                  (λ lcv nv. set nv (inc_index n adding start length lcv) (read rt v lcv))
                  (rt.alloc (max_power e))))

  -- `DEC` of src/qalu.cpp.
  unfoldable pub dec : ℕ → ℕ → ℕ → Engine A → Result (Engine A)
  dec to_sub start length e = inc (less length to_sub) start length e

  unfoldable pub cinc : ℕ → ℕ → ℕ → List ℕ → Engine A → Result (Engine A)
  cinc to_add start length [] e = zero_skip_result e λ v. inc to_add start length e
  cinc to_add start length (c ∷ cs) e =
      let n = e.qubit_count in
      let adding = bit_and to_add (pow2_mask length) in
      let mask = control_mask (c ∷ cs) in
      zero_skip_result e λ v.
        if is_bad_bit_range start length n || throw_if_qb_id_array_is_bad (c ∷ cs) n
        then err invalid_argument
        else if length == 0
        then ok e
        else if adding == 0
        then ok e
        else ok (
            reset_state_vec e (
              par_for_mask rt.order 0 (max_power e) (sort_powers (powers (c ∷ cs)))
                (λ lcv nv.
                  set nv (cinc_index n adding start length mask lcv) (read rt v (bit_or lcv mask)))
                v))

  unfoldable pub incdecc : ℕ → ℕ → ℕ → ℕ → Engine A → Result (Engine A)
  incdecc to_mod start length carry e =
      let n = e.qubit_count in
      let adding = bit_and to_mod (pow2_mask length) in
      if is_bad_bit_range start length n || leb n carry
      then err invalid_argument
      else ok (
          zero_skip e λ v.
            if length == 0
            then e
            else if adding == 0
            then e
            else reset_state_vec e (
                par_for_skip rt.order 0 (max_power e) (pow2 carry) 1
                  (λ lcv nv. set nv (carry_index n adding start length carry lcv) (read rt v lcv))
                  (cleared rt (max_power e))))

  -- An amplitude, with its sign changed on an overflow.
  abbrev pub flipped : Bool → List A → ℕ → A
  flipped b v lcv = if b then rt.negate (read rt v lcv) else read rt v lcv

  unfoldable pub incs : ℕ → ℕ → ℕ → ℕ → Engine A → Result (Engine A)
  incs to_add start length overflow e =
      let n = e.qubit_count in
      let adding = bit_and to_add (pow2_mask length) in
      let overflows : ℕ → Bool = λ lcv.
        is_overflow_add (register_value start length lcv) adding (pow2 (length - 1)) (pow2 length)
        && bit_and (incs_index n adding start length lcv) (pow2 overflow) == pow2 overflow in
      if is_bad_bit_range start length n || leb n overflow
      then err invalid_argument
      else ok (
          zero_skip e λ v.
            if length == 0
            then e
            else if adding == 0
            then e
            else reset_state_vec e (
                par_for rt.order 0 (max_power e)
                  (λ lcv nv.
                    set nv (incs_index n adding start length lcv) (flipped (overflows lcv) v lcv))
                  (cleared rt (max_power e))))

  -- `INCDECSC` with a carry.
  unfoldable pub incdecsc : ℕ → ℕ → ℕ → ℕ → Engine A → Result (Engine A)
  incdecsc to_mod start length carry e =
      let n = e.qubit_count in
      let adding = bit_and to_mod (pow2_mask length) in
      let overflows : ℕ → Bool = λ lcv.
        is_overflow_add (register_value start length lcv) adding (pow2 (length - 1))
          (pow2 length) in
      if is_bad_bit_range start length n || leb n carry
      then err invalid_argument
      else ok (
          zero_skip e λ v.
            if length == 0
            then e
            else if adding == 0
            then e
            else reset_state_vec e (
                par_for_skip rt.order 0 (max_power e) (pow2 carry) 1
                  (λ lcv nv.
                    set nv (carry_index n adding start length carry lcv)
                      (flipped (overflows lcv) v lcv))
                  (cleared rt (max_power e))))

  -- `INCDECSC` with an overflow and a carry.
  unfoldable pub incdecsc_overflow : ℕ → ℕ → ℕ → ℕ → ℕ → Engine A → Result (Engine A)
  incdecsc_overflow to_mod start length overflow carry e =
      let n = e.qubit_count in
      let adding = bit_and to_mod (pow2_mask length) in
      let overflows : ℕ → Bool = λ lcv.
        is_overflow_add (register_value start length lcv) adding (pow2 (length - 1)) (pow2 length)
        && bit_and (carry_index n adding start length carry lcv) (pow2 overflow) == pow2 overflow in
      if is_bad_bit_range start length n || (leb n carry || leb n overflow)
      then err invalid_argument
      else ok (
          zero_skip e λ v.
            if length == 0
            then e
            else if adding == 0
            then e
            else reset_state_vec e (
                par_for_skip rt.order 0 (max_power e) (pow2 carry) 1
                  (λ lcv nv.
                    set nv (carry_index n adding start length carry lcv)
                      (flipped (overflows lcv) v lcv))
                  (cleared rt (max_power e))))

-- ===== src/Engine/Targets.antt =====
-- The functions that the loops of `ROL`, `INC`, `CINC`, `INCDECC`, `INCS` and `INCDECSC`
-- (src/qengine/arithmetic.cpp) hand their indices to: where the amplitude of an index goes.
use Prim.Native.Nat.{bit_and, bit_or, bit_xor}
use qrack.Prelude.{ℕ, ◌+◌, ◌-◌, ◌%◌, ◌==◌, Bool, not, ◌&&◌, List, [], ◌∷◌, ltb, leb, if◌then◌else◌}
use qrack.BigInteger.Words.{word_power}
use qrack.Bits.Word.{shl, shr, complement, pow2, pow2_mask}

-- Where `ROL` by `shift`, which is below `length`, takes index `lcv`.
unfoldable pub rol_index : ℕ → ℕ → ℕ → ℕ → ℕ → ℕ
rol_index n shift start length lcv =
    let length_mask = pow2_mask length in
    let reg_mask = shl length_mask start in
    let other_mask = bit_xor (pow2_mask n) reg_mask in
    let other_res = bit_and lcv other_mask in
    let reg_int = shr (bit_and lcv reg_mask) start in
    let out_int = bit_or (shr reg_int (length - shift)) (bit_and (shl reg_int shift) length_mask) in
    bit_or (shl out_int start) other_res

-- Where `INC` takes an index.
unfoldable pub inc_index : ℕ → ℕ → ℕ → ℕ → ℕ → ℕ
inc_index n to_add start length lcv =
    let length_mask = pow2_mask length in
    let in_out_mask = shl length_mask start in
    let other_mask = bit_xor (pow2_mask n) in_out_mask in
    let other_res = bit_and lcv other_mask in
    let in_out_int = shr (bit_and lcv in_out_mask) start in
    let out_int = bit_and ((in_out_int + to_add) % word_power) length_mask in
    bit_or (shl out_int start) other_res

-- `|` of the powers of the controls.
unfoldable pub control_mask : List ℕ → ℕ
control_mask [] = 0
control_mask (c ∷ cs) = bit_or (pow2 c) (control_mask cs)

-- `std::sort` of the powers.
unfoldable pub insert_power : ℕ → List ℕ → List ℕ
insert_power p [] = p ∷ []
insert_power p (q ∷ qs) = let rest = insert_power p qs in if leb p q then p ∷ q ∷ qs else q ∷ rest

unfoldable pub sort_powers : List ℕ → List ℕ
sort_powers [] = []
sort_powers (p ∷ ps) = insert_power p (sort_powers ps)

abbrev pub powers : List ℕ → List ℕ
powers [] = []
powers (c ∷ cs) = pow2 c ∷ powers cs

-- Where `CINC` takes the index `lcv | controlMask`.
unfoldable pub cinc_index : ℕ → ℕ → ℕ → ℕ → ℕ → ℕ → ℕ
cinc_index n to_add start length mask lcv =
    let length_mask = pow2_mask length in
    let in_out_mask = shl length_mask start in
    let other_mask = bit_xor (pow2_mask n) (bit_or in_out_mask mask) in
    let other_res = bit_and lcv other_mask in
    let in_out_int = shr (bit_and lcv in_out_mask) start in
    let out_int = bit_and ((in_out_int + to_add) % word_power) length_mask in
    bit_or (bit_or (shl out_int start) other_res) mask

-- Where `INCDECC` takes an index whose carry bit is 0. `INCDECSC` does the same.
unfoldable pub carry_index : ℕ → ℕ → ℕ → ℕ → ℕ → ℕ → ℕ
carry_index n to_mod start length carry lcv =
    let length_power = pow2 length in
    let carry_mask = pow2 carry in
    let in_out_mask = shl (pow2_mask length) start in
    let other_mask = bit_xor (pow2_mask n) (bit_or in_out_mask carry_mask) in
    let other_res = bit_and lcv other_mask in
    let in_out_int = shr (bit_and lcv in_out_mask) start in
    let out_int = (in_out_int + to_mod) % word_power in
    if ltb out_int length_power
    then bit_or (shl out_int start) other_res
    else bit_or (bit_or (shl (out_int - length_power) start) other_res) carry_mask

-- Where `INCS` takes an index.
unfoldable pub incs_index : ℕ → ℕ → ℕ → ℕ → ℕ → ℕ
incs_index n to_add start length lcv =
    let length_power = pow2 length in
    let in_out_mask = shl (pow2_mask length) start in
    let other_mask = bit_xor (pow2_mask n) in_out_mask in
    let other_res = bit_and lcv other_mask in
    let in_out_int = shr (bit_and lcv in_out_mask) start in
    let out_int = (in_out_int + to_add) % word_power in
    if ltb out_int length_power
    then bit_or (shl out_int start) other_res
    else bit_or (shl (out_int - length_power) start) other_res

-- `((~a) & (lengthPower - 1U)) + 1U`.
abbrev pub negated : ℕ → ℕ → ℕ
negated a length_power = (bit_and (complement a) (length_power - 1) + 1) % word_power

-- `isOverflowAdd` of src/common/functions.cpp.
unfoldable pub is_overflow_add : ℕ → ℕ → ℕ → ℕ → Bool
is_overflow_add in_out_int in_int sign_mask length_power =
    if not (bit_and (bit_and in_out_int in_int) sign_mask == 0)
    then ltb sign_mask
        ((negated in_out_int length_power + negated in_int length_power) % word_power)
    else not (bit_and (bit_and (complement in_out_int) (complement in_int)) sign_mask == 0)
      && leb sign_mask ((in_out_int + in_int) % word_power)

-- The value of the register at an index.
abbrev pub register_value : ℕ → ℕ → ℕ → ℕ
register_value start length lcv = shr (bit_and lcv (shl (pow2_mask length) start)) start

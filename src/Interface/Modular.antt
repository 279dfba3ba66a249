-- ===== src/Interface/Modular.antt =====
-- `MULModNOut`, its inverse and their controlled forms (src/qinterface/arithmetic.cpp).
use qrack.Prelude.{ℕ, ◌+◌, ◌-◌, ◌*◌, ◌/◌, ◌%◌, ◌==◌, List, [], ◌∷◌, ◌++◌, for_upto, if◌then◌else◌}
use qrack.BigInteger.Words.{word_power}
use qrack.Bits.Word.{pow2}
use qrack.Integers.{log2_ocl, is_power_of_two}
use qrack.Interface.Gates.{Gates}
use qrack.Interface.Sums.{inc, dec, cinc, cdec}

-- The width of the output.
unfoldable pub output_length : ℕ → ℕ
output_length mod_n = if is_power_of_two mod_n then log2_ocl mod_n else log2_ocl mod_n + 1

unfoldable pub part_mul : ℕ → ℕ → ℕ → ℕ
part_mul to_mul mod_n i = to_mul * pow2 i % word_power % mod_n

unfoldable pub mod_control : ℕ → ℕ → ℕ → ℕ
mod_control mod_n in_start length = in_start + length - (log2_ocl (pow2 length / mod_n) + 1)

module _ {S : Type 0} (g : Gates S) where
  unfoldable pub cmul_mod_n_out : ℕ → ℕ → ℕ → ℕ → ℕ → List ℕ → S → S
  cmul_mod_n_out to_mul mod_n in_start out_start length controls s =
      let o_length = output_length mod_n in
      let diff_pow = pow2 length / mod_n in
      let top = mod_control mod_n in_start length in
      let multiplied =
        for_upto length
          (λ i s.
            let part = part_mul to_mul mod_n i in
            if part == 0
            then s
            else cinc g part out_start o_length (controls ++ (in_start + i) ∷ []) s)
          s in
      if is_power_of_two mod_n
      then multiplied
      else for_upto diff_pow (λ i s. cinc g mod_n in_start length controls s)
          (for_upto diff_pow
            (λ i s. g.x top (
              cdec g mod_n out_start o_length (controls ++ top ∷ [])
                (g.x top (cdec g mod_n in_start length controls s))))
            multiplied)

  unfoldable pub cimul_mod_n_out : ℕ → ℕ → ℕ → ℕ → ℕ → List ℕ → S → S
  cimul_mod_n_out to_mul mod_n in_start out_start length controls s =
      let o_length = output_length mod_n in
      let diff_pow = pow2 length / mod_n in
      let top = mod_control mod_n in_start length in
      let reduced =
        if is_power_of_two mod_n
        then s
        else for_upto diff_pow
            (λ i s.
              cinc g mod_n in_start length controls
                (g.x top (cinc g mod_n out_start o_length (controls ++ top ∷ []) (g.x top s))))
            (for_upto diff_pow (λ i s. cdec g mod_n in_start length controls s) s) in
      for_upto length
        (λ i s.
          let part = part_mul to_mul mod_n i in
          if part == 0
          then s
          else cdec g part out_start o_length (controls ++ (in_start + i) ∷ []) s)
        reduced

  unfoldable pub mul_mod_n_out : ℕ → ℕ → ℕ → ℕ → ℕ → S → S
  mul_mod_n_out to_mul mod_n in_start out_start length s =
      let o_length = output_length mod_n in
      let diff_pow = pow2 length / mod_n in
      let top = mod_control mod_n in_start length in
      let multiplied =
        for_upto length
          (λ i s.
            let part = part_mul to_mul mod_n i in
            if part == 0 then s else cinc g part out_start o_length ((in_start + i) ∷ []) s)
          s in
      if is_power_of_two mod_n
      then multiplied
      else for_upto diff_pow (λ i s. inc g mod_n in_start length s)
          (for_upto diff_pow
            (λ i s. g.x top (
              cdec g mod_n out_start o_length (top ∷ []) (g.x top (dec g mod_n in_start length s))))
            multiplied)

  unfoldable pub imul_mod_n_out : ℕ → ℕ → ℕ → ℕ → ℕ → S → S
  imul_mod_n_out to_mul mod_n in_start out_start length s =
      let o_length = output_length mod_n in
      let diff_pow = pow2 length / mod_n in
      let top = mod_control mod_n in_start length in
      let reduced =
        if is_power_of_two mod_n
        then s
        else for_upto diff_pow
            (λ i s.
              inc g mod_n in_start length
                (g.x top (cinc g mod_n out_start o_length (top ∷ []) (g.x top s))))
            (for_upto diff_pow (λ i s. dec g mod_n in_start length s) s) in
      for_upto length
        (λ i s.
          let part = part_mul to_mul mod_n i in
          if part == 0 then s else cdec g part out_start o_length ((in_start + i) ∷ []) s)
        reduced

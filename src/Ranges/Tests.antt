-- ===== src/Ranges/Tests.antt =====
-- The theorems about ranges at a range that wraps around.
use qrack.Prelude.{◌↔◌, false, [], ◌∷◌, ◌≡◌}
use qrack.Ranges.Distinct.{IsDistinct, throw_if_qb_id_array_is_bad-IsDistinct}
use qrack.Ranges.{throw_if_qb_id_array_is_bad}

throw_if_qb_id_array_is_bad-IsDistinct_example :
    (throw_if_qb_id_array_is_bad (2 ∷ 0 ∷ 2 ∷ []) 3 ≡ false) ↔ IsDistinct (2 ∷ 0 ∷ 2 ∷ []) 3
throw_if_qb_id_array_is_bad-IsDistinct_example =
    throw_if_qb_id_array_is_bad-IsDistinct (2 ∷ 0 ∷ 2 ∷ []) 3

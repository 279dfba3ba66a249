-- ===== src/Ranges/Distinct.antt =====
-- When `ThrowIfQbIdArrayIsBad` throws.
use qrack.Prelude.{
  ℕ, ◌≤◌, ◌≡◌, ◌↔◌, arith, refl, false, not, ◌&&◌, List, [], ◌∷◌, if◌then◌else◌, ltb, ==_refl,
}
use qrack.Parallel.Order.{count}
use qrack.Ranges.{has_duplicate, throws_from, throw_if_qb_id_array_is_bad}

-- Every qubit is in the list at most once, and nothing else is.
abbrev pub IsDistinct : List ℕ → ℕ → Type 0
IsDistinct controls n = (k : ℕ) → count k controls ≤ (if ltb k n then 1 else 0)

-- The same for the controls that are left, none of which is among those seen.
abbrev IsNew : List ℕ → List ℕ → ℕ → Type 0
IsNew dupes controls n =
    (k : ℕ) → count k controls ≤ (if ltb k n && not (has_duplicate k dupes) then 1 else 0)

throws_from-IsNew :
    (dupes controls : List ℕ) (n : ℕ)
    → throws_from dupes controls n ≡ false
    → IsNew dupes controls n
unfolding throws_from has_duplicate
throws_from-IsNew dupes [] n h k = omega arith
throws_from-IsNew dupes (c ∷ cs) n h k =
    ground (arith, h, throws_from-IsNew (c ∷ dupes) cs n (ground (arith, h)) k)

IsNew-throws_from :
    (dupes controls : List ℕ) (n : ℕ)
    → IsNew dupes controls n
    → throws_from dupes controls n ≡ false
unfolding throws_from has_duplicate
IsNew-throws_from dupes [] n h = refl
IsNew-throws_from dupes (c ∷ cs) n h =
    ground (arith, h c, ==_refl c, IsNew-throws_from (c ∷ dupes) cs n (λ k. ground (arith, h k)))

-- `ThrowIfQbIdArrayIsBad` does not throw exactly if the controls are qubits of the engine and no two
-- of them are the same.
pub throw_if_qb_id_array_is_bad-IsDistinct :
    (controls : List ℕ) (n : ℕ)
    → (throw_if_qb_id_array_is_bad controls n ≡ false) ↔ IsDistinct controls n
unfolding throw_if_qb_id_array_is_bad has_duplicate
throw_if_qb_id_array_is_bad-IsDistinct controls n = (
  λ h k. ground (arith, throws_from-IsNew [] controls n h k),
  λ h. IsNew-throws_from [] controls n (λ k. ground (arith, h k)),
)

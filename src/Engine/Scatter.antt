-- ===== src/Engine/Scatter.antt =====
-- What a loop that writes each amplitude to a place of its own leaves, in whatever order it runs.
use qrack.Prelude.{
  ℕ, ◌<◌, ◌≡◌, ◌≢◌, refl, ◌∙◌, arith, List, [], ◌∷◌, length, set, get_or, get_or-set, length-set,
  ltb, Bool-cases, inl, inr,
}
use qrack.Parallel.Order.{count, visit}

module _ {A : Type 0} (d : A) (n : ℕ) (f g : ℕ → ℕ) (v : List A) where
  abbrev write_one : ℕ → List A → List A
  write_one j nv = set nv (g j) (get_or v (f j) d)

  pub length-visit : (js : List ℕ) (nv : List A) → length (visit js write_one nv) ≡ length nv
  unfolding visit
  length-visit [] nv = refl
  length-visit (j ∷ js) nv =
      length-visit js (write_one j nv) ∙ length-set nv (g j) (get_or v (f j) d)

  -- A place that no iteration writes keeps its value.
  pub visit_kept :
      (js : List ℕ) (nv : List A) (k : ℕ)
      → ((j : ℕ) → 0 < count j js → g j ≢ k)
      → get_or (visit js write_one nv) k d ≡ get_or nv k d
  unfolding visit
  visit_kept [] nv k h = refl
  visit_kept (j ∷ js) nv k h =
      visit_kept js (write_one j nv) k (λ i p. h i (omega arith))
      ∙ ground (arith, get_or-set nv (g j) k (get_or v (f j) d) d, h j (ground arith))

  -- A place that an iteration writes has what that iteration read, if no other one writes it.
  pub visit_written :
      (js : List ℕ) (nv : List A) (j : ℕ)
      → 0 < count j js
      → g j < length nv
      → ((i : ℕ) → 0 < count i js → g i ≡ g j → i ≡ j)
      → get_or (visit js write_one nv) (g j) d ≡ get_or v (f j) d
  unfolding visit
  visit_written [] nv j h l only = absurd (omega arith)
  visit_written (i ∷ js) nv j h l only = elim (Bool-cases (ltb 0 (count j js))) [
    | inl e ↦
        visit_written js (write_one i nv) j (ground (arith, e))
          (omega (arith, length-set nv (g i) (get_or v (f i) d))) (λ k p. only k (omega arith))
    | inr e ↦
        visit_kept js (write_one i nv) (g j) (λ k p q. ground (arith, e, only k (omega arith) q))
        ∙ ground (arith, e, get_or-set nv (g i) (g j) (get_or v (f i) d) d)
  ]

-- ===== src/Stabilizer/MeasureKeeps.antt =====
-- A random outcome keeps the invariant.
use qrack.Prelude.{
  ℕ, ◌+◌, ◌*◌, ◌%◌, ◌<◌, ◌≡◌, ◌≢◌, ◌∙◌, arith, Bool, true, false, if◌then◌else◌, ◌==◌, bit,
}
use qrack.Stabilizer.Row.{Row, mult_row, observable}
use qrack.Stabilizer.Pauli.{IsRow, anticommute}
use qrack.Stabilizer.Product.{anticommute_comm, anticommute_self, clifford-parity, bit_x-mult_row}
use qrack.Stabilizer.Tableau.{Tableau, row}
use qrack.Stabilizer.Measure.{collapse}
use qrack.Stabilizer.Observable.{anticommute-observable_z}
use qrack.Stabilizer.Valid.{
  partners, Keeps, make-Keeps, Keeps-symplectic, Keeps-real, keeps_row, mult_if,
  anticommute-mult_if, anticommute-mult_if_both,
}
use qrack.Stabilizer.Collapse.{
  outcome_row, final_row, pivot_row as pivot_row_of, outcome_x as outcome_x_of, row-collapse,
  collapse-shape, collapse-count, anticommute_sign,
}

module _ {n : ℕ} {s : Tableau} (h : Keeps n s) (t p : ℕ) (result : Bool) (small : n < 128)
    (ht : t < n) (hp : p < n) (anti : bit (row s (p + n)).x t ≡ true) where
  abbrev final : ℕ → Row
  final = final_row n s t p result

  pivot_row : IsRow n (row s (p + n))
  pivot_row = pivot_row_of h t p result small ht hp anti

  outcome_x : bit (outcome_row n t result).x t ≡ false
  outcome_x = outcome_x_of h t p result small ht hp anti

  row_in : (j : ℕ) → j < 2 * n → IsRow n (row s j)
  row_in j hj = keeps_row h j (omega arith)

  -- Only the pivot row has an X or a Y at `t` now.
  pub final_x : (j : ℕ) → j < 2 * n → bit (final j).x t ≡ (j == p)
  final_x j hj = ground (arith, anti, outcome_x, bit_x-mult_row n (row_in j hj) pivot_row t)

  outcome_clash : (a : Row) → anticommute n (outcome_row n t result) a ≡ bit a.x t
  outcome_clash a =
      anticommute_sign n (if result then 2 else 0) (observable n (t + n)) a
      ∙ anticommute-observable_z n t a ht

  abbrev other : ℕ → Row
  other j = mult_if (bit (row s j).x t) n (row s j) (row s (p + n))

  pivot_clash : (l : ℕ) → l < 2 * n → anticommute n (row s (p + n)) (final l) ≡ partners n p l
  pivot_clash l hl = ground (
    arith,
    anti,
    anticommute_self n (row s (p + n)),
    anticommute_comm n (row s (p + n)) (outcome_row n t result),
    outcome_clash (row s (p + n)),
    anticommute_comm n (row s (p + n)) (other l),
    anticommute-mult_if n (bit (row s l).x t) (row_in l hl) pivot_row (row s (p + n)),
    Keeps-symplectic h l (p + n) hl (omega arith),
  )

  outcome_partners :
      (l : ℕ) → l < 2 * n → anticommute n (outcome_row n t result) (final l) ≡ partners n (p + n) l
  outcome_partners l hl = outcome_clash (final l) ∙ final_x l hl ∙ ground arith

  other_clash :
      (j l : ℕ)
      → j < 2 * n
      → l < 2 * n
      → j ≢ p
      → l ≢ p
      → anticommute n (other j) (other l) ≡ partners n j l
  other_clash j l hj hl nj nl =
      anticommute-mult_if_both n (bit (row s j).x t) (bit (row s l).x t) (row_in j hj) pivot_row
        (row_in l hl) pivot_row
      ∙ ground (
        arith,
        Keeps-symplectic h j l hj hl,
        Keeps-symplectic h j (p + n) hj (omega arith),
        Keeps-symplectic h (p + n) l (omega arith) hl,
        anticommute_self n (row s (p + n)),
      )

  final-partners :
      (j l : ℕ) → j < 2 * n → l < 2 * n → anticommute n (final j) (final l) ≡ partners n j l
  final-partners j l hj hl = ground (
    arith,
    pivot_clash l hl,
    pivot_clash j hj,
    outcome_partners l hl,
    outcome_partners j hj,
    anticommute_comm n (other j) (row s (p + n)),
    anticommute_comm n (other j) (outcome_row n t result),
    other_clash j l hj hl,
  )

  final_real : (j : ℕ) → j < 2 * n → (final j).r % 2 ≡ 0
  unfolding mult_row
  final_real j hj = ground (
    arith,
    Keeps-real h j hj,
    Keeps-real h (p + n) (omega arith),
    clifford-parity n (row s j) (row s (p + n)),
    Keeps-symplectic h j (p + n) hj (omega arith),
  )

  -- A random outcome leaves a valid tableau.
  pub collapse-Keeps : Keeps n (collapse t p result s)
  collapse-Keeps =
      make-Keeps (collapse-count h t p result small ht hp anti)
        (collapse-shape h t p result small ht hp anti)
        (λ j l hj hl.
          rw
            (
              row-collapse h t p result small ht hp anti j hj,
              row-collapse h t p result small ht hp anti l hl,
            )
            (final-partners j l hj hl))
        (λ j hj. rw (row-collapse h t p result small ht hp anti j hj) (final_real j hj))

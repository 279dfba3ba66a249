-- ===== src/Stabilizer/GateKeeps.antt =====
-- `ParFor` with each gate, and `SetPermutation`, against the invariant.
use qrack.Prelude.{
  ℕ, suc, ◌+◌, ◌*◌, ◌%◌, ◌<◌, ◌≡◌, refl, ◌∙◌, arith, Bool, true, ltb, if◌then◌else◌, for_upto-steps,
  ◌==◌, Bool-cases, inl, inr,
}
use qrack.Stabilizer.Row.{Row}
use qrack.Stabilizer.Pauli.{IsRow}
use qrack.Stabilizer.Acts.{IsPlace}
use qrack.Stabilizer.GateActs.{Gate, place, row_of, row_of-IsRow, anticommute-row_of, row_of-Acts}
use qrack.Stabilizer.Tableau.{Tableau, elem_count, row, set_row, map_rows}
use qrack.Stabilizer.Valid.{
  IsTableau, Keeps, make-Keeps, Keeps-symplectic, Keeps-real, keeps_row, row-set_row_in,
  set_row-IsTableau,
}

-- What the loop of `ParFor` has done after `k` rows.
record IsMapped (fn : Row → Row) (s : Tableau) (k : ℕ) (t : Tableau) : Type 0 where
  shape : IsTableau t
  count : t.qubit_count ≡ s.qubit_count
  rows : (j : ℕ) → row t j ≡ (if ltb j k then fn (row s j) else row s j)

module _ (fn : Row → Row) {s : Tableau} (v : IsTableau s)
    (fits : (a : Row) → IsRow s.qubit_count a → IsRow s.qubit_count (fn a)) where
  map_round :
      (k : ℕ) (t : Tableau)
      → k < elem_count s.qubit_count
      → IsMapped fn s k t
      → IsMapped fn s (suc k) (set_row t k (fn (row t k)))
  map_round k t lt p =
      let c = p.count in
      let same : row t k ≡ row s k = ground (arith, p.rows k) in
      record {
        shape =
            set_row-IsTableau p.shape k (omega arith)
              (simp (c, same) (fits (row s k) (v.is_row k (omega arith))));
        count = c;
        rows = λ j.
            row-set_row_in p.shape k j (fn (row t k)) (omega arith)
            ∙ rw same (elim (Bool-cases (k == j)) [
              | inl e ↦ let q : k ≡ j = ground arith in rw (e, ← q) (ground arith)
              | inr e ↦ rw e (ground (arith, p.rows j))
            ]);
      }

  mapped : IsMapped fn s (elem_count s.qubit_count) (map_rows fn s)
  unfolding map_rows
  mapped =
      for_upto-steps (IsMapped fn s) (elem_count s.qubit_count) (λ i t. set_row t i (fn (row t i)))
        s map_round (record { shape = v; count = refl; rows = λ j. ground arith })

  -- The loop maps every row but the scratch row.
  pub row-map_rows :
      (j : ℕ)
      → row (map_rows fn s) j ≡ (if ltb j (elem_count s.qubit_count) then fn (row s j) else row s j)
  row-map_rows = mapped.rows

  pub map_rows-IsTableau : IsTableau (map_rows fn s)
  map_rows-IsTableau = mapped.shape

  pub map_rows-count : (map_rows fn s).qubit_count ≡ s.qubit_count
  map_rows-count = mapped.count

sign_real : (b : Bool) (r s : ℕ) → s ≡ (if b then (r + 2) % 4 else r) → r % 2 ≡ 0 → s % 2 ≡ 0
sign_real b r s e h = ground arith

module _ (n : ℕ) (small : n < 128) (g : Gate) {s : Tableau} (p : IsPlace n (place g))
    (h : Keeps n s) where
  fits : (a : Row) → IsRow s.qubit_count a → IsRow s.qubit_count (row_of g a)
  fits a q = let c = h.count in row_of-IsRow s.qubit_count g (simp c p) q q

  row_in : (i : ℕ) → i < 2 * n → row (map_rows (row_of g) s) i ≡ row_of g (row s i)
  row_in i hi =
      let c = h.count in
      let q : ltb i (elem_count s.qubit_count) ≡ true = ground arith in
      row-map_rows (row_of g) h.valid.shape fits i ∙ rw q

  pub map_rows-Keeps : Keeps n (map_rows (row_of g) s)
  map_rows-Keeps =
      make-Keeps (map_rows-count (row_of g) h.valid.shape fits ∙ h.count)
        (map_rows-IsTableau (row_of g) h.valid.shape fits)
        (λ i j hi hj.
          let a = keeps_row h i (omega arith) in
          let b = keeps_row h j (omega arith) in
          rw (row_in i hi, row_in j hj)
            (anticommute-row_of n g p a b ∙ Keeps-symplectic h i j hi hj))
        (λ i hi.
          let a = row_of-Acts n g p (keeps_row h i (omega arith)) in
          rw (row_in i hi) (sign_real _ (row s i).r _ a.phase (Keeps-real h i hi)))

-- ===== src/Stabilizer/Collapse.antt =====
-- The collapse of `ForceM`, row by row.
use qrack.Prelude.{
  ℕ, suc, ◌+◌, ◌*◌, ◌-◌, ◌<◌, ◌≡◌, ◌≢◌, refl, sym, ◌∙◌, arith, Bool, true, false, inl, inr,
  if◌then◌else◌, if_both, for_upto, for_upto-steps, ◌==◌, ltb, bit, Bool-cases,
}
use qrack.Stabilizer.Row.{Row, mult_row, observable}
use qrack.Stabilizer.Pauli.{IsRow, anticommute}
use qrack.Stabilizer.Tableau.{Tableau, elem_count, row, set_row, row_copy, row_set, row_mult}
use qrack.Stabilizer.Measure.{clear_row, collapse}
use qrack.Stabilizer.Observable.{observable-IsRow, observable_x}
use qrack.Stabilizer.Valid.{
  IsTableau, Keeps, keeps_row, row-set_row_in, set_row-IsTableau, row_mult-IsTableau, mult_if,
}

-- Z_t, or its negative for the outcome 1.
abbrev pub outcome_row : ℕ → ℕ → Bool → Row
outcome_row n t result = record (observable n (t + n)) { r = if result then 2 else 0 }

outcome_row-IsRow : (n t : ℕ) (result : Bool) → IsRow n (outcome_row n t result)
outcome_row-IsRow n t result =
    let o = observable-IsRow n (t + n) in
    record { length_x = o.length_x; length_z = o.length_z; phase = ground arith }

-- A sign does not change what a row commutes with.
pub anticommute_sign :
    (n r : ℕ) (a b : Row) → anticommute n (record a { r = r }) b ≡ anticommute n a b
unfolding anticommute
anticommute_sign n r a b = refl

-- The rows before the two loops.
abbrev pub base_row : ℕ → Tableau → ℕ → ℕ → Bool → ℕ → Row
base_row n s t p result j =
    if j == p then row s (p + n) else if j == p + n then outcome_row n t result else row s j

-- And after them.
abbrev pub final_row : ℕ → Tableau → ℕ → ℕ → Bool → ℕ → Row
final_row n s t p result j =
    if j == p
    then row s (p + n)
    else if j == p + n
    then outcome_row n t result
    else mult_if (bit (row s j).x t) n (row s j) (row s (p + n))

module _ {n : ℕ} {s : Tableau} (h : Keeps n s) (t p : ℕ) (result : Bool) (small : n < 128)
    (ht : t < n) (hp : p < n) (anti : bit (row s (p + n)).x t ≡ true) where
  abbrev base : ℕ → Row
  base = base_row n s t p result

  abbrev final : ℕ → Row
  final = final_row n s t p result

  pub pivot_row : IsRow n (row s (p + n))
  pivot_row = keeps_row h (p + n) (omega arith)

  -- What holds when the rows below `k`, but the pivot row, are done.
  record IsCleared (k : ℕ) (u : Tableau) : Type 0 where
    shape : IsTableau u
    count : u.qubit_count ≡ n
    rows : (j : ℕ) → row u j ≡ (if ltb j k then final j else base j)

  pub outcome_x : bit (outcome_row n t result).x t ≡ false
  outcome_x = ground (arith, observable_x n (t + n) t)

  -- Each row but the pivot row is multiplied by it exactly when it has an X or a Y at `t`.
  final-base : (k : ℕ) → k ≢ p → final k ≡ mult_if (bit (base k).x t) n (base k) (row s (p + n))
  final-base k ne = ground (arith, outcome_x)

  base_unless_done :
      (k : ℕ) (u : Tableau) → IsCleared k u → (row u k ≡ base k) × (row u p ≡ row s (p + n))
  base_unless_done k u c = (ground (arith, c.rows k), ground (arith, c.rows p))

  row-clear_row :
      (k j : ℕ) (u : Tableau)
      → k < 2 * n
      → IsCleared k u
      → row (clear_row t p k u) j
        ≡ (if k == j then mult_if (bit (base k).x t) n (base k) (row s (p + n)) else row u j)
  unfolding clear_row row_mult
  row-clear_row k j u lt c =
      let e = c.count in
      let (bk, bp) = base_unless_done k u c in
      elim (Bool-cases (bit (base k).x t)) [
        | inl y ↦
            rw (bk, y)
              (row-set_row_in c.shape k j (mult_row u.qubit_count (base k) (row u p)) (omega arith)
                ∙ rw (bp, e))
        | inr y ↦ rw (bk, y) (keep_row k j u bk)
      ]
    where
      keep_row :
          (k j : ℕ) (u : Tableau)
          → row u k ≡ base k
          → row u j ≡ (if k == j then base k else row u j)
      keep_row k j u e = elim (Bool-cases (k == j)) [
        | inl y ↦ let q : k ≡ j = ground arith in rw (y, ← q) e
        | inr y ↦ rw y
      ]

  clear_row-shape :
      (k : ℕ) (u : Tableau)
      → k < 2 * n
      → IsCleared k u
      → IsTableau (clear_row t p k u) × ((clear_row t p k u).qubit_count ≡ n)
  unfolding clear_row row_mult
  clear_row-shape k u lt c =
      let e = c.count in
      if_both (λ v. IsTableau v × (v.qubit_count ≡ n)) (bit (row u k).x t)
        (set_row u k (mult_row u.qubit_count (row u k) (row u p))) u
        (row_mult-IsTableau c.shape k p (omega arith), e) (c.shape, e)

  clear_row-IsCleared :
      (k : ℕ) (u : Tableau)
      → k < 2 * n
      → k ≢ p
      → IsCleared k u
      → IsCleared (suc k) (clear_row t p k u)
  clear_row-IsCleared k u lt ne c =
      let (v, e) = clear_row-shape k u lt c in
      record {
        shape = v;
        count = e;
        rows = λ j. row-clear_row k j u lt c ∙ elim (Bool-cases (k == j)) [
          | inl y ↦
              let q : k ≡ j = ground arith in
              let z : ltb j (suc k) ≡ true = ground arith in rw (y, z, ← q) (sym (final-base k ne))
          | inr y ↦ let z : ltb j (suc k) ≡ ltb j k = ground arith in rw (y, z) (c.rows j)
        ];
      }

  -- The pivot row is skipped.
  skip-IsCleared : (u : Tableau) → IsCleared p u → IsCleared (suc p) u
  skip-IsCleared u c = record { shape = c.shape; count = c.count; rows = λ j. c.rows j ∙ skip j }
    where
      skip :
          (j : ℕ)
          → (if ltb j p then final j else base j) ≡ (if ltb j (suc p) then final j else base j)
      skip j = elim (Bool-cases (j == p)) [
        | inl y ↦
            let a : ltb j p ≡ false = ground arith in
            let b : ltb j (suc p) ≡ true = ground arith in rw (a, b, y)
        | inr y ↦ let z : ltb j (suc p) ≡ ltb j p = ground arith in rw z
      ]

  -- `rowcopy`, `rowset` and the sign of the new stabilizer.
  abbrev copied : Tableau
  copied = set_row s p (row s (p + n))

  abbrev placed : Tableau
  placed = set_row copied (p + n) (observable n (t + n))

  abbrev started : Tableau
  started = set_row placed (p + n) (outcome_row n t result)

  placed-shape : IsTableau copied × IsTableau placed × IsTableau started
  placed-shape =
      let c = h.count in
      let a : IsTableau copied =
        set_row-IsTableau h.valid.shape p (omega arith) (simp c pivot_row) in
      let b : IsTableau placed =
        set_row-IsTableau a (p + n) (omega arith) (simp c (observable-IsRow n (t + n))) in
      (a, b, set_row-IsTableau b (p + n) (omega arith) (simp c (outcome_row-IsRow n t result)))

  started-IsCleared : IsCleared 0 started
  started-IsCleared =
      let c = h.count in
      let (a, b, d) = placed-shape in
      record {
        shape = d;
        count = c;
        rows = λ j.
            row-set_row_in b (p + n) j (outcome_row n t result) (omega arith)
            ∙ ground (
              arith,
              row-set_row_in a (p + n) j (observable n (t + n)) (omega arith),
              row-set_row_in h.valid.shape p j (row s (p + n)) (omega arith),
            );
      }

  placed-row : row placed (p + n) ≡ observable n (t + n)
  placed-row =
      let c = h.count in
      ground
        (arith, row-set_row_in placed-shape.0 (p + n) (p + n) (observable n (t + n)) (omega arith))

  IsCleared-at : (k l : ℕ) {u : Tableau} → k ≡ l → IsCleared k u → IsCleared l u
  IsCleared-at k l e c = rw e at c

  -- The statements of the source up to the loops.
  collapse_start :
      collapse t p result s
      ≡ for_upto
          (2 * n - (p + 1))
          (λ d u. clear_row t p (p + 1 + d) u)
          (for_upto p (λ i u. clear_row t p i u) started)
  unfolding collapse row_copy row_set
  collapse_start =
      let c = h.count in
      let e : elem_count n ≡ 2 * n = omega arith in
      let ne : (p == p + n) ≡ false = ground arith in simp (c, e, ne, placed-row)

  -- The tableau after a random outcome, row by row.
  collapse-IsCleared : IsCleared (2 * n) (collapse t p result s)
  collapse-IsCleared =
      let first =
        for_upto-steps IsCleared p (λ i u. clear_row t p i u) started
          (λ j u lt c. clear_row-IsCleared j u (omega arith) (omega arith) c) started-IsCleared in
      let body = λ (d : ℕ) (u : Tableau). clear_row t p (p + 1 + d) u in
      let middle = for_upto p (λ i u. clear_row t p i u) started in
      let second =
        for_upto-steps (λ d. IsCleared (p + 1 + d)) (2 * n - (p + 1)) body middle
          (λ j u lt c.
            IsCleared-at (suc (p + 1 + j)) (p + 1 + suc j) (omega arith)
              (clear_row-IsCleared (p + 1 + j) u (omega arith) (omega arith) c))
          (IsCleared-at (suc p) (p + 1 + 0) (omega arith) (skip-IsCleared middle first)) in
      rw collapse_start (IsCleared-at (p + 1 + (2 * n - (p + 1))) (2 * n) (omega arith) second)

  pub row-collapse : (j : ℕ) → j < 2 * n → row (collapse t p result s) j ≡ final j
  row-collapse j hj =
      collapse-IsCleared.rows j ∙ (let e : ltb j (2 * n) ≡ true = ground arith in rw e)

  pub collapse-shape : IsTableau (collapse t p result s)
  collapse-shape = collapse-IsCleared.shape

  pub collapse-count : (collapse t p result s).qubit_count ≡ n
  collapse-count = collapse-IsCleared.count

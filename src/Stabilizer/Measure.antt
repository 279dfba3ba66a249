-- ===== src/Stabilizer/Measure.antt =====
-- `ForceM` and `M`.
use qrack.Prelude.{
  ℕ, ◌+◌, ◌-◌, Bool, true, false, not, ◌&&◌, none, some, if◌then◌else◌, bit, xor, for_upto, leb,
  ◌==◌,
}
use qrack.Stabilizer.Tableau.{
  Tableau, elem_count, invalid_argument, Result, ok, err, row, set_row, row_copy, row_set, row_mult,
}
use qrack.Stabilizer.Gaussian.{find_from}

-- `if (x[i][t]) rowmult(i, p)`.
unfoldable pub clear_row : ℕ → ℕ → ℕ → Tableau → Tableau
clear_row t p i s = if bit (row s i).x t then row_mult i p s else s

-- The tableau after the random outcome `result` at pivot `p`.
unfoldable pub collapse : ℕ → ℕ → Bool → Tableau → Tableau
collapse t p result s =
    let n = s.qubit_count in
    let s1 = row_set (p + n) (t + n) (row_copy p (p + n) s) in
    let s2 = set_row s1 (p + n) (record (row s1 (p + n)) { r = if result then 2 else 0 }) in
    let s3 = for_upto p (λ i s. clear_row t p i s) s2 in
    for_upto (elem_count n - (p + 1)) (λ d s. clear_row t p (p + 1 + d) s) s3

-- The scratch row of a determinate outcome, from the destabilizer `m` on.
unfoldable pub accumulate : ℕ → ℕ → Tableau → Tableau
accumulate t m s =
    let n = s.qubit_count in
    for_upto (n - (m + 1))
      (λ d s. if bit (row s (m + 1 + d)).x t then row_mult (elem_count n) (m + 1 + d + n) s else s)
      (row_copy (elem_count n) (m + n) s)

-- The part of `ForceM` after the pivot row in the stabilizers was not found.
unfoldable pub determinate : ℕ → Bool → Bool → Tableau → Result (Bool × Tableau)
determinate t result do_force s = elim (find_from (λ m. bit (row s m).x t) 0 s.qubit_count) [
  | none ↦ ok (false, s)
  | some m ↦
      let s1 = accumulate t m s in
      let outcome = not ((row s1 (elem_count s.qubit_count)).r == 0) in
      if do_force && xor result outcome then err invalid_argument else ok (outcome, s1)
]

-- `ForceM(t, result, doForce, doApply)`, where `rand` is what `Rand()` returns.
unfoldable pub force_m : ℕ → Bool → Bool → Bool → Bool → Tableau → Result (Bool × Tableau)
force_m t result do_force do_apply rand s =
    let n = s.qubit_count in
    if leb n t
    then err invalid_argument
    else if do_force && not do_apply
    then ok (result, s)
    else elim (find_from (λ p. bit (row s (p + n)).x t) 0 n) [
      | some p ↦
          let outcome = if do_force then result else rand in
          if do_apply then ok (outcome, collapse t p outcome s) else ok (outcome, s)
      | none ↦ determinate t result do_force s
    ]

-- `M(t)`.
unfoldable pub m : ℕ → Bool → Tableau → Result (Bool × Tableau)
m t rand s = force_m t false false true rand s

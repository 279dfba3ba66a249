-- ===== src/Stabilizer/Gaussian.antt =====
-- `gaussian`, and `seed`.
use qrack.Prelude.{
  ℕ, zero, suc, ◌+◌, ◌-◌, ◌%◌, Bool, not, Option, none, some, if◌then◌else◌, bit, set, for_upto,
  ◌==◌,
}
use qrack.Stabilizer.Row.{Row, blank_row}
use qrack.Stabilizer.Tableau.{Tableau, elem_count, row, set_row, row_swap, row_mult}

-- `for (k = lo; k < lo + count; ++k) if (test k) break`: the `k` of the break.
unfoldable pub find_from : (ℕ → Bool) → ℕ → ℕ → Option ℕ
find_from test lo zero = none
find_from test lo (suc count) =
    let rest = find_from test (lo + 1) count in if test lo then some lo else rest

-- The Gaussian elimination step at row `k2` with pivot row `i`.
unfoldable pub eliminate : (Row → Bool) → ℕ → ℕ → Tableau → Tableau
eliminate has i k2 s =
    let n = s.qubit_count in
    if has (row s k2) then row_mult (i - n) (k2 - n) (row_mult k2 i s) else s

-- What is done when row `k` is found: the swaps, and the loop over `k2` from `i + 1` on.
unfoldable pub pivot : (Row → Bool) → ℕ → ℕ → Tableau → Tableau
pivot has i k s =
    let n = s.qubit_count in
    for_upto (elem_count n - (i + 1)) (λ d s. eliminate has i (i + 1 + d) s)
      (row_swap (i - n) (k - n) (row_swap i k s))

-- The loop variables of `gaussian`.
pub record Elimination : Type 0 where
  pub i : ℕ
  pub tableau : Tableau

-- A round: `has` tests for an X, or a Z, in the round's column.
unfoldable pub gaussian_round : (Row → Bool) → Elimination → Elimination
gaussian_round has e =
    elim (find_from (λ k. has (row e.tableau k)) e.i (elem_count e.tableau.qubit_count - e.i)) [
      | none ↦ e
      | some k ↦ record { i = e.i + 1; tableau = pivot has e.i k e.tableau }
    ]

unfoldable pub gaussian_x : Tableau → Elimination
gaussian_x s =
    for_upto s.qubit_count (λ j e. gaussian_round (λ a. bit a.x j) e)
      (record { i = s.qubit_count; tableau = s })

unfoldable pub gaussian_z : ℕ → Elimination → Elimination
gaussian_z n e = for_upto n (λ j e. gaussian_round (λ a. bit a.z j) e) e

-- The returned count is log_2 of the number of nonzero basis states.
unfoldable pub gaussian : Tableau → ℕ × Tableau
gaussian s = let e = gaussian_x s in (e.i - s.qubit_count, (gaussian_z s.qubit_count e).tableau)

-- The loop variables of the inner loop of `seed`; `min` outlives it.
pub record SeedScan : Type 0 where
  pub f : ℕ
  pub min : ℕ

unfoldable pub seed_scan : Row → Row → ℕ → SeedScan → SeedScan
seed_scan stabilizer scratch j c =
    if bit stabilizer.z j
    then record { f = if bit scratch.x j then (c.f + 2) % 4 else c.f; min = j }
    else c

-- `for (j = n - 1; j >= 0; j--)`.
unfoldable pub seed_scan_down : ℕ → Row → Row → SeedScan → SeedScan
seed_scan_down n stabilizer scratch c =
    for_upto n (λ d c. seed_scan stabilizer scratch (n - 1 - d) c) c

-- A round of `seed` at row `i`, on the scratch row and `min`.
unfoldable pub seed_round : ℕ → Row → ℕ × Row → ℕ × Row
seed_round n stabilizer (min, scratch) =
    let c = seed_scan_down n stabilizer scratch (record { f = stabilizer.r; min = min }) in
    if c.f == 2
    then (c.min, record scratch { x = set scratch.x c.min (not (bit scratch.x c.min)) })
    else (c.min, scratch)

-- `seed(g)`: a Pauli operator is written to the scratch row, going up from the last stabilizer to
-- row n + g.
unfoldable pub seed : ℕ → Tableau → Tableau
seed g s =
    let n = s.qubit_count in
    let top = elem_count n in
    let found =
      for_upto (top - (n + g)) (λ d m. seed_round n (row s (top - 1 - d)) m) (0, blank_row n) in
    set_row s top found.1

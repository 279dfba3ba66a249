-- ===== src/Stabilizer/Tableau.antt =====
-- The tableau, its row operations, `ParFor` and `SetPermutation`.
--
-- The source keeps three vectors `x`, `z` and `r` of the same length 2n + 1; here they are one
-- list of rows. Rows 0 .. n - 1 are the destabilizers, n .. 2n - 1 the stabilizers, and row 2n is
-- the scratch space.
use qrack.Prelude.{
  ℕ, ◌+◌, ◌*◌, ◌-◌, ◌/◌, ◌%◌, ◌^◌, Bool, false, ◌||◌, List, [], ◌∷◌, ltb, leb, ◌==◌, if◌then◌else◌,
  get_or, length, set, replicate, for_upto,
}
pub use qrack.Prelude.{Error, domain_error, invalid_argument, Result, ok, err, ◌>>=◌}
use qrack.Stabilizer.Row.{Row, blank_row, mult_row, observable}
use qrack.Stabilizer.RowGates.{x_row}

pub record Tableau : Type 0 where
  pub qubit_count : ℕ
  pub rows : List Row

abbrev pub row : Tableau → ℕ → Row
row s i = get_or s.rows i (blank_row 0)

abbrev pub set_row : Tableau → ℕ → Row → Tableau
set_row s i a = record s { rows = set s.rows i a }

unfoldable pub row_copy : ℕ → ℕ → Tableau → Tableau
row_copy i k s = if i == k then s else set_row s i (row s k)

unfoldable pub row_swap : ℕ → ℕ → Tableau → Tableau
row_swap i k s = if i == k then s else set_row (set_row s k (row s i)) i (row s k)

unfoldable pub row_set : ℕ → ℕ → Tableau → Tableau
row_set i b s = set_row s i (observable s.qubit_count b)

unfoldable pub row_mult : ℕ → ℕ → Tableau → Tableau
row_mult i k s = set_row s i (mult_row s.qubit_count (row s i) (row s k))

-- `any` over the qubit indices of a gate.
unfoldable pub out_of_bounds : ℕ → List ℕ → Bool
out_of_bounds n [] = false
out_of_bounds n (q ∷ qs) = leb n q || out_of_bounds n qs

-- `qubitCount << 1U` as a `bitLenInt` of 8 bits: 2n for fewer than 128 qubits, and 0 for 128.
abbrev pub elem_count : ℕ → ℕ
elem_count n = 2 * n % 256

-- The loop of `ParFor` over all rows but the scratch row.
unfoldable pub map_rows : (Row → Row) → Tableau → Tableau
map_rows fn s = for_upto (elem_count s.qubit_count) (λ i s. set_row s i (fn (row s i))) s

unfoldable pub par_for : (Row → Row) → List ℕ → Tableau → Result Tableau
par_for fn qubits s =
    if out_of_bounds s.qubit_count qubits then err domain_error else ok (map_rows fn s)

-- Row `i` of the state |0…0>.
unfoldable pub initial_row : ℕ → ℕ → Row
initial_row n i = if ltb i n then observable n i else observable n (i - n + n)

-- The loops of `SetPermutation` that clear the phases of all rows and reset all rows but the scratch
-- row.
unfoldable pub reset : Tableau → Tableau
reset s =
    let n = s.qubit_count in
    let cleared = for_upto (length s.rows) (λ i s. set_row s i (record (row s i) { r = 0 })) s in
    for_upto (elem_count n) (λ i s. set_row s i (initial_row n i)) cleared

-- `bi_and_1(perm >> j)`.
abbrev pub bit_of : ℕ → ℕ → Bool
bit_of perm j = perm / 2 ^ j % 2 == 1

-- `SetPermutation`, for a permutation below 2^n.
unfoldable pub set_permutation : ℕ → Tableau → Tableau
set_permutation perm s =
    for_upto s.qubit_count (λ j s. if bit_of perm j then map_rows (x_row j) s else s) (reset s)

-- The constructor: 2n + 1 rows of zeros, and then `SetPermutation`.
unfoldable pub create : ℕ → ℕ → Tableau
create n perm =
    set_permutation perm (record { qubit_count = n; rows = replicate (2 * n + 1) (blank_row n) })

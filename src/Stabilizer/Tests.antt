-- ===== src/Stabilizer/Tests.antt =====
-- The theorems about the tableau at concrete circuits, and runs of the code.
use qrack.Prelude.{◌+◌, ◌%◌, ◌≤◌, ◌≡◌, refl, arith, true, false, List, [], ◌∷◌, for_upto}
use qrack.Stabilizer.Row.{Row, mult_row, clifford, observable}
use qrack.Stabilizer.Pauli.{IsRow, anticommute}
use qrack.Stabilizer.Product.{phase_sum, clifford-phase_sum}
use qrack.Stabilizer.Acts.{two, Acts}
use qrack.Stabilizer.GateActs.{
  Gate, row_of, table, row_of-Acts, anticommute-row_of, row_of-mult_row,
}
use qrack.Stabilizer.Tableau.{
  out_of_bounds, Tableau, ok, err, invalid_argument, create, set_permutation, map_rows, reset,
  initial_row,
}
use qrack.Stabilizer.Gaussian.{gaussian, find_from}
use qrack.Stabilizer.RowGates.{h_row, x_row}
use qrack.Stabilizer.GateKeeps.{map_rows-Keeps}
use qrack.Stabilizer.GaussianKeeps.{gaussian-IsValid}
use qrack.Stabilizer.Gates.{run}
use qrack.Stabilizer.Measure.{force_m, m}
use qrack.Stabilizer.MeasureAgain.{Measured, force_m-Measured}
use qrack.Stabilizer.Separable.{is_separable_z, force_m-repeat}
use qrack.Stabilizer.Amplitude.{get_amplitude}
use qrack.Stabilizer.ScratchKeeps.{get_amplitude-Keeps}
use qrack.Stabilizer.Valid.{IsValid, Keeps}
use qrack.Stabilizer.CircuitKeeps.{create-Keeps, run-create-IsValid}

-- A Bell pair.
abbrev bell_circuit : List Gate
bell_circuit = Gate.h_gate 0 ∷ Gate.cnot 0 1 ∷ []

-- Row XY with the phase -1, and row ZX.
abbrev first_row : Row
first_row = record { x = true ∷ true ∷ []; z = false ∷ true ∷ []; r = 2 }

abbrev second_row : Row
second_row = record { x = false ∷ true ∷ []; z = true ∷ false ∷ []; r = 0 }

first-IsRow : IsRow 2 first_row
first-IsRow = record { length_x = refl; length_z = refl; phase = omega arith }

second-IsRow : IsRow 2 second_row
second-IsRow = record { length_x = refl; length_z = refl; phase = omega arith }

run-create-IsValid_example :
    (u : Tableau) × (run bell_circuit (create 2 0) ≡ ok u) × IsValid u × (u.qubit_count ≡ 2)
run-create-IsValid_example = run-create-IsValid 2 0 bell_circuit (omega arith) (omega arith)

bell_out_of_bounds : out_of_bounds (create 2 0).qubit_count (0 ∷ 5 ∷ []) ≡ true
unfolding out_of_bounds create set_permutation
bell_out_of_bounds = ground (arith, create-Keeps 2 0 (omega arith))

row_of-mult_row_example :
    row_of (Gate.cnot 0 1) (mult_row 2 first_row second_row)
    ≡ mult_row 2 (row_of (Gate.cnot 0 1) first_row) (row_of (Gate.cnot 0 1) second_row)
row_of-mult_row_example = row_of-mult_row 2 (Gate.cnot 0 1) (omega arith) first-IsRow second-IsRow

anticommute-row_of_example :
    anticommute 2 (row_of (Gate.iswap 0 1) first_row) (row_of (Gate.iswap 0 1) second_row)
    ≡ anticommute 2 first_row second_row
anticommute-row_of_example =
    anticommute-row_of 2 (Gate.iswap 0 1) (omega arith) first-IsRow second-IsRow

row_of-Acts_example :
    Acts (two 0 1) (table (Gate.cy 0 1)) first_row (row_of (Gate.cy 0 1) first_row)
row_of-Acts_example = row_of-Acts 2 (Gate.cy 0 1) (omega arith) first-IsRow

clifford-phase_sum_example :
    clifford 2 first_row second_row ≡ (phase_sum 2 first_row second_row + 2 + 0) % 4
clifford-phase_sum_example = clifford-phase_sum 2 first_row second_row

gaussian-IsValid_example :
    IsValid (gaussian (create 3 5)).1
    × ((gaussian (create 3 5)).1.qubit_count ≡ (create 3 5).qubit_count)
    × ((gaussian (create 3 5)).0 ≤ (create 3 5).qubit_count)
gaussian-IsValid_example = gaussian-IsValid (create-Keeps 3 5 (omega arith)).valid

get_amplitude-Keeps_example : Keeps 3 (get_amplitude 5 (create 3 5)).1
get_amplitude-Keeps_example = get_amplitude-Keeps (omega arith) 5 (create-Keeps 3 5 (omega arith))

force_m-Measured_example : Measured 2 true (force_m 1 true true true false (create 2 2))
force_m-Measured_example =
    force_m-Measured (create-Keeps 2 2 (omega arith)) 1 true true true false (omega arith)
      (omega arith)

-- The first qubit after a Hadamard gate.
abbrev plus : Tableau
plus = map_rows (h_row 0) (create 2 0)

plus-Keeps : Keeps 2 plus
plus-Keeps =
    map_rows-Keeps 2 (omega arith) (Gate.h_gate 0) (omega arith) (create-Keeps 2 0 (omega arith))

plus_random : is_separable_z 0 plus ≡ ok false
unfolding is_separable_z find_from map_rows for_upto h_row create set_permutation reset initial_row
    observable x_row
plus_random = refl

force_m-repeat_example :
    (u : Tableau) × (force_m 0 true true true false plus ≡ ok (true, u))
    × (is_separable_z 0 u ≡ ok true)
    × ((v : Tableau) × (m 0 false u ≡ ok (true, v)))
    × (force_m 0 false true true false u ≡ err invalid_argument)
force_m-repeat_example =
    force_m-repeat plus-Keeps 0 true true false false (omega arith) (omega arith) plus_random

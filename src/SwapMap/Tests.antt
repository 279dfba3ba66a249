-- ===== src/SwapMap/Tests.antt =====
-- The theorems about `QubitSwapMap` at a swap of three qubits.
use qrack.Prelude.{◌≡◌, refl, arith, true, false, [], ◌∷◌}
use qrack.SwapMap.{
  QubitSwapMap, identity, swap_qubits, map_bits, inverse_map_bits, IsPermutation,
  identity-IsPermutation, swap_qubits-IsPermutation, inverse_map_bits-map_bits,
}

abbrev swapped : QubitSwapMap
swapped = swap_qubits 0 2 (identity 3)

swapped-IsPermutation : IsPermutation 3 swapped
swapped-IsPermutation =
    swap_qubits-IsPermutation (identity-IsPermutation 3).0 0 2 (omega arith) (omega arith)

swap_qubits-IsPermutation_example : IsPermutation 3 (swap_qubits 1 2 (identity 3))
swap_qubits-IsPermutation_example =
    swap_qubits-IsPermutation (identity-IsPermutation 3).0 1 2 (omega arith) (omega arith)

inverse_map_bits-map_bits_example :
    inverse_map_bits swapped (map_bits swapped (true ∷ true ∷ false ∷ []))
    ≡ true ∷ true ∷ false ∷ []
inverse_map_bits-map_bits_example =
    inverse_map_bits-map_bits swapped-IsPermutation (true ∷ true ∷ false ∷ []) refl

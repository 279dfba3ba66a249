-- ===== src/Ranges.antt =====
-- `isBadBitRange` and `isBadPermRange` (include/common/qrack_functions.hpp), the checks of a range of
-- qubits and of basis states before an engine uses it.
pub mod Distinct
mod Tests
use qrack.Prelude.{
  ℕ, ◌+◌, ◌%◌, ◌<◌, ◌≡◌, Bool, not, ◌||◌, false, List, [], ◌∷◌, ◌==◌, ltb, leb, arith,
}

-- The sum is an `int` in the first test and an 8-bit word in the second.
unfoldable pub is_bad_bit_range : ℕ → ℕ → ℕ → Bool
is_bad_bit_range start length qubit_count =
    ltb qubit_count (start + length) || ltb ((start + length) % 256) start

-- The sums are 64-bit words.
unfoldable pub is_bad_perm_range : ℕ → ℕ → ℕ → Bool
is_bad_perm_range start length max_power =
    ltb max_power ((start + length) % 18446744073709551616)
    || ltb ((start + length) % 18446744073709551616) start

-- A range of qubits is bad exactly if it ends above the qubit count, for 8-bit words: the test of the
-- wrapped sum decides nothing more.
pub is_bad_bit_range-end :
    (start length qubit_count : ℕ)
    → start < 256
    → length < 256
    → qubit_count < 256
    → is_bad_bit_range start length qubit_count ≡ not (leb (start + length) qubit_count)
unfolding is_bad_bit_range
is_bad_bit_range-end start length qubit_count h k l = ground arith

-- A range of basis states is bad exactly if it ends above the number of them, for 64-bit words, also
-- where the sum wraps around.
pub is_bad_perm_range-end :
    (start length max_power : ℕ)
    → start < 18446744073709551616
    → length < 18446744073709551616
    → max_power < 18446744073709551616
    → is_bad_perm_range start length max_power ≡ not (leb (start + length) max_power)
unfolding is_bad_perm_range
is_bad_perm_range-end start length max_power h k l = ground arith

-- `ThrowIfQbIdArrayIsBad`: whether it throws. `dupes` are the controls that the loop has seen.
unfoldable pub has_duplicate : ℕ → List ℕ → Bool
has_duplicate c [] = false
has_duplicate c (d ∷ dupes) = c == d || has_duplicate c dupes

unfoldable pub throws_from : List ℕ → List ℕ → ℕ → Bool
throws_from dupes [] qubit_count = false
throws_from dupes (c ∷ controls) qubit_count =
    leb qubit_count c || (has_duplicate c dupes || throws_from (c ∷ dupes) controls qubit_count)

unfoldable pub throw_if_qb_id_array_is_bad : List ℕ → ℕ → Bool
throw_if_qb_id_array_is_bad controls qubit_count = throws_from [] controls qubit_count

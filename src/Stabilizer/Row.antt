-- ===== src/Stabilizer/Row.antt =====
-- One row of the tableau, a Pauli operator with a phase, and the product of two rows
-- (`clifford`, the body of `rowmult` and `rowset`).
use qrack.Prelude.{
  ℕ, ◌+◌, ◌-◌, ◌%◌, Bool, true, false, not, ◌&&◌, List, ltb, if◌then◌else◌, bool_val, bit, set,
  xor_list, replicate, for_upto,
}

-- `x[i]`, `z[i]` and `r[i]` for one `i`.
pub record Row : Type 0 where
  pub x : List Bool
  pub z : List Bool
  pub r : ℕ

-- A row of `n` qubits that the vectors' constructors and `std::fill` leave: all zero.
abbrev pub blank_row : ℕ → Row
blank_row n = record { x = replicate n false; z = replicate n false; r = 0 }

-- `e += b` and `e -= b` on a `bitLenInt`, an 8-bit word.
abbrev pub add_bit : ℕ → Bool → ℕ
add_bit e b = (e + bool_val b) % 256

abbrev pub sub_bit : ℕ → Bool → ℕ
sub_bit e b = (e + 256 - bool_val b) % 256

-- The three tests of a round of `clifford`, for the bits of row `i` and of row `k`.
unfoldable pub clifford_round : Bool → Bool → Bool → Bool → ℕ → ℕ
clifford_round xi zi xk zk e =
    let e1 = if xk && not zk then sub_bit (add_bit e (xi && zi)) (not xi && zi) else e in
    let e2 = if xk && zk then sub_bit (add_bit e1 (not xi && zi)) (xi && not zi) else e1 in
    if not xk && zk then sub_bit (add_bit e2 (xi && not zi)) (xi && zi) else e2

-- The phase (0, 1, 2, 3) when row `i` is left-multiplied by row `k`.
unfoldable pub clifford : ℕ → Row → Row → ℕ
clifford n i k =
    let e =
      for_upto n (λ j e. clifford_round (bit i.x j) (bit i.z j) (bit k.x j) (bit k.z j) e) 0 in
    (e + i.r + k.r) % 4

-- Row `i` after `rowmult(i, k)`.
unfoldable pub mult_row : ℕ → Row → Row → Row
mult_row n i k = record { x = xor_list i.x k.x; z = xor_list i.z k.z; r = clifford n i k }

-- Row `i` after `rowset(i, b)`: the b-th of the observables X_1, …, X_n, Z_1, …, Z_n.
unfoldable pub observable : ℕ → ℕ → Row
observable n b =
    if ltb b n
    then record (blank_row n) { x = set (blank_row n).x b true }
    else record (blank_row n) { z = set (blank_row n).z (b - n) true }

-- ===== src/Stabilizer/Pauli.antt =====
-- The Pauli group as an independent description of the rows: one operator for each qubit, the
-- power of `i` in the product of two of them, and whether two rows commute.
use qrack.Prelude.{ℕ, ◌<◌, ◌≡◌, Bool, true, false, ◌&&◌, length, xor, bit, xor_sum}
use qrack.Stabilizer.Row.{Row}

pub data Pauli : Type 0 where
  i_op x_op y_op z_op : Pauli

-- The operator that a bit of `x` and a bit of `z` stand for.
abbrev pub pauli : Bool → Bool → Pauli
pauli false false = i_op
pauli true false = x_op
pauli true true = y_op
pauli false true = z_op

-- The power of `i` in the product of `p` and `q`, in this order: XY = iZ, YZ = iX, ZX = iY.
abbrev pub phase : Pauli → Pauli → ℕ
phase x_op y_op = 1
phase y_op z_op = 1
phase z_op x_op = 1
phase y_op x_op = 3
phase z_op y_op = 3
phase x_op z_op = 3
phase _ _ = 0

-- The phase at a qubit when a row with bits `xi`, `zi` is left-multiplied by one with `xk`, `zk`.
abbrev pub phase_at : Bool → Bool → Bool → Bool → ℕ
phase_at xi zi xk zk = phase (pauli xk zk) (pauli xi zi)

-- Whether the two operators at a qubit anticommute.
abbrev pub clash : Bool → Bool → Bool → Bool → Bool
clash xa za xb zb = xor (xa && zb) (za && xb)

abbrev pub clash_at : Row → Row → ℕ → Bool
clash_at a b j = clash (bit a.x j) (bit a.z j) (bit b.x j) (bit b.z j)

-- Whether two rows of `n` qubits anticommute: an odd number of their operators do.
unfoldable pub anticommute : ℕ → Row → Row → Bool
anticommute n a b = xor_sum n (clash_at a b)

-- A row of `n` qubits with a phase of two bits.
pub record IsRow (n : ℕ) (a : Row) : Type 0 where
  pub length_x : length a.x ≡ n
  pub length_z : length a.z ≡ n
  pub phase : a.r < 4

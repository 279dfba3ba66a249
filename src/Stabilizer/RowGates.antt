-- ===== src/Stabilizer/RowGates.antt =====
-- What each gate does to one row: the functions that the gates hand to `ParFor`.
-- Each is the sequence of statements of the source, also where the two qubits coincide.
use qrack.Prelude.{ℕ, ◌+◌, ◌%◌, Bool, not, ◌&&◌, ◌||◌, List, if◌then◌else◌, xor, same, bit, set}
use qrack.Stabilizer.Row.{Row}

-- `x[t] = !x[t]`.
abbrev flip : List Bool → ℕ → List Bool
flip xs t = set xs t (not (bit xs t))

-- `BoolVector::swap(a[c], a[t])`.
abbrev swap_bits : List Bool → ℕ → ℕ → List Bool
swap_bits xs c t = set (set xs c (bit xs t)) t (bit xs c)

-- `r = (r + 2U) & 0x3U`, under a test.
abbrev negate_if : Bool → ℕ → ℕ
negate_if b r = if b then (r + 2) % 4 else r

unfoldable pub h_row : ℕ → Row → Row
h_row t a =
    let x = set a.x t (bit a.z t) in
    let z = set a.z t (bit a.x t) in record { x = x; z = z; r = negate_if (bit x t && bit z t) a.r }

unfoldable pub x_row : ℕ → Row → Row
x_row t a = record a { r = negate_if (bit a.z t) a.r }

unfoldable pub y_row : ℕ → Row → Row
y_row t a = record a { r = negate_if (xor (bit a.z t) (bit a.x t)) a.r }

unfoldable pub z_row : ℕ → Row → Row
z_row t a = record a { r = negate_if (bit a.x t) a.r }

unfoldable pub s_row : ℕ → Row → Row
s_row t a = record {
  x = a.x;
  z = set a.z t (xor (bit a.z t) (bit a.x t));
  r = negate_if (bit a.x t && bit a.z t) a.r;
}

unfoldable pub is_row : ℕ → Row → Row
is_row t a =
    let z = set a.z t (xor (bit a.z t) (bit a.x t)) in
    record { x = a.x; z = z; r = negate_if (bit a.x t && bit z t) a.r }

unfoldable pub cnot_row : ℕ → ℕ → Row → Row
cnot_row c t a =
    let x = if bit a.x c then flip a.x t else a.x in
    let z = if bit a.z t then flip a.z c else a.z in
    record { x = x; z = z; r = negate_if (bit a.z t && (bit x c && same (bit x t) (bit z c))) a.r }

unfoldable pub anti_cnot_row : ℕ → ℕ → Row → Row
anti_cnot_row c t a =
    let x = if bit a.x c then flip a.x t else a.x in
    let z = if bit a.z t then flip a.z c else a.z in
    record {
      x = x;
      z = z;
      r = negate_if (bit a.z t && (not (bit x c) || xor (bit x t) (bit z c))) a.r;
    }

unfoldable pub cy_row : ℕ → ℕ → Row → Row
cy_row c t a =
    let z1 = set a.z t (xor (bit a.z t) (bit a.x t)) in
    let x = if bit a.x c then flip a.x t else a.x in
    let r = negate_if (bit z1 t && (bit x c && same (bit x t) (bit z1 c))) a.r in
    let z2 = if bit z1 t then flip z1 c else z1 in
    record { x = x; z = set z2 t (xor (bit z2 t) (bit x t)); r = r }

unfoldable pub anti_cy_row : ℕ → ℕ → Row → Row
anti_cy_row c t a =
    let z1 = set a.z t (xor (bit a.z t) (bit a.x t)) in
    let x = if bit a.x c then flip a.x t else a.x in
    let r = negate_if (bit z1 t && (not (bit x c) || xor (bit x t) (bit z1 c))) a.r in
    let z2 = if bit z1 t then flip z1 c else z1 in
    record { x = x; z = set z2 t (xor (bit z2 t) (bit x t)); r = r }

unfoldable pub cz_row : ℕ → ℕ → Row → Row
cz_row c t a =
    let z1 = if bit a.x t then flip a.z c else a.z in
    let r = negate_if (bit a.x t && (bit a.x c && same (bit z1 t) (bit z1 c))) a.r in
    record { x = a.x; z = if bit a.x c then flip z1 t else z1; r = r }

unfoldable pub anti_cz_row : ℕ → ℕ → Row → Row
anti_cz_row c t a =
    let z1 = if bit a.x t then flip a.z c else a.z in
    let r = negate_if (bit a.x t && (not (bit a.x c) || xor (bit z1 t) (bit z1 c))) a.r in
    record { x = a.x; z = if bit a.x c then flip z1 t else z1; r = r }

unfoldable pub swap_row : ℕ → ℕ → Row → Row
swap_row c t a = record { x = swap_bits a.x c t; z = swap_bits a.z c t; r = a.r }

unfoldable pub iswap_row : ℕ → ℕ → Row → Row
iswap_row c t a =
    let x = swap_bits a.x c t in
    let z = swap_bits a.z c t in
    let z1 = if bit x t then flip z c else z in
    let r1 = negate_if (bit x t && (not (bit x c) && bit z1 t)) a.r in
    let z2 = if bit x c then flip z1 t else z1 in
    let r2 = negate_if (bit x c && (bit z2 c && not (bit x t))) r1 in
    let z3 = set z2 c (xor (bit z2 c) (bit x c)) in
    record { x = x; z = set z3 t (xor (bit z3 t) (bit x t)); r = r2 }

unfoldable pub iiswap_row : ℕ → ℕ → Row → Row
iiswap_row c t a =
    let z1 = set a.z c (xor (bit a.z c) (bit a.x c)) in
    let z2 = set z1 t (xor (bit z1 t) (bit a.x t)) in
    let z3 = if bit a.x c then flip z2 t else z2 in
    let r1 = negate_if (bit a.x c && (bit z3 c && not (bit a.x t))) a.r in
    let z4 = if bit a.x t then flip z3 c else z3 in
    let r2 = negate_if (bit a.x t && (not (bit a.x c) && bit z4 t)) r1 in
    record { x = swap_bits a.x c t; z = swap_bits z4 c t; r = r2 }

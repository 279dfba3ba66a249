-- ===== src/Stabilizer/GateActs.antt =====
-- Each gate's table, and that the gate's row function acts by it.
use qrack.Prelude.{
  ℕ, ◌<◌, ◌≡◌, ◌≢◌, refl, arith, Bool, true, false, not, ◌&&◌, List, length, xor, same, bit, set,
  length-set, get_or-set,
}
use qrack.Stabilizer.Row.{Row, mult_row}
use qrack.Stabilizer.Pauli.{IsRow, anticommute}
use qrack.Stabilizer.Product.{mult_row-IsRow}
use qrack.Stabilizer.Local.{Local, is_clifford, IsClifford, is_clifford-IsClifford}
use qrack.Stabilizer.Acts.{
  Place, one, two, Acts, IsPlace, Acts-IsRow, anticommute-Acts, mult_row-Acts,
}
use qrack.Stabilizer.RowGates.{
  h_row, x_row, y_row, z_row, s_row, is_row, cnot_row, anti_cnot_row, cy_row, anti_cy_row, cz_row,
  anti_cz_row, swap_row, iswap_row, iiswap_row,
}

-- The gates of `QStabilizer`, with the qubits that they are called with.
pub data Gate : Type 0 where
  h_gate x_gate y_gate z_gate s_gate is_gate : ℕ → Gate
  cnot anti_cnot cy anti_cy cz anti_cz swap iswap iiswap : ℕ → ℕ → Gate

abbrev pub place : Gate → Place
place (Gate.h_gate t) = one t
place (Gate.x_gate t) = one t
place (Gate.y_gate t) = one t
place (Gate.z_gate t) = one t
place (Gate.s_gate t) = one t
place (Gate.is_gate t) = one t
place (Gate.cnot c t) = two c t
place (Gate.anti_cnot c t) = two c t
place (Gate.cy c t) = two c t
place (Gate.anti_cy c t) = two c t
place (Gate.cz c t) = two c t
place (Gate.anti_cz c t) = two c t
place (Gate.swap c t) = two c t
place (Gate.iswap c t) = two c t
place (Gate.iiswap c t) = two c t

-- The function of one row that the gate hands to `ParFor`.
abbrev pub row_of : Gate → Row → Row
row_of (Gate.h_gate t) = h_row t
row_of (Gate.x_gate t) = x_row t
row_of (Gate.y_gate t) = y_row t
row_of (Gate.z_gate t) = z_row t
row_of (Gate.s_gate t) = s_row t
row_of (Gate.is_gate t) = is_row t
row_of (Gate.cnot c t) = cnot_row c t
row_of (Gate.anti_cnot c t) = anti_cnot_row c t
row_of (Gate.cy c t) = cy_row c t
row_of (Gate.anti_cy c t) = anti_cy_row c t
row_of (Gate.cz c t) = cz_row c t
row_of (Gate.anti_cz c t) = anti_cz_row c t
row_of (Gate.swap c t) = swap_row c t
row_of (Gate.iswap c t) = iswap_row c t
row_of (Gate.iiswap c t) = iiswap_row c t

-- The gate as a function of the bits at its qubits.
abbrev pub table : Gate → Local
table (Gate.h_gate t) = record {
  bits = λ p. record p { xt = p.zt; zt = p.xt };
  flips = λ p. p.xt && p.zt;
}
table (Gate.x_gate t) = record { bits = λ p. p; flips = λ p. p.zt }
table (Gate.y_gate t) = record { bits = λ p. p; flips = λ p. xor p.xt p.zt }
table (Gate.z_gate t) = record { bits = λ p. p; flips = λ p. p.xt }
table (Gate.s_gate t) = record {
  bits = λ p. record p { zt = xor p.zt p.xt };
  flips = λ p. p.xt && p.zt;
}
table (Gate.is_gate t) = record {
  bits = λ p. record p { zt = xor p.zt p.xt };
  flips = λ p. p.xt && not p.zt;
}
table (Gate.cnot c t) = record {
  bits = λ p. record p { xt = xor p.xt p.xc; zc = xor p.zc p.zt };
  flips = λ p. p.xc && p.zt && same p.xt p.zc;
}
table (Gate.anti_cnot c t) = record {
  bits = λ p. record p { xt = xor p.xt p.xc; zc = xor p.zc p.zt };
  flips = λ p. xor p.zt (p.xc && p.zt && same p.xt p.zc);
}
table (Gate.cy c t) = record {
  bits = λ p. record {
    xc = p.xc;
    zc = xor p.zc (xor p.xt p.zt);
    xt = xor p.xt p.xc;
    zt = xor p.zt p.xc;
  };
  flips = λ p. p.xc && xor p.xt p.zt && xor p.xt p.zc;
}
table (Gate.anti_cy c t) = record {
  bits = λ p. record {
    xc = p.xc;
    zc = xor p.zc (xor p.xt p.zt);
    xt = xor p.xt p.xc;
    zt = xor p.zt p.xc;
  };
  flips = λ p. xor (xor p.xt p.zt) (p.xc && xor p.xt p.zt && xor p.xt p.zc);
}
table (Gate.cz c t) = record {
  bits = λ p. record p { zc = xor p.zc p.xt; zt = xor p.zt p.xc };
  flips = λ p. p.xc && p.xt && xor p.zt p.zc;
}
table (Gate.anti_cz c t) = record {
  bits = λ p. record p { zc = xor p.zc p.xt; zt = xor p.zt p.xc };
  flips = λ p. xor p.xt (p.xc && p.xt && xor p.zt p.zc);
}
table (Gate.swap c t) = record {
  bits = λ p. record { xc = p.xt; zc = p.zt; xt = p.xc; zt = p.zc };
  flips = λ p. false;
}
table (Gate.iswap c t) = record {
  bits = λ p. record {
    xc = p.xt;
    zc = xor p.zt (xor p.xc p.xt);
    xt = p.xc;
    zt = xor p.zc (xor p.xc p.xt);
  };
  flips = λ p. xor (p.xc && not p.xt && p.zc) (p.xt && not p.xc && p.zt);
}
table (Gate.iiswap c t) = record {
  bits = λ p. record {
    xc = p.xt;
    zc = xor p.zt (xor p.xc p.xt);
    xt = p.xc;
    zt = xor p.zc (xor p.xc p.xt);
  };
  flips = λ p. xor (p.xc && not p.xt && not p.zc) (p.xt && not p.xc && not p.zt);
}

bit-set_self : (xs : List Bool) (i : ℕ) (v : Bool) → i < length xs → bit (set xs i v) i ≡ v
bit-set_self xs i v h = ground (arith, get_or-set xs i i v false)

bit-set_ne : (xs : List Bool) (i j : ℕ) (v : Bool) → i ≢ j → bit (set xs i v) j ≡ bit xs j
bit-set_ne xs i j v h = ground (arith, get_or-set xs i j v false)

ruleset bit_laws = (arith, bit-set_self, bit-set_ne, length-set)

-- Every gate whose qubits are in range, and different for a gate on two, acts on a row of n qubits by
-- its table: the statements of the row function, in their order, have that effect on the bits at the
-- qubits and on the sign, and none elsewhere.
pub row_of-Acts :
    (n : ℕ) (g : Gate) {a : Row}
    → IsPlace n (place g)
    → IsRow n a
    → Acts (place g) (table g) a (row_of g a)
unfolding h_row x_row y_row z_row s_row is_row cnot_row anti_cnot_row cy_row anti_cy_row cz_row
    anti_cz_row swap_row iswap_row iiswap_row
row_of-Acts n (Gate.h_gate t) p h = grind bit_laws
row_of-Acts n (Gate.x_gate t) p h = grind bit_laws
row_of-Acts n (Gate.y_gate t) p h = grind bit_laws
row_of-Acts n (Gate.z_gate t) p h = grind bit_laws
row_of-Acts n (Gate.s_gate t) p h = grind bit_laws
row_of-Acts n (Gate.is_gate t) p h = grind bit_laws
row_of-Acts n (Gate.cnot c t) p h = grind bit_laws
row_of-Acts n (Gate.anti_cnot c t) p h = grind bit_laws
row_of-Acts n (Gate.cy c t) p h = grind bit_laws
row_of-Acts n (Gate.anti_cy c t) p h = grind bit_laws
row_of-Acts n (Gate.cz c t) p h = grind bit_laws
row_of-Acts n (Gate.anti_cz c t) p h = grind bit_laws
row_of-Acts n (Gate.swap c t) p h = grind bit_laws
row_of-Acts n (Gate.iswap c t) p h = grind bit_laws
row_of-Acts n (Gate.iiswap c t) p h = grind bit_laws

table-is_clifford : (g : Gate) → is_clifford (table g) ≡ true
unfolding is_clifford
table-is_clifford (Gate.h_gate t) = refl
table-is_clifford (Gate.x_gate t) = refl
table-is_clifford (Gate.y_gate t) = refl
table-is_clifford (Gate.z_gate t) = refl
table-is_clifford (Gate.s_gate t) = refl
table-is_clifford (Gate.is_gate t) = refl
table-is_clifford (Gate.cnot c t) = refl
table-is_clifford (Gate.anti_cnot c t) = refl
table-is_clifford (Gate.cy c t) = refl
table-is_clifford (Gate.anti_cy c t) = refl
table-is_clifford (Gate.cz c t) = refl
table-is_clifford (Gate.anti_cz c t) = refl
table-is_clifford (Gate.swap c t) = refl
table-is_clifford (Gate.iswap c t) = refl
table-is_clifford (Gate.iiswap c t) = refl

pub table-IsClifford : (g : Gate) → IsClifford (table g)
table-IsClifford g = is_clifford-IsClifford (table g) (table-is_clifford g)

module _ (n : ℕ) (g : Gate) (p : IsPlace n (place g)) {a b : Row} (ha : IsRow n a)
    (hb : IsRow n b) where
  pub row_of-IsRow : IsRow n (row_of g a)
  row_of-IsRow = Acts-IsRow (row_of-Acts n g p ha) ha

  -- Every gate whose qubits are in range, and different for a gate on two, keeps whether two rows of
  -- n qubits commute.
  pub anticommute-row_of : anticommute n (row_of g a) (row_of g b) ≡ anticommute n a b
  anticommute-row_of =
      anticommute-Acts n (place g) p (table-IsClifford g) (row_of-Acts n g p ha)
        (row_of-Acts n g p hb)

  -- Every gate whose qubits are in range, and different for a gate on two, maps the product of two
  -- rows of n qubits to the product of their images, phase included.
  pub row_of-mult_row : row_of g (mult_row n a b) ≡ mult_row n (row_of g a) (row_of g b)
  row_of-mult_row =
      mult_row-Acts n (place g) p (table-IsClifford g) (row_of-Acts n g p ha) (row_of-Acts n g p hb)
        ha hb (row_of-Acts n g p (mult_row-IsRow n b ha))

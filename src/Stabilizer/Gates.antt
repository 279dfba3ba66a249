-- ===== src/Stabilizer/Gates.antt =====
-- The gates of `QStabilizer` on the tableau, with a random global phase (`randGlobalPhase`, the
-- default of the constructor).
use qrack.Prelude.{ℕ, List, [], ◌∷◌, if◌then◌else◌, ◌==◌}
use qrack.Stabilizer.RowGates.{
  h_row, x_row, y_row, z_row, s_row, is_row, cnot_row, anti_cnot_row, cy_row, anti_cy_row, cz_row,
  anti_cz_row, swap_row, iswap_row, iiswap_row,
}
use qrack.Stabilizer.Tableau.{Tableau, Result, ok, ◌>>=◌, par_for}
use qrack.Stabilizer.Amplitude.{get_amplitude}
use qrack.Stabilizer.GateActs.{Gate}

unfoldable pub cnot : ℕ → ℕ → Tableau → Result Tableau
cnot c t s = par_for (cnot_row c t) (c ∷ t ∷ []) s

unfoldable pub anti_cnot : ℕ → ℕ → Tableau → Result Tableau
anti_cnot c t s = par_for (anti_cnot_row c t) (c ∷ t ∷ []) s

unfoldable pub cy : ℕ → ℕ → Tableau → Result Tableau
cy c t s = par_for (cy_row c t) (c ∷ t ∷ []) s

unfoldable pub anti_cy : ℕ → ℕ → Tableau → Result Tableau
anti_cy c t s = par_for (anti_cy_row c t) (c ∷ t ∷ []) s

unfoldable pub cz : ℕ → ℕ → Tableau → Result Tableau
cz c t s = par_for (cz_row c t) (c ∷ t ∷ []) s

unfoldable pub anti_cz : ℕ → ℕ → Tableau → Result Tableau
anti_cz c t s = par_for (anti_cz_row c t) (c ∷ t ∷ []) s

unfoldable pub swap : ℕ → ℕ → Tableau → Result Tableau
swap c t s = if c == t then ok s else par_for (swap_row c t) (c ∷ t ∷ []) s

unfoldable pub iswap : ℕ → ℕ → Tableau → Result Tableau
iswap c t s = if c == t then ok s else par_for (iswap_row c t) (c ∷ t ∷ []) s

unfoldable pub iiswap : ℕ → ℕ → Tableau → Result Tableau
iiswap c t s = if c == t then ok s else par_for (iiswap_row c t) (c ∷ t ∷ []) s

unfoldable pub h : ℕ → Tableau → Result Tableau
h t s = par_for (h_row t) (t ∷ []) s

unfoldable pub x : ℕ → Tableau → Result Tableau
x t s = par_for (x_row t) (t ∷ []) s

unfoldable pub y : ℕ → Tableau → Result Tableau
y t s = par_for (y_row t) (t ∷ []) s

-- With a random global phase `Z` ends in `SetPhaseOffset(… GetAmplitude(0))`, whose elimination
-- and seed stay in the tableau.
unfoldable pub z : ℕ → Tableau → Result Tableau
z t s = par_for (z_row t) (t ∷ []) s >>= λ s1. ok (get_amplitude 0 s1).1

unfoldable pub s : ℕ → Tableau → Result Tableau
s t q = par_for (s_row t) (t ∷ []) q

unfoldable pub is : ℕ → Tableau → Result Tableau
is t q = par_for (is_row t) (t ∷ []) q

-- A call of a gate.
unfoldable pub apply : Gate → Tableau → Result Tableau
apply (Gate.h_gate t) q = h t q
apply (Gate.x_gate t) q = x t q
apply (Gate.y_gate t) q = y t q
apply (Gate.z_gate t) q = z t q
apply (Gate.s_gate t) q = s t q
apply (Gate.is_gate t) q = is t q
apply (Gate.cnot c t) q = cnot c t q
apply (Gate.anti_cnot c t) q = anti_cnot c t q
apply (Gate.cy c t) q = cy c t q
apply (Gate.anti_cy c t) q = anti_cy c t q
apply (Gate.cz c t) q = cz c t q
apply (Gate.anti_cz c t) q = anti_cz c t q
apply (Gate.swap c t) q = swap c t q
apply (Gate.iswap c t) q = iswap c t q
apply (Gate.iiswap c t) q = iiswap c t q

-- A circuit: the gates are called in turn.
unfoldable pub run : List Gate → Tableau → Result Tableau
run [] q = ok q
run (g ∷ gs) q = apply g q >>= run gs

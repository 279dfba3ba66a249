-- ===== src/Circuit/Tests.antt =====
-- The theorems on gates and circuits at concrete ones.
use qrack.Prelude.{ℕ, ◌≡◌, refl, arith, true, false, ◌||◌, [], ◌∷◌}
use qrack.Circuit.Matrix.{Matrix}
use qrack.Circuit.Gate.{Gate, has, add_control, post_select_control}
use qrack.Circuit.MatrixAt.{matrix_at, add_control-matrix_at, post_select_control-matrix_at}
use qrack.Circuit.Cone.{Circuit, past_light_cone}
use qrack.Circuit.LightCone.{uses, light_cone, past_light_cone-light_cone}

abbrev flips : Matrix ℕ
flips = record { p0 = 0; p1 = 1; p2 = 1; p3 = 0 }

abbrev keeps : Matrix ℕ
keeps = record { p0 = 1; p1 = 0; p2 = 0; p3 = 1 }

-- A gate on qubit 0 with a matrix for two of the values of qubits 2 and 5.
abbrev two_controls : Gate ℕ
two_controls = record { target = 0; controls = 2 ∷ 5 ∷ []; payloads = (1, flips) ∷ (3, keeps) ∷ [] }

add_control-matrix_at_example :
    matrix_at (add_control 3 two_controls) 44 ≡ matrix_at two_controls 44
add_control-matrix_at_example = add_control-matrix_at two_controls 3 44 (omega arith) refl

post_select_control-matrix_at_example :
    matrix_at (post_select_control 5 true two_controls) 36 ≡ matrix_at two_controls 36
post_select_control-matrix_at_example =
    post_select_control-matrix_at two_controls 5 36 true (omega arith) refl refl

abbrev three_gates : Circuit ℕ
three_gates = record {
  is_collapsed = true;
  is_near_clifford = false;
  qubit_count = 8;
  gates =
      record two_controls { target = 7 }
      ∷ two_controls
      ∷ record two_controls { controls = [] }
      ∷ [];
}

past_light_cone-light_cone_example :
    (let r = past_light_cone (0 ∷ []) three_gates in
      (r.0.gates ≡ light_cone (0 ∷ []) three_gates.gates)
      × ((k : ℕ) → has k r.1 ≡ (has k (0 ∷ []) || uses k (light_cone (0 ∷ []) three_gates.gates))))
past_light_cone-light_cone_example = past_light_cone-light_cone (0 ∷ []) three_gates

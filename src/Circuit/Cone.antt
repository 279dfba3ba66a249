-- ===== src/Circuit/Cone.antt =====
-- The list of gates of a `QCircuit` (include/qcircuit.hpp), but for `AppendGate` and `Run`.
use qrack.Prelude.{ℕ, ◌==◌, Bool, false, not, ◌&&◌, ◌||◌, List, [], ◌∷◌, ◌++◌, ltb, if◌then◌else◌}
use qrack.Circuit.Matrix.{Numbers}
use qrack.Circuit.Gate.{Gate, has, insert, post_select_control}
use qrack.Circuit.Passing.{is_phase}

-- Whether a gate has a qubit of the set, and the set with all of its qubits.
unfoldable pub touches : List ℕ → List ℕ → Bool
touches qubits [] = false
touches qubits (c ∷ cs) = has c qubits || touches qubits cs

unfoldable pub insert_all : List ℕ → List ℕ → List ℕ
insert_all qubits [] = qubits
insert_all qubits (c ∷ cs) = insert_all (insert c qubits) cs

pub record Circuit (A : Type 0) : Type 0 where
  pub is_collapsed : Bool
  pub is_near_clifford : Bool
  pub qubit_count : ℕ
  pub gates : List (Gate A)

module _ {A : Type 0} where
  -- `Append`.
  unfoldable pub append : Circuit A → Circuit A → Circuit A
  append circuit self = record self {
    qubit_count =
        if ltb self.qubit_count circuit.qubit_count then circuit.qubit_count else self.qubit_count;
    gates = self.gates ++ circuit.gates;
  }

  unfoldable pub is_non_phase_target : Numbers A → ℕ → List (Gate A) → Bool
  is_non_phase_target num qubit [] = false
  is_non_phase_target num qubit (g ∷ gs) =
      g.target == qubit && not (is_phase num g) || is_non_phase_target num qubit gs

  unfoldable pub delete_from : ℕ → Bool → List (Gate A) → List (Gate A)
  delete_from qubit eigen [] = []
  delete_from qubit eigen (g ∷ gs) =
      let rest = delete_from qubit eigen gs in
      if g.target == qubit then rest else post_select_control qubit eigen g ∷ rest

  unfoldable pub delete_phase_target : ℕ → Bool → Circuit A → Circuit A
  delete_phase_target qubit eigen c = record c { gates = delete_from qubit eigen c.gates }

  -- The loop of `PastLightCone`, on the gates from the last to the first, with the set that it ends with.
  unfoldable pub cone : List ℕ → List (Gate A) → List (Gate A) × List ℕ
  cone qubits [] = ([], qubits)
  cone qubits (g ∷ gs) =
      let rest = cone qubits gs in
      let grown = cone (insert_all (insert g.target qubits) g.controls) gs in
      if has g.target qubits || touches qubits g.controls then (g ∷ grown.0, grown.1) else rest

  abbrev pub reversed : List (Gate A) → List (Gate A) → List (Gate A)
  reversed [] done = done
  reversed (g ∷ gs) done = reversed gs (g ∷ done)

  -- `PastLightCone`, with the set of qubits that it leaves.
  unfoldable pub past_light_cone : List ℕ → Circuit A → Circuit A × List ℕ
  past_light_cone qubits c =
      let r = cone qubits (reversed c.gates []) in
      (
        record {
          is_collapsed = c.is_collapsed;
          is_near_clifford = false;
          qubit_count = c.qubit_count;
          gates = reversed r.0 [];
        },
        r.1,
      )

-- ===== src/Circuit/Passing.antt =====
-- The tests of a gate, and whether two gates combine or commute (include/qcircuit.hpp).
use Prim.Native.Nat.{bit_and, bit_or, bit_xor}
use qrack.Prelude.{
  ℕ, ◌+◌, ◌==◌, Bool, true, false, not, ◌&&◌, ◌||◌, List, [], ◌∷◌, Option, none, some, length, ltb,
  if◌then◌else◌,
}
use qrack.Bits.Word.{pow2, complement}
use qrack.Circuit.Matrix.{
  Numbers, Matrix, identity_matrix, mul2x2, is_same, same_matrix, is_identity_matrix,
  is_phase_matrix, is_invert_matrix, is_clifford_phase_invert, is_clifford_matrix,
}
use qrack.Circuit.Gate.{
  Gate, has, position, includes, common, find, put_at, remove_at, every_payload, add_control,
  remove_control,
}

module _ {A : Type 0} (num : Numbers A) where
  unfoldable pub is_identity : Gate A → Bool
  is_identity g =
      length g.controls == 0
      && (length g.payloads == 1 && every_payload (is_identity_matrix num) g.payloads)

  unfoldable pub is_phase : Gate A → Bool
  is_phase g = every_payload (is_phase_matrix num) g.payloads

  unfoldable pub is_invert : Gate A → Bool
  is_invert g = every_payload (is_invert_matrix num) g.payloads

  unfoldable pub is_phase_invert : Gate A → Bool
  is_phase_invert g =
      every_payload (λ p. is_invert_matrix num p || is_phase_matrix num p) g.payloads

  abbrev pub is_cnot_matrix : Option (Matrix A) → Bool
  is_cnot_matrix none = false
  is_cnot_matrix (some p) =
      is_invert_matrix num p && (is_same num num.one p.p1 && is_same num num.one p.p2)

  unfoldable pub is_cnot : Gate A → Bool
  is_cnot g =
      length g.controls == 1 && (length g.payloads == 1 && is_cnot_matrix (find 1 g.payloads))

  abbrev pub is_controlled_clifford : Matrix A → Bool
  is_controlled_clifford p =
      if is_phase_matrix num p
      then is_clifford_phase_invert num p.p0 p.p3
      else is_invert_matrix num p && is_clifford_phase_invert num p.p1 p.p2

  -- The code reads the matrix of key 0 of a gate without controls, which every such gate has.
  abbrev pub is_clifford_at : Option (Matrix A) → Bool
  is_clifford_at none = false
  is_clifford_at (some p) = is_clifford_matrix num p

  unfoldable pub is_clifford : Gate A → Bool
  is_clifford g =
      if length g.payloads == 0
      then true
      else if ltb 1 (length g.controls)
      then false
      else if length g.controls == 0
      then is_clifford_at (find 0 g.payloads)
      else every_payload is_controlled_clifford g.payloads

  -- `*(controls.begin()) == *(other->controls.begin())`, or a set is empty.
  abbrev pub same_first : List ℕ → List ℕ → Bool
  same_first [] ds = true
  same_first (c ∷ cs) [] = true
  same_first (c ∷ cs) (d ∷ ds) = c == d

  unfoldable pub can_combine : Bool → Gate A → Gate A → Bool
  can_combine clifford g other =
      let mc = is_clifford g in
      let oc = is_clifford other in
      let nested = includes other.controls g.controls || includes g.controls other.controls in
      if not (g.target == other.target)
      then false
      else if length g.controls == 0 && length other.controls == 0
      then true
      else if clifford && (mc && not oc || oc && not mc)
      then false
      else if clifford && mc
      then same_first g.controls other.controls
      else nested

  abbrev pub same_payloads : Option (Matrix A) → Option (Matrix A) → Bool
  same_payloads (some l) (some h) = same_matrix num l h
  same_payloads (some l) none = false
  same_payloads none h = false

  -- The loop of `CanRemoveControl`.
  unfoldable pub removable : ℕ → List (ℕ × Matrix A) → List (ℕ × Matrix A) → Bool
  removable mid_pow all [] = true
  removable mid_pow all ((k, m) ∷ ps) =
      let key = bit_and (complement mid_pow) k in
      same_payloads (find key all) (find (bit_or key mid_pow) all) && removable mid_pow all ps

  unfoldable pub can_remove_control : ℕ → Gate A → Bool
  can_remove_control c g = removable (pow2 (position c g.controls)) g.payloads g.payloads

  unfoldable pub try_remove_control : ℕ → Gate A → Bool × Gate A
  try_remove_control c g = if can_remove_control c g then (true, remove_control c g) else (false, g)

  unfoldable pub add_controls : List ℕ → Gate A → Gate A
  add_controls [] g = g
  add_controls (c ∷ cs) g = add_controls cs (add_control c g)

  unfoldable pub try_remove_controls : List ℕ → Gate A → Gate A
  try_remove_controls [] g = g
  try_remove_controls (c ∷ cs) g = try_remove_controls cs (try_remove_control c g).1

  abbrev pub combine_at :
      ℕ → Matrix A → Option (Matrix A) → List (ℕ × Matrix A) → List (ℕ × Matrix A)
  combine_at k m none ps = put_at k m ps
  combine_at k m (some p) ps =
      let out = mul2x2 num m p in
      if is_identity_matrix num out then remove_at k ps else put_at k out ps

  unfoldable pub combine_payloads : List (ℕ × Matrix A) → List (ℕ × Matrix A) → List (ℕ × Matrix A)
  combine_payloads [] ps = ps
  combine_payloads ((k, m) ∷ others) ps = combine_payloads others (combine_at k m (find k ps) ps)

  unfoldable pub clear_gate : Gate A → Gate A
  clear_gate g = record g { controls = []; payloads = (0, identity_matrix num) ∷ [] }

  -- `Combine`, with the other gate, to which it may add controls.
  unfoldable pub combine : Gate A → Gate A → Gate A × Gate A
  combine g other =
      let to_test = common g.controls other.controls in
      let g1 =
        if ltb (length g.controls) (length other.controls)
        then add_controls other.controls g
        else g in
      let other1 =
        if ltb (length other.controls) (length g.controls)
        then add_controls g.controls other
        else other in
      let g2 = record g1 { payloads = combine_payloads other1.payloads g1.payloads } in
      if length g2.payloads == 0
      then (clear_gate g2, other1)
      else (try_remove_controls to_test g2, other1)

  unfoldable pub try_combine : Bool → Gate A → Gate A → Bool × (Gate A × Gate A)
  try_combine clifford g other =
      if can_combine clifford g other then (true, combine g other) else (false, (g, other))

  -- The key of the gate's controls among the bits of the other's key.
  unfoldable pub own_key : List ℕ → List ℕ → ℕ → ℕ → ℕ
  own_key others [] i k = 0
  own_key others (c ∷ cs) i k =
      let rest = own_key others cs (i + 1) k in
      if bit_and k (pow2 (position c others)) == 0 then rest else bit_or (pow2 i) rest

  abbrev pub inverts : Option (Matrix A) → Bool
  inverts none = false
  inverts (some p) = num.is_small p.p0

  unfoldable pub passed :
      Gate A → List ℕ → ℕ → List (ℕ × Matrix A) → List (ℕ × Matrix A) → List (ℕ × Matrix A)
  passed g others p [] done = done
  passed g others p ((k, m) ∷ ps) done =
      let key =
        if inverts (find (own_key others g.controls 0 k) g.payloads) then bit_xor k p else k in
      passed g others p ps (put_at key m done)

  -- `CanPass`, with the other gate, whose keys it may change.
  unfoldable pub can_pass : Gate A → Gate A → Bool × Gate A
  can_pass g other =
      let p = pow2 (position g.target other.controls) in
      if not (has g.target other.controls)
      then (if has other.target g.controls
          then (is_phase other, other)
          else (not (g.target == other.target) || is_phase g && is_phase other, other))
      else if has other.target g.controls
      then (is_phase g && is_phase other, other)
      else if is_phase g
      then (true, other)
      else if not (is_phase_invert g) || not (includes other.controls g.controls)
      then (false, other)
      else (true, record other { payloads = passed g other.controls p other.payloads [] })

-- ===== src/Circuit/Gate.antt =====
-- `QCircuitGate` (include/qcircuit.hpp), but for the constructors and the printed form.
use Prim.Native.Nat.{bit_and, bit_or}
use qrack.Prelude.{
  ℕ, suc, ◌==◌, Bool, true, false, ◌&&◌, ◌||◌, List, [], ◌∷◌, Option, none, some, ltb,
  if◌then◌else◌,
}
use qrack.Bits.Word.{shl, shr, complement, pow2, pow2_mask}
use qrack.Circuit.Matrix.{Matrix}

-- The elements of a set of qubits and the entries of a map, in ascending order.
pub record Gate (A : Type 0) : Type 0 where
  pub target : ℕ
  pub controls : List ℕ
  pub payloads : List (ℕ × Matrix A)

-- The operations of `std::set` and `std::map`.
abbrev pub has : ℕ → List ℕ → Bool
has c [] = false
has c (x ∷ xs) = x == c || has c xs

abbrev pub insert : ℕ → List ℕ → List ℕ
insert c [] = c ∷ []
insert c (x ∷ xs) =
    let rest = insert c xs in if ltb c x then c ∷ x ∷ xs else if x == c then x ∷ xs else x ∷ rest

abbrev pub erase : ℕ → List ℕ → List ℕ
erase c [] = []
erase c (x ∷ xs) = let rest = erase c xs in if x == c then xs else x ∷ rest

-- `std::distance(begin, find(c))`.
abbrev pub position : ℕ → List ℕ → ℕ
position c [] = 0
position c (x ∷ xs) = let rest = position c xs in if x == c then 0 else suc rest

abbrev pub includes : List ℕ → List ℕ → Bool
includes xs [] = true
includes xs (y ∷ ys) = has y xs && includes xs ys

abbrev pub common : List ℕ → List ℕ → List ℕ
common [] ys = []
common (x ∷ xs) ys = let rest = common xs ys in if has x ys then x ∷ rest else rest

module _ {M : Type 0} where
  abbrev pub find : ℕ → List (ℕ × M) → Option M
  find k [] = none
  find k ((j, m) ∷ ps) = let rest = find k ps in if j == k then some m else rest

  -- `emplace` keeps an entry that is there, `put_at` replaces it.
  abbrev pub emplace : ℕ → M → List (ℕ × M) → List (ℕ × M)
  emplace k m [] = (k, m) ∷ []
  emplace k m ((j, n) ∷ ps) =
      let rest = emplace k m ps in
      if ltb k j then (k, m) ∷ (j, n) ∷ ps else if j == k then (j, n) ∷ ps else (j, n) ∷ rest

  abbrev pub put_at : ℕ → M → List (ℕ × M) → List (ℕ × M)
  put_at k m [] = (k, m) ∷ []
  put_at k m ((j, n) ∷ ps) =
      let rest = put_at k m ps in
      if ltb k j then (k, m) ∷ (j, n) ∷ ps else if j == k then (k, m) ∷ ps else (j, n) ∷ rest

  abbrev pub remove_at : ℕ → List (ℕ × M) → List (ℕ × M)
  remove_at k [] = []
  remove_at k ((j, n) ∷ ps) = let rest = remove_at k ps in if j == k then ps else (j, n) ∷ rest

  abbrev pub every_payload : (M → Bool) → List (ℕ × M) → Bool
  every_payload test [] = true
  every_payload test ((k, m) ∷ ps) = test m && every_payload test ps

-- The key with a 0 at a bit's place, and the key without the bit.
unfoldable pub widen : ℕ → ℕ → ℕ
widen cpos key =
    let low_mask = pow2_mask cpos in
    bit_or (bit_and key low_mask) (shl (bit_and key (complement low_mask)) 1)

unfoldable pub narrow : ℕ → ℕ → ℕ
narrow cpos key =
    let mid_pow = pow2 cpos in
    let low_mask = pow2_mask cpos in
    let high_mask = complement (bit_or low_mask mid_pow) in
    bit_or (bit_and key low_mask) (shr (bit_and key high_mask) 1)

module _ {A : Type 0} where
  unfoldable pub widened : ℕ → List (ℕ × Matrix A) → List (ℕ × Matrix A) → List (ℕ × Matrix A)
  widened cpos [] done = done
  widened cpos ((k, m) ∷ ps) done =
      let key = widen cpos k in
      widened cpos ps (emplace (bit_or key (pow2 cpos)) m (emplace key m done))

  unfoldable pub add_control : ℕ → Gate A → Gate A
  add_control c g =
      let controls = insert c g.controls in
      if has c g.controls
      then g
      else record g { controls = controls; payloads = widened (position c controls) g.payloads [] }

  unfoldable pub narrowed : ℕ → List (ℕ × Matrix A) → List (ℕ × Matrix A) → List (ℕ × Matrix A)
  narrowed cpos [] done = done
  narrowed cpos ((k, m) ∷ ps) done = narrowed cpos ps (emplace (narrow cpos k) m done)

  unfoldable pub remove_control : ℕ → Gate A → Gate A
  remove_control c g = record g {
    controls = erase c g.controls;
    payloads = narrowed (position c g.controls) g.payloads [];
  }

  unfoldable pub selected :
      ℕ → Bool → List (ℕ × Matrix A) → List (ℕ × Matrix A) → List (ℕ × Matrix A)
  selected cpos eigen [] done = done
  selected cpos eigen ((k, m) ∷ ps) done =
      let next = emplace (narrow cpos k) m done in
      let qubit_pow = pow2 cpos in
      let eigen_pow = if eigen then qubit_pow else 0 in
      selected cpos eigen ps (if bit_and k qubit_pow == eigen_pow then next else done)

  unfoldable pub post_select_control : ℕ → Bool → Gate A → Gate A
  post_select_control c eigen g =
      if has c g.controls
      then record g {
        controls = erase c g.controls;
        payloads = selected (position c g.controls) eigen g.payloads [];
      }
      else g

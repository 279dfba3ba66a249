-- ===== src/Stabilizer/CircuitKeeps.antt =====
-- The constructor and every circuit of gates give a valid tableau.
use qrack.Prelude.{
  ◌≢◌, true, ℕ, zero, suc, ◌+◌, ◌*◌, ◌-◌, ◌<◌, ◌≡◌, refl, ◌∙◌, arith, false, List, [], ◌∷◌, inl,
  inr, if◌then◌else◌, if_both, for_upto-inv, for_upto-steps, ◌==◌, ltb, replicate, length-replicate,
  get_or, for_upto, length, Bool-cases,
}
use qrack.Stabilizer.Row.{Row, blank_row, observable}
use qrack.Stabilizer.RowGates.{x_row}
use qrack.Stabilizer.Acts.{Place, one, two, IsPlace}
use qrack.Stabilizer.GateActs.{Gate, place, row_of}
use qrack.Stabilizer.Tableau.{
  Tableau, domain_error, ok, err, row, set_row, map_rows, par_for, out_of_bounds, initial_row,
  reset, set_permutation, create, bit_of, elem_count,
}
use qrack.Stabilizer.Observable.{observable-IsRow, observable_r, anticommute-observable}
use qrack.Stabilizer.Amplitude.{get_amplitude}
use qrack.Stabilizer.ScratchKeeps.{get_amplitude-Keeps, blank_row-IsRow}
use qrack.Stabilizer.GateKeeps.{map_rows-Keeps}
use qrack.Stabilizer.Gates.{
  apply, run, cnot, anti_cnot, cy, anti_cy, cz, anti_cz, swap, iswap, iiswap, h, x, y, z, s, is,
}
use qrack.Stabilizer.Valid.{
  IsTableau, IsValid, Keeps, make-Keeps, row-set_row_in, set_row-IsTableau,
}

initial_row-observable : (n i : ℕ) → initial_row n i ≡ observable n i
unfolding initial_row
initial_row-observable n i = elim (Bool-cases (ltb i n)) [
  | inl e ↦ rw e
  | inr e ↦ let q : i - n + n ≡ i = ground arith in rw (e, q)
]

-- What the loop of `SetPermutation` has done after `k` rows.
record IsReset (n k : ℕ) (t : Tableau) : Type 0 where
  shape : IsTableau t
  count : t.qubit_count ≡ n
  done : (j : ℕ) → j < k → row t j ≡ observable n j

IsReset-round :
    (n k : ℕ) (t : Tableau)
    → k < 2 * n
    → IsReset n k t
    → IsReset n (suc k) (set_row t k (initial_row n k))
IsReset-round n k t lt p =
    let c = p.count in
    record {
      shape =
          set_row-IsTableau p.shape k (omega arith)
            (simp (c, initial_row-observable) (observable-IsRow n k));
      count = c;
      done = λ j h.
          row-set_row_in p.shape k j (initial_row n k) (omega arith) ∙ elim (Bool-cases (k == j)) [
            | inl e ↦ let q : k ≡ j = ground arith in rw (e, ← q) (initial_row-observable n k)
            | inr e ↦ rw e (p.done j (ground arith))
          ];
    }

reset-IsReset :
    {t : Tableau} → IsTableau t → IsReset t.qubit_count (elem_count t.qubit_count) (reset t)
unfolding reset
reset-IsReset {t} v =
    let n = t.qubit_count in
    let clear = λ (i : ℕ) (u : Tableau). set_row u i (record (row u i) { r = 0 }) in
    let (w, c) =
      for_upto-inv (λ u. IsTableau u × (u.qubit_count ≡ n)) (length t.rows) clear t
        (λ i u lt (p, e).
          let a = p.is_row i (omega (arith, v.row_count)) in
          (
            set_row-IsTableau p i (omega (arith, v.row_count))
                (record { length_x = a.length_x; length_z = a.length_z; phase = omega arith }),
            e,
          ))
        (v, refl) in
    for_upto-steps (IsReset n) (elem_count n) (λ i t. set_row t i (initial_row n i))
      (for_upto (length t.rows) clear t) (λ k u lt p. IsReset-round n k u (omega arith) p)
      (record { shape = w; count = c; done = λ j h. absurd (omega arith) })

reset-Keeps : {t : Tableau} → t.qubit_count < 128 → IsTableau t → Keeps t.qubit_count (reset t)
reset-Keeps {t} small v =
    let r = reset-IsReset v in
    let n = t.qubit_count in
    make-Keeps r.count r.shape
      (λ i j hi hj.
        rw (r.done i (omega arith), r.done j (omega arith)) (anticommute-observable n i j hi hj))
      (λ i hi. rw (r.done i (omega arith), observable_r n i))

-- `SetPermutation` of fewer than 128 qubits gives a valid tableau, whatever the rows held before.
pub set_permutation-Keeps :
    (perm : ℕ) {t : Tableau}
    → t.qubit_count < 128
    → IsTableau t
    → Keeps t.qubit_count (set_permutation perm t)
unfolding set_permutation
set_permutation-Keeps perm {t} small v =
    let n = t.qubit_count in
    for_upto-inv (Keeps n) n (λ j u. if bit_of perm j then map_rows (x_row j) u else u) (reset t)
      (λ j u lt p.
        if_both (Keeps n) (bit_of perm j) (map_rows (x_row j) u) u
          (map_rows-Keeps n small (Gate.x_gate j) lt p) p)
      (reset-Keeps small v)

get_or-replicate_in : (m i : ℕ) (a d : Row) → i < m → get_or (replicate m a) i d ≡ a
get_or-replicate_in zero i a d lt = absurd (omega arith)
get_or-replicate_in (suc m) zero a d lt = refl
get_or-replicate_in (suc m) (suc i) a d lt = get_or-replicate_in m i a d (omega arith)

pub create-Keeps : (n perm : ℕ) → n < 128 → Keeps n (create n perm)
unfolding create
create-Keeps n perm small = set_permutation-Keeps perm small (record {
  row_count = length-replicate (2 * n + 1) (blank_row n);
  is_row = λ i lt.
      rw (get_or-replicate_in (2 * n + 1) i (blank_row n) (blank_row 0) lt) (blank_row-IsRow n);
})

-- The qubits that a gate hands to `ParFor`.
abbrev pub qubits : Place → List ℕ
qubits (one t) = t ∷ []
qubits (two c t) = c ∷ t ∷ []

-- The two qubits of a gate on two are different.
abbrev pub IsProper : Place → Type 0
IsProper (one t) = Unit
IsProper (two c t) = c ≢ t

in_bounds : (n m : ℕ) (p : Place) → m ≡ n → IsPlace n p → out_of_bounds m (qubits p) ≡ false
unfolding out_of_bounds
in_bounds n m (one t) e h = ground arith
in_bounds n m (two c t) e h = ground arith

par_for-Keeps :
    (n : ℕ)
    → n < 128
    → (g : Gate) {q : Tableau} → IsPlace n (place g)
    → Keeps n q
    → (par_for (row_of g) (qubits (place g)) q ≡ ok (map_rows (row_of g) q))
      × Keeps n (map_rows (row_of g) q)
unfolding par_for
par_for-Keeps n small g {q} p k =
    (rw (in_bounds n q.qubit_count (place g) k.count p), map_rows-Keeps n small g p k)

-- A gate whose qubits, of fewer than 128, are in range, and different, returns, and keeps the invariant.
pub apply-Keeps :
    (n : ℕ)
    → n < 128
    → (g : Gate) {q : Tableau} → IsPlace n (place g)
    → Keeps n q
    → (u : Tableau) × (apply g q ≡ ok u) × Keeps n u
unfolding apply h x y z s is cnot anti_cnot cy anti_cy cz anti_cz swap iswap iiswap
apply-Keeps n small (Gate.h_gate t) p k =
    let (e, r) = par_for-Keeps n small (Gate.h_gate t) p k in (_, e, r)
apply-Keeps n small (Gate.x_gate t) p k =
    let (e, r) = par_for-Keeps n small (Gate.x_gate t) p k in (_, e, r)
apply-Keeps n small (Gate.y_gate t) p k =
    let (e, r) = par_for-Keeps n small (Gate.y_gate t) p k in (_, e, r)
apply-Keeps n small (Gate.z_gate t) {q} p k =
    let (e, r) = par_for-Keeps n small (Gate.z_gate t) p k in
    ((get_amplitude 0 (map_rows (row_of (Gate.z_gate t)) q)).1, rw e, get_amplitude-Keeps small 0 r)
apply-Keeps n small (Gate.s_gate t) p k =
    let (e, r) = par_for-Keeps n small (Gate.s_gate t) p k in (_, e, r)
apply-Keeps n small (Gate.is_gate t) p k =
    let (e, r) = par_for-Keeps n small (Gate.is_gate t) p k in (_, e, r)
apply-Keeps n small (Gate.cnot c t) p k =
    let (e, r) = par_for-Keeps n small (Gate.cnot c t) p k in (_, e, r)
apply-Keeps n small (Gate.anti_cnot c t) p k =
    let (e, r) = par_for-Keeps n small (Gate.anti_cnot c t) p k in (_, e, r)
apply-Keeps n small (Gate.cy c t) p k =
    let (e, r) = par_for-Keeps n small (Gate.cy c t) p k in (_, e, r)
apply-Keeps n small (Gate.anti_cy c t) p k =
    let (e, r) = par_for-Keeps n small (Gate.anti_cy c t) p k in (_, e, r)
apply-Keeps n small (Gate.cz c t) p k =
    let (e, r) = par_for-Keeps n small (Gate.cz c t) p k in (_, e, r)
apply-Keeps n small (Gate.anti_cz c t) p k =
    let (e, r) = par_for-Keeps n small (Gate.anti_cz c t) p k in (_, e, r)
apply-Keeps n small (Gate.swap c t) p k =
    let (e, r) = par_for-Keeps n small (Gate.swap c t) p k in (_, ground (arith, e), r)
apply-Keeps n small (Gate.iswap c t) p k =
    let (e, r) = par_for-Keeps n small (Gate.iswap c t) p k in (_, ground (arith, e), r)
apply-Keeps n small (Gate.iiswap c t) p k =
    let (e, r) = par_for-Keeps n small (Gate.iiswap c t) p k in (_, ground (arith, e), r)

abbrev pub Placed : ℕ → List Gate → Type 0
Placed n [] = Unit
Placed n (g ∷ gs) = IsPlace n (place g) × Placed n gs

-- A circuit, on fewer than 128 qubits, whose gates all have their qubits in range runs to its end and keeps the invariant.
pub run-Keeps :
    (n : ℕ)
    → n < 128
    → (gs : List Gate) {q : Tableau} → Placed n gs
    → Keeps n q
    → (u : Tableau) × (run gs q ≡ ok u) × Keeps n u
unfolding run
run-Keeps n small [] p k = (_, refl, k)
run-Keeps n small (g ∷ gs) p k =
    let (u, e, r) = apply-Keeps n small g p.0 k in
    let (w, f, l) = run-Keeps n small gs p.1 r in (w, rw (e, f), l)

-- A new simulator of `n` qubits, fewer than 128, at any basis state, runs every circuit of gates whose qubits are
-- in range, and different for a gate on two, to its end, and its tableau is valid then: 2n + 1
-- rows of n qubits, each row anticommuting with its partner and with no other, all signs real.
pub run-create-IsValid :
    (n perm : ℕ) (gs : List Gate)
    → n < 128
    → Placed n gs
    → (u : Tableau) × (run gs (create n perm) ≡ ok u) × IsValid u × (u.qubit_count ≡ n)
run-create-IsValid n perm gs small p =
    let (u, e, k) = run-Keeps n small gs p (create-Keeps n perm small) in (u, e, k.valid, k.count)

-- A gate with a qubit out of range, and with two different qubits if it is on two, throws a domain
-- error, whatever the tableau.
pub apply-out_of_bounds :
    (g : Gate) (q : Tableau)
    → out_of_bounds q.qubit_count (qubits (place g)) ≡ true
    → IsProper (place g)
    → apply g q ≡ err domain_error
unfolding apply h x y z s is cnot anti_cnot cy anti_cy cz anti_cz swap iswap iiswap par_for
apply-out_of_bounds (Gate.h_gate t) q e p = rw e
apply-out_of_bounds g q e p = ground (arith, e)

-- ===== src/Stabilizer/ScratchKeeps.antt =====
-- What is written to the scratch row, by `seed` and by the walk over the basis states, does not
-- touch the invariant.
use qrack.Prelude.{
  ℕ, zero, suc, ◌+◌, ◌*◌, ◌-◌, ◌^◌, ◌<◌, ◌≡◌, ◌∙◌, arith, false, Option, some, if◌then◌else◌,
  if_both, not, for_upto-inv, ◌==◌, set, length-set, length-replicate, bit,
}
use Prim.Native.Nat.{bit_xor}
use qrack.Stabilizer.Row.{Row, blank_row, mult_row}
use qrack.Stabilizer.Pauli.{IsRow}
use qrack.Stabilizer.Product.{mult_row-IsRow}
use qrack.Stabilizer.Tableau.{Tableau, elem_count, row, set_row, row_mult, bit_of}
use qrack.Stabilizer.Gaussian.{gaussian, seed, seed_round, seed_scan_down}
use qrack.Stabilizer.GaussianKeeps.{gaussian-IsValid}
use qrack.Stabilizer.Amplitude.{next_basis_state, search_amplitude, get_amplitude, get_basis_amp}
use qrack.Stabilizer.Valid.{
  Keeps, make-Keeps, Keeps-symplectic, Keeps-real, keeps_row, row-set_row_in, set_row-IsTableau,
}

mult_row-IsRow_at : (m n : ℕ) → m ≡ n → {a : Row} (b : Row) → IsRow n a → IsRow n (mult_row m a b)
mult_row-IsRow_at m n e b h = rw e (mult_row-IsRow n b h)

module _ {n : ℕ} {s : Tableau} (h : Keeps n s) (k : ℕ) (e : k ≡ 2 * n) where
  row_above : (a : Row) (i : ℕ) → i < 2 * n → row (set_row s k a) i ≡ row s i
  row_above a i hi =
      let c = h.count in ground (arith, row-set_row_in h.valid.shape k i a (omega arith))

  pub scratch-Keeps : {a : Row} → IsRow n a → Keeps n (set_row s k a)
  scratch-Keeps {a} ha =
      let c = h.count in
      make-Keeps c (set_row-IsTableau h.valid.shape k (omega arith) (simp c ha))
        (λ i j hi hj. rw (row_above a i hi, row_above a j hj) (Keeps-symplectic h i j hi hj))
        (λ i hi. rw (row_above a i hi) (Keeps-real h i hi))

  -- `rowmult` into the scratch row.
  pub row_mult_scratch-Keeps : (l : ℕ) → Keeps n (row_mult k l s)
  unfolding row_mult
  row_mult_scratch-Keeps l =
      let c = h.count in
      scratch-Keeps (mult_row-IsRow_at s.qubit_count n c (row s l) (keeps_row h k (omega arith)))

pub blank_row-IsRow : (n : ℕ) → IsRow n (blank_row n)
blank_row-IsRow n = record {
  length_x = length-replicate n false;
  length_z = length-replicate n false;
  phase = omega arith;
}

seed_round-IsRow : (n : ℕ) (a : Row) (m : ℕ × Row) → IsRow n m.1 → IsRow n (seed_round n a m).1
unfolding seed_round
seed_round-IsRow n a m h =
    let c = seed_scan_down n a m.1 (record { f = a.r; min = m.0 }) in
    if_both (λ (p : ℕ × Row). IsRow n p.1) (c.f == 2)
      (c.min, record m.1 { x = set m.1.x c.min (not (bit m.1.x c.min)) }) (c.min, m.1)
      (record {
        length_x = length-set m.1.x c.min (not (bit m.1.x c.min)) ∙ h.length_x;
        length_z = h.length_z;
        phase = h.phase;
      })
      h

blank_at : (m n : ℕ) → m ≡ n → IsRow n (blank_row m)
blank_at m n e = rw e (blank_row-IsRow n)

seed_round-IsRow_at :
    (m n : ℕ) → m ≡ n → (a : Row) (p : ℕ × Row) → IsRow n p.1 → IsRow n (seed_round m a p).1
seed_round-IsRow_at m n e a p h = rw e (seed_round-IsRow n a p h)

pub seed-Keeps : {n : ℕ} → n < 128 → (g : ℕ) {s : Tableau} → Keeps n s → Keeps n (seed g s)
unfolding seed
seed-Keeps {n} small g {s} h =
    let c = h.count in
    let m = s.qubit_count in
    let top = elem_count m in
    scratch-Keeps h top (omega arith) (
      for_upto-inv (λ (p : ℕ × Row). IsRow n p.1) (top - (m + g))
        (λ d p. seed_round m (row s (top - 1 - d)) p) (0, blank_row m)
        (λ d p lt q. seed_round-IsRow_at m n c (row s (top - 1 - d)) p q) (blank_at m n c))

next_basis_state-Keeps :
    {n : ℕ} → n < 128 → (g t : ℕ) {s : Tableau} → Keeps n s → Keeps n (next_basis_state g t s)
unfolding next_basis_state
next_basis_state-Keeps {n} small g t {s} h =
    for_upto-inv (Keeps n) g
      (λ i s.
        if bit_of (bit_xor t (t + 1)) i
        then row_mult (elem_count s.qubit_count) (s.qubit_count + i) s
        else s)
      s
      (λ i u lt p.
        let c = p.count in
        if_both (Keeps n) (bit_of (bit_xor t (t + 1)) i)
          (row_mult (elem_count u.qubit_count) (u.qubit_count + i) u) u
          (row_mult_scratch-Keeps p (elem_count u.qubit_count) (omega arith) (u.qubit_count + i)) p)
      h

search_amplitude-Keeps :
    {n : ℕ}
    → n < 128
    → (perm g rounds t : ℕ) {s : Tableau} → Keeps n s
    → Keeps n (search_amplitude perm g rounds t s).1
unfolding search_amplitude
search_amplitude-Keeps small perm g zero t h = h
search_amplitude-Keeps {n} small perm g (suc rounds) t {s} h =
    let s1 = next_basis_state g t s in
    let k = next_basis_state-Keeps small g t h in
    if_both (λ (p : Option ℕ × Tableau). Keeps n p.1) ((get_basis_amp s1).permutation == perm)
      (some (get_basis_amp s1).power, s1) (search_amplitude perm g rounds (t + 1) s1) k
      (search_amplitude-Keeps small perm g rounds (t + 1) k)

-- Reading an amplitude of a valid tableau of fewer than 128 qubits, which rearranges the generators,
-- leaves a valid tableau of as many qubits.
pub get_amplitude-Keeps :
    {n : ℕ} → n < 128 → (perm : ℕ) {s : Tableau} → Keeps n s → Keeps n (get_amplitude perm s).1
unfolding get_amplitude
get_amplitude-Keeps {n} small perm {s} h =
    let (v, c, le) = gaussian-IsValid h.valid in
    let g = (gaussian s).0 in
    let s2 = seed g (gaussian s).1 in
    let k = seed-Keeps small g (record { valid = v; count = c ∙ h.count }) in
    if_both (λ (p : Option ℕ × Tableau). Keeps n p.1) ((get_basis_amp s2).permutation == perm)
      (some (get_basis_amp s2).power, s2) (search_amplitude perm g (2 ^ g - 1) 0 s2) k
      (search_amplitude-Keeps small perm g (2 ^ g - 1) 0 k)

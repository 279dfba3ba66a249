-- ===== src/Stabilizer/GaussianKeeps.antt =====
-- `gaussian` keeps the invariant, and its count stays within the number of qubits.
use qrack.Prelude.{
  ℕ, zero, suc, ◌+◌, ◌*◌, ◌-◌, ◌<◌, ◌≤◌, ◌≡◌, refl, arith, Bool, true, false, Option, none, some,
  inl, inr, bit, for_upto-inv, for_upto-steps, ◌==◌, Bool-cases,
}
use qrack.Stabilizer.Row.{Row}
use qrack.Stabilizer.Tableau.{Tableau, elem_count, row, row_swap}
use qrack.Stabilizer.Gaussian.{
  find_from, eliminate, pivot, Elimination, gaussian_round, gaussian_x, gaussian_z, gaussian,
}
use qrack.Stabilizer.Valid.{Keeps, IsValid}
use qrack.Stabilizer.Eliminate.{eliminate-Keeps, row_swap_both-Keeps}

-- The search returns the first index of its range that passes the test.
pub record IsFirst (test : ℕ → Bool) (lo count k : ℕ) : Type 0 where
  pub from : lo ≤ k
  pub below : k < lo + count
  pub passes : test k ≡ true
  pub earlier : (j : ℕ) → lo ≤ j → j < k → test j ≡ false

pub find_from-some :
    (test : ℕ → Bool) (lo count k : ℕ) → find_from test lo count ≡ some k → IsFirst test lo count k
unfolding find_from
find_from-some test lo zero k e = cc
find_from-some test lo (suc count) k e = elim (Bool-cases (test lo)) [
  | inl p ↦
      let q : lo ≡ k = ground (arith, p, e) in
      record {
        from = omega arith;
        below = omega arith;
        passes = rw q at p;
        earlier = λ j f g. absurd (omega arith);
      }
  | inr p ↦
      let r = find_from-some test (lo + 1) count k (ground (arith, p, e)) in
      let a = r.from in
      let b = r.below in
      record {
        from = omega arith;
        below = omega arith;
        passes = r.passes;
        earlier = λ j f g. elim (Bool-cases (lo == j)) [
          | inl d ↦ let q : lo ≡ j = ground arith in rw q at p
          | inr d ↦ r.earlier j (ground arith) g
        ];
      }
]

pub find_from-none :
    (test : ℕ → Bool) (lo count : ℕ)
    → find_from test lo count ≡ none
    → (k : ℕ) → lo ≤ k
    → k < lo + count
    → test k ≡ false
unfolding find_from
find_from-none test lo zero e k f g = absurd (omega arith)
find_from-none test lo (suc count) e k f g = elim (Bool-cases (test lo)) [
  | inl p ↦ absurd (ground (arith, p, e))
  | inr p ↦ elim (Bool-cases (lo == k)) [
    | inl d ↦ let q : lo ≡ k = ground arith in rw q at p
    | inr d ↦
        find_from-none test (lo + 1) count (ground (arith, p, e)) k (ground arith) (omega arith)
  ]
]

pub pivot-Keeps :
    (has : Row → Bool) (n i k : ℕ) {s : Tableau}
    → Keeps n s
    → n ≤ i
    → i ≤ k
    → k < 2 * n
    → Keeps n (pivot has i k s)
unfolding pivot
pivot-Keeps has n i k {s} h hi le hk =
    let c = h.count in
    for_upto-inv (Keeps n) (elem_count s.qubit_count - (i + 1))
      (λ d s. eliminate has i (i + 1 + d) s)
      (row_swap (i - s.qubit_count) (k - s.qubit_count) (row_swap i k s))
      (λ d t lt p. eliminate-Keeps has n i (i + 1 + d) p hi (omega arith) (omega arith))
      (simp c (row_swap_both-Keeps h i k hi (omega arith) (omega arith) hk))

-- A round goes on one row at most, and never past the last.
pub record IsElimination (n j : ℕ) (e : Elimination) : Type 0 where
  pub keeps : Keeps n e.tableau
  pub from : n ≤ e.i
  pub rows : e.i ≤ 2 * n
  pub rounds : e.i ≤ n + j

pub gaussian_round-IsElimination :
    (has : Row → Bool) (n j : ℕ) (e : Elimination)
    → IsElimination n j e
    → IsElimination n (suc j) (gaussian_round has e)
unfolding gaussian_round
gaussian_round-IsElimination has n j e h =
    go (find_from (λ k. has (row e.tableau k)) e.i (elem_count e.tableau.qubit_count - e.i)) refl
  where
    go :
        (o : Option ℕ)
        → find_from (λ k. has (row e.tableau k)) e.i (elem_count e.tableau.qubit_count - e.i) ≡ o
        → IsElimination n (suc j) (elim o [
          | none ↦ e
          | some k ↦ record { i = e.i + 1; tableau = pivot has e.i k e.tableau }
        ])
    go none q = record {
      keeps = h.keeps;
      from = h.from;
      rows = h.rows;
      rounds = let r = h.rounds in omega arith;
    }
    go (some k) q =
        let f =
          find_from-some (λ k. has (row e.tableau k)) e.i (elem_count e.tableau.qubit_count - e.i) k
            q in
        let c = h.keeps.count in
        let a = f.from in
        let b = f.below in
        let d = h.from in
        let l = h.rows in
        let r = h.rounds in
        record {
          keeps = pivot-Keeps has n e.i k h.keeps d a (omega arith);
          from = omega arith;
          rows = omega arith;
          rounds = omega arith;
        }

pub gaussian_x-IsElimination : {n : ℕ} {s : Tableau} → Keeps n s → IsElimination n n (gaussian_x s)
unfolding gaussian_x
gaussian_x-IsElimination {n} {s} h =
    let c = h.count in
    simp c (
      for_upto-steps (IsElimination n) n (λ j e. gaussian_round (λ a. bit a.x j) e)
        (record { i = n; tableau = s })
        (λ j e lt p. gaussian_round-IsElimination (λ a. bit a.x j) n j e p)
        (record { keeps = h; from = omega arith; rows = omega arith; rounds = omega arith }))

gaussian_z-IsElimination :
    {n k : ℕ} (m : ℕ) {e : Elimination}
    → IsElimination n k e
    → (l : ℕ) × IsElimination n l (gaussian_z m e)
unfolding gaussian_z
gaussian_z-IsElimination {n} {k} m {e} h =
    for_upto-inv (λ e. (l : ℕ) × IsElimination n l e) m (λ j e. gaussian_round (λ a. bit a.z j) e) e
      (λ j e lt p. (suc p.0, gaussian_round-IsElimination (λ a. bit a.z j) n p.0 e p.1)) (k, h)

-- Gaussian elimination keeps a valid tableau valid and its number of qubits, and counts
-- at most as many generators with an X as there are qubits.
pub gaussian-IsValid :
    {s : Tableau}
    → IsValid s
    → IsValid (gaussian s).1
      × ((gaussian s).1.qubit_count ≡ s.qubit_count)
      × ((gaussian s).0 ≤ s.qubit_count)
unfolding gaussian
gaussian-IsValid {s} v =
    let x = gaussian_x-IsElimination (record { valid = v; count = refl }) in
    let z = gaussian_z-IsElimination s.qubit_count x in
    let r = x.rounds in (z.1.keeps.valid, z.1.keeps.count, omega arith)

-- The search finds an index if no other one passes before it.
pub find_from-eq_some :
    (test : ℕ → Bool) (lo count k : ℕ) → IsFirst test lo count k → find_from test lo count ≡ some k
unfolding find_from
find_from-eq_some test lo zero k f = let a = f.from in let b = f.below in absurd (omega arith)
find_from-eq_some test lo (suc count) k f =
    let a = f.from in
    let b = f.below in
    elim (Bool-cases (lo == k)) [
      | inl y ↦ let q : lo ≡ k = ground arith in rw (q, f.passes)
      | inr y ↦ rw (f.earlier lo (omega arith) (ground arith)) (
          find_from-eq_some test (lo + 1) count k (record {
            from = ground arith;
            below = omega arith;
            passes = f.passes;
            earlier = λ j c d. f.earlier j (omega arith) d;
          }))
    ]

pub find_from-eq_none :
    (test : ℕ → Bool) (lo count : ℕ)
    → ((k : ℕ) → lo ≤ k → k < lo + count → test k ≡ false)
    → find_from test lo count ≡ none
unfolding find_from
find_from-eq_none test lo zero f = refl
find_from-eq_none test lo (suc count) f =
    rw (f lo (omega arith) (omega arith))
      (find_from-eq_none test (lo + 1) count (λ k a b. f k (omega arith) (omega arith)))

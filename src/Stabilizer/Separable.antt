-- ===== src/Stabilizer/Separable.antt =====
-- `IsSeparableZ`, `IsSeparableX`, `IsSeparableY` and `IsSeparable`.
use qrack.Prelude.{
  ◌&&◌, ℕ, ◌+◌, ◌<◌, ◌≡◌, refl, ◌∙◌, arith, Bool, true, false, not, Option, none, some,
  if◌then◌else◌, bit, leb, xor,
}
use qrack.Stabilizer.Tableau.{Tableau, invalid_argument, Result, ok, err, ◌>>=◌, row}
use qrack.Stabilizer.Gaussian.{find_from}
use qrack.Stabilizer.GaussianKeeps.{find_from-some}
use qrack.Stabilizer.Gates.{h, s, is}
use qrack.Stabilizer.Measure.{force_m, m, collapse}
use qrack.Stabilizer.MeasureAgain.{force_m-after, no_random, with_scratch}
use qrack.Stabilizer.MeasureKeeps.{collapse-Keeps}
use qrack.Stabilizer.Valid.{Keeps}

-- The loop over the stabilizers: `true` unless one has an X or a Y at `t`.
unfoldable pub is_separable_z : ℕ → Tableau → Result Bool
is_separable_z t q =
    if leb q.qubit_count t
    then err invalid_argument
    else elim (find_from (λ p. bit (row q (p + q.qubit_count)).x t) 0 q.qubit_count) [
      | none ↦ ok true
      | some p ↦ ok false
    ]

-- The gates change the tableau and are undone; the test's answer comes with the last tableau.
unfoldable pub is_separable_x : ℕ → Tableau → Result (Bool × Tableau)
is_separable_x t q = do q1 ← h t q; b ← is_separable_z t q1; q2 ← h t q1; ok (b, q2)

unfoldable pub is_separable_y : ℕ → Tableau → Result (Bool × Tableau)
is_separable_y t q = do q1 ← is t q; r ← is_separable_x t q1; q2 ← s t r.1; ok (r.0, q2)

-- 1, 2 or 3 for an eigenstate of Z, X or Y, and 0 for none.
unfoldable pub is_separable : ℕ → Tableau → Result (ℕ × Tableau)
is_separable t q = is_separable_z t q >>= λ z.
    if z
    then ok (1, q)
    else is_separable_x t q >>= λ x.
        if x.0 then ok (2, x.1) else is_separable_y t x.1 >>= λ y. ok (if y.0 then 3 else 0, y.1)

found :
    (t : ℕ) (q : Tableau)
    → is_separable_z t q ≡ ok false
    → (p : ℕ) × (find_from (λ p. bit (row q (p + q.qubit_count)).x t) 0 q.qubit_count ≡ some p)
unfolding is_separable_z
found t q random = go (find_from (λ p. bit (row q (p + q.qubit_count)).x t) 0 q.qubit_count) refl
  where
    go :
        (o : Option ℕ)
        → find_from (λ p. bit (row q (p + q.qubit_count)).x t) 0 q.qubit_count ≡ o
        → (p : ℕ) × (find_from (λ p. bit (row q (p + q.qubit_count)).x t) 0 q.qubit_count ≡ some p)
    go none e = absurd (ground (arith, random, e))
    go (some p) e = (p, e)

refused :
    (b : Bool) (v : Result (Bool × Tableau))
    → (if true && xor (not b) b then err invalid_argument else v) ≡ err invalid_argument
refused true v = refl
refused false v = refl

-- A qubit in range of a valid tableau of fewer than 128 qubits that is in no eigenstate of Z has a random
-- outcome: the measurement returns the forced result, or the random bit, and leaves a tableau in which the qubit is an eigenstate of Z. Measuring it
-- again gives the same outcome whatever the random bit, and forcing the other outcome throws.
pub force_m-repeat :
    {n : ℕ} {q : Tableau} (k : Keeps n q) (t : ℕ) (result do_force rand again : Bool)
    → n < 128
    → t < n
    → is_separable_z t q ≡ ok false
    → let b = if do_force then result else rand in
      (u : Tableau) × (force_m t result do_force true rand q ≡ ok (b, u))
      × (is_separable_z t u ≡ ok true)
      × ((v : Tableau) × (m t again u ≡ ok (b, v)))
      × (force_m t (not b) true true again u ≡ err invalid_argument)
unfolding force_m m is_separable_z
force_m-repeat {n} {q} k t result do_force rand again small lt random =
    let c = k.count in
    let (p, e) = found t q random in
    let f = find_from-some (λ p. bit (row q (p + q.qubit_count)).x t) 0 q.qubit_count p e in
    let below = f.below in
    let b : Bool = if do_force then result else rand in
    let hp : p < n = omega arith in
    let anti : bit (row q (p + n)).x t ≡ true = simp c at (f.passes) in
    let u = collapse t p b q in
    let d = (collapse-Keeps k t p b small lt hp anti).count in
    let in_range : leb q.qubit_count t ≡ false = ground arith in
    let in_range' : leb u.qubit_count t ≡ false = ground arith in
    let none' = no_random k t p b small lt hp anti in
    (
      u,
      (let a : (do_force && not true) ≡ false = ground arith in rw (in_range, a, force_m, e)),
      rw (in_range', is_separable_z, none'),
      (with_scratch p u, force_m-after k t p b small lt hp anti false false again),
      force_m-after k t p b small lt hp anti (not b) true again
          ∙ refused b (ok (b, with_scratch p u)),
    )

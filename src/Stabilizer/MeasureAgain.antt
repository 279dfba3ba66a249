-- ===== src/Stabilizer/MeasureAgain.antt =====
-- A measured qubit gives its outcome again, and `ForceM` on every branch.
use qrack.Prelude.{
  ℕ, ◌+◌, ◌*◌, ◌-◌, ◌<◌, ◌≡◌, refl, ◌∙◌, arith, Bool, true, false, not, ◌&&◌, if◌then◌else◌,
  if_both, for_upto-inv, ◌==◌, leb, bit, xor, Option, none, some,
}
use qrack.Stabilizer.Tableau.{
  Tableau, elem_count, row, set_row, row_copy, row_mult, Result, ok, err, invalid_argument,
}
use qrack.Stabilizer.Gaussian.{find_from}
use qrack.Stabilizer.GaussianKeeps.{find_from-some, find_from-eq_some, find_from-eq_none}
use qrack.Stabilizer.Measure.{collapse, force_m, determinate, accumulate}
use qrack.Stabilizer.Collapse.{row-collapse, outcome_row}
use qrack.Stabilizer.MeasureKeeps.{collapse-Keeps, final_x}
use qrack.Stabilizer.ScratchKeeps.{scratch-Keeps, row_mult_scratch-Keeps}
use qrack.Stabilizer.Valid.{Keeps, keeps_row, row-set_row_in}

row_copy_scratch-Keeps :
    {n : ℕ} {s : Tableau} (h : Keeps n s) (i k : ℕ)
    → i ≡ 2 * n
    → k < 2 * n
    → Keeps n (row_copy i k s)
unfolding row_copy
row_copy_scratch-Keeps {n} {s} h i k e lt =
    if_both (Keeps n) (i == k) s (set_row s i (row s k)) h
      (scratch-Keeps h i e (keeps_row h k (omega arith)))

accumulate-Keeps :
    {n : ℕ} {s : Tableau} (h : Keeps n s) (t k : ℕ) → n < 128 → k < n → Keeps n (accumulate t k s)
unfolding accumulate
accumulate-Keeps {n} {s} h t k small lt =
    let c = h.count in
    let q = s.qubit_count in
    for_upto-inv (Keeps n) (q - (k + 1))
      (λ d u. if bit (row u (k + 1 + d)).x t then row_mult (elem_count q) (k + 1 + d + q) u else u)
      (row_copy (elem_count q) (k + q) s)
      (λ d u le p.
        if_both (Keeps n) (bit (row u (k + 1 + d)).x t) (row_mult (elem_count q) (k + 1 + d + q) u)
          u (row_mult_scratch-Keeps p (elem_count q) (omega arith) (k + 1 + d + q)) p)
      (row_copy_scratch-Keeps h (elem_count q) (k + q) (omega arith) (omega arith))

-- What a measurement may end in: a value and a valid tableau, or, only if a result is forced, the
-- exception for a result of probability zero.
abbrev pub Measured : ℕ → Bool → Result (Bool × Tableau) → Type 0
Measured n do_force (ok (b, u)) = Keeps n u
Measured n do_force (err e) = (e ≡ invalid_argument) × (do_force ≡ true)

determinate-Measured :
    {n : ℕ} {s : Tableau} (h : Keeps n s) (t : ℕ) (result do_force : Bool)
    → n < 128
    → Measured n do_force (determinate t result do_force s)
unfolding determinate
determinate-Measured {n} {s} h t result do_force small =
    go (find_from (λ k. bit (row s k).x t) 0 s.qubit_count) refl
  where
    choose :
        (b d outcome : Bool) (u : Tableau)
        → Keeps n u
        → Measured n d (if d && b then err invalid_argument else ok (outcome, u))
    choose true true o u k = (refl, refl)
    choose true false o u k = k
    choose false true o u k = k
    choose false false o u k = k

    go :
        (o : Option ℕ)
        → find_from (λ k. bit (row s k).x t) 0 s.qubit_count ≡ o
        → Measured n do_force (elim o [
          | none ↦ ok (false, s)
          | some k ↦
              let s1 = accumulate t k s in
              let outcome = not ((row s1 (elem_count s.qubit_count)).r == 0) in
              if do_force && xor result outcome then err invalid_argument else ok (outcome, s1)
        ])
    go none e = h
    go (some k) e =
        let f = find_from-some (λ k. bit (row s k).x t) 0 s.qubit_count k e in
        let b = f.below in
        let c = h.count in
        let s1 = accumulate t k s in
        choose (xor result (not ((row s1 (elem_count s.qubit_count)).r == 0))) do_force
          (not ((row s1 (elem_count s.qubit_count)).r == 0)) s1
          (accumulate-Keeps h t k small (omega arith))

-- A measurement of a qubit in range of a valid tableau of fewer than 128 qubits leaves a valid tableau on every branch that
-- returns; otherwise it throws an invalid argument, and only where a result is forced.
pub force_m-Measured :
    {n : ℕ} {s : Tableau} (h : Keeps n s) (t : ℕ) (result do_force do_apply rand : Bool)
    → n < 128
    → t < n
    → Measured n do_force (force_m t result do_force do_apply rand s)
unfolding force_m
force_m-Measured {n} {s} h t result do_force do_apply rand small lt =
    let c = h.count in
    let in_range : leb s.qubit_count t ≡ false = ground arith in
    rw in_range (
      if_both (Measured n do_force) (do_force && not do_apply) (ok (result, s))
        (search_result (find_from (λ p. bit (row s (p + s.qubit_count)).x t) 0 s.qubit_count)) h
        (go (find_from (λ p. bit (row s (p + s.qubit_count)).x t) 0 s.qubit_count) refl))
  where
    outcome : Bool
    outcome = if do_force then result else rand

    search_result : Option ℕ → Result (Bool × Tableau)
    search_result o = elim o [
      | some p ↦ if do_apply then ok (outcome, collapse t p outcome s) else ok (outcome, s)
      | none ↦ determinate t result do_force s
    ]

    go :
        (o : Option ℕ)
        → find_from (λ p. bit (row s (p + s.qubit_count)).x t) 0 s.qubit_count ≡ o
        → Measured n do_force (search_result o)
    go none e = determinate-Measured h t result do_force small
    go (some p) e =
        let f = find_from-some (λ p. bit (row s (p + s.qubit_count)).x t) 0 s.qubit_count p e in
        let b = f.below in
        let c = h.count in
        if_both (Measured n do_force) do_apply (ok (outcome, collapse t p outcome s))
          (ok (outcome, s))
          (collapse-Keeps h t p outcome small lt (omega arith) (simp c at (f.passes))) h

-- The tableau with stabilizer `p` copied to the scratch row.
abbrev pub with_scratch : ℕ → Tableau → Tableau
with_scratch p u = row_copy (elem_count u.qubit_count) (p + u.qubit_count) u

module _ {n : ℕ} {s : Tableau} (h : Keeps n s) (t p : ℕ) (result : Bool) (small : n < 128)
    (ht : t < n) (hp : p < n) (anti : bit (row s (p + n)).x t ≡ true) where
  abbrev after : Tableau
  after = collapse t p result s

  after-Keeps : Keeps n after
  after-Keeps = collapse-Keeps h t p result small ht hp anti

  after_x : (j : ℕ) → j < 2 * n → bit (row after j).x t ≡ (j == p)
  after_x j hj =
      rw (row-collapse h t p result small ht hp anti j hj)
        (final_x h t p result small ht hp anti j hj)

  -- No stabilizer has an X or a Y at the measured qubit.
  pub no_random :
      find_from (λ k. bit (row after (k + after.qubit_count)).x t) 0 after.qubit_count ≡ none
  no_random =
      let c = after-Keeps.count in
      find_from-eq_none (λ k. bit (row after (k + after.qubit_count)).x t) 0 after.qubit_count
        (λ k a b. after_x (k + after.qubit_count) (omega arith) ∙ ground arith)

  destabilizer_found : find_from (λ k. bit (row after k).x t) 0 after.qubit_count ≡ some p
  destabilizer_found =
      let c = after-Keeps.count in
      find_from-eq_some (λ k. bit (row after k).x t) 0 after.qubit_count p
        (record {
          from = omega arith;
          below = omega arith;
          passes = after_x p (omega arith) ∙ ground arith;
          earlier = λ j a b. after_x j (omega arith) ∙ ground arith;
        })

  abbrev scratched : Tableau
  scratched = with_scratch p after

  row-scratched :
      (j : ℕ) → row scratched j ≡ (if 2 * n == j then row after (p + n) else row after j)
  unfolding row_copy
  row-scratched j =
      let c = after-Keeps.count in
      let ne : (2 * n == p + n) ≡ false = ground arith in
      let k : elem_count n ≡ 2 * n = omega arith in
      simp (c, k, ne)
        (row-set_row_in after-Keeps.valid.shape (2 * n) j (row after (p + n)) (omega arith))

  accumulate-after : accumulate t p after ≡ scratched
  unfolding accumulate
  accumulate-after =
      let c = after-Keeps.count in
      let q = after.qubit_count in
      for_upto-inv (λ u. u ≡ scratched) (q - (p + 1))
        (λ d u.
          if bit (row u (p + 1 + d)).x t then row_mult (elem_count q) (p + 1 + d + q) u else u)
        scratched
        (λ d u lt e.
          let z : bit (row scratched (p + 1 + d)).x t ≡ false =
            ground (arith, row-scratched (p + 1 + d), after_x (p + 1 + d)) in
          rw (e, z))
        refl

  scratch_row : row scratched (elem_count after.qubit_count) ≡ outcome_row n t result
  scratch_row =
      let c = after-Keeps.count in
      let k : (2 * n == elem_count after.qubit_count) ≡ true = ground arith in
      row-scratched (elem_count after.qubit_count)
      ∙ rw (k, row-collapse h t p result small ht hp anti (p + n) (omega arith)) (ground arith)

  scratch_sign : (b : Bool) → not ((outcome_row n t b).r == 0) ≡ b
  scratch_sign true = refl
  scratch_sign false = refl

  determinate-after :
      (w d : Bool)
      → determinate t w d after
        ≡ (if d && xor w result then err invalid_argument else ok (result, scratched))
  unfolding determinate
  determinate-after w d =
      let c = after-Keeps.count in
      let z : not ((row scratched (elem_count after.qubit_count)).r == 0) ≡ result =
        rw scratch_row (scratch_sign result) in
      rw (destabilizer_found, determinate, accumulate-after, z)

  -- After a random outcome the qubit is determinate: measured again, whatever the random bit, it
  -- gives the same outcome, and forcing the other one is refused.
  pub force_m-after :
      (w d rand : Bool)
      → force_m t w d true rand (collapse t p result s)
        ≡ (if d && xor w result then err invalid_argument else ok (result, scratched))
  unfolding force_m
  force_m-after w d rand =
      let c = after-Keeps.count in
      let a : leb after.qubit_count t ≡ false = ground arith in
      let b : (d && not true) ≡ false = ground arith in
      rw (a, b, no_random, force_m) (determinate-after w d)

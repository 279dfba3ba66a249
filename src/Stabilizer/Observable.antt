-- ===== src/Stabilizer/Observable.antt =====
-- The observables X_b and Z_b that `rowset` writes.
use qrack.Prelude.{
  ℕ, ◌+◌, ◌*◌, ◌-◌, ◌<◌, ◌≡◌, ◌∙◌, arith, true, false, ◌&&◌, if_both, ◌==◌, ltb, leb, length-set,
  length-replicate, get_or-set, get_or-replicate, bit, replicate, xor_sum_single, Bool-cases, inl,
  inr,
}
use qrack.Stabilizer.Row.{Row, observable}
use qrack.Stabilizer.Pauli.{IsRow, anticommute, clash_at}
use qrack.Stabilizer.Valid.{partners}

module _ (n b : ℕ) where
  pub observable-IsRow : IsRow n (observable n b)
  unfolding observable
  observable-IsRow =
      if_both (IsRow n) (ltb b n) _ _
        (record {
          length_x = length-set (replicate n false) b true ∙ length-replicate n false;
          length_z = length-replicate n false;
          phase = omega arith;
        })
        (record {
          length_x = length-replicate n false;
          length_z = length-set (replicate n false) (b - n) true ∙ length-replicate n false;
          phase = omega arith;
        })

  pub observable_x : (j : ℕ) → bit (observable n b).x j ≡ (b == j && ltb b n)
  unfolding observable
  observable_x j = ground (
    arith,
    get_or-set (replicate n false) b j true false,
    get_or-replicate n j false,
    length-replicate n false,
  )

  pub observable_z : (j : ℕ) → bit (observable n b).z j ≡ (b == j + n && leb n b && ltb b (n + n))
  unfolding observable
  observable_z j = ground (
    arith,
    get_or-set (replicate n false) (b - n) j true false,
    get_or-replicate n j false,
    length-replicate n false,
  )

  pub observable_r : (observable n b).r ≡ 0
  unfolding observable
  observable_r = ground arith

-- A row anticommutes with Z_t exactly when it has an X or a Y at `t`.
pub anticommute-observable_z :
    (n t : ℕ) (a : Row) → t < n → anticommute n (observable n (t + n)) a ≡ bit a.x t
unfolding anticommute
anticommute-observable_z n t a h =
    xor_sum_single n t (clash_at (observable n (t + n)) a) h
      (λ j ne. ground (arith, observable_x n (t + n) j, observable_z n (t + n) j))
    ∙ ground (arith, observable_x n (t + n) t, observable_z n (t + n) t)

-- With X_t, when it has a Z or a Y there.
pub anticommute-observable_x :
    (n t : ℕ) (a : Row) → t < n → anticommute n (observable n t) a ≡ bit a.z t
unfolding anticommute
anticommute-observable_x n t a h =
    xor_sum_single n t (clash_at (observable n t) a) h
      (λ j ne. ground (arith, observable_x n t j, observable_z n t j))
    ∙ ground (arith, observable_x n t t, observable_z n t t)

-- X_b and Z_b anticommute, and no other two of the observables.
pub anticommute-observable :
    (n i j : ℕ)
    → i < 2 * n
    → j < 2 * n
    → anticommute n (observable n i) (observable n j) ≡ partners n i j
anticommute-observable n i j hi hj = elim (Bool-cases (ltb i n)) [
  | inl e ↦
      anticommute-observable_x n i (observable n j) (ground arith)
      ∙ ground (arith, observable_z n j i)
  | inr e ↦
      let q : i ≡ i - n + n = ground arith in
      rw q (
        anticommute-observable_z n (i - n) (observable n j) (ground arith)
        ∙ ground (arith, observable_x n j (i - n)))
]

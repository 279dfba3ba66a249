-- ===== src/Circuit/MatrixAt.antt =====
-- The matrix that a gate applies in a basis state, which adding or selecting a control keeps.
use qrack.Prelude.{
  ℕ, zero, suc, ◌+◌, ◌*◌, ◌^◌, ◌<◌, ◌≡◌, ◌==◌, refl, sym, ap, ◌∙◌, arith, Bool, true, false,
  bool_val, List, [], ◌∷◌, Option, length, ltb, if◌then◌else◌, if_split, ==_iff, ==_refl,
  Bool-cases, inl, inr,
}
use mathlib.Core.Path.{subst}
use native.Mathlib.Omega.{pow_step}
use qrack.Bits.Word.{power_mono}
use qrack.Bits.Test.{test, test_eq, test_index}
use qrack.Interface.Lists.{gather}
use qrack.Circuit.Matrix.{Matrix}
use qrack.Circuit.Gate.{
  Gate, has, insert, erase, position, find, narrow, selected, add_control, post_select_control,
}
use qrack.Circuit.Keys.{test-narrow}
use qrack.Circuit.Controls.{fitting, find-widened, find-selected}

-- The matrix for the values that the controls have in a basis state, none for the identity.
abbrev pub matrix_at : {A : Type 0} → Gate A → ℕ → Option (Matrix A)
matrix_at g i = find (gather g.controls i) g.payloads

gather-bound : (cs : List ℕ) (i : ℕ) → gather cs i < 2 ^ length cs
gather-bound [] i = omega arith
gather-bound (c ∷ cs) i = ground (arith, pow_step 2 (length cs), gather-bound cs i)

test-pair : (b : Bool) (g k : ℕ) → test (bool_val b + 2 * g) (suc k) ≡ test g k
test-pair b g k = ap (λ x. test x k) (ground arith)

narrow_bit :
    (p g : ℕ) (b : Bool)
    → suc p < 63
    → g < 2 ^ 62
    → (k : ℕ) → test (narrow (suc p) (bool_val b + 2 * g)) k ≡ test (bool_val b + 2 * narrow p g) k
narrow_bit p g b h m zero =
    test-narrow (suc p) (bool_val b + 2 * g) 0 h (ground arith) ∙ ground arith
narrow_bit p g b h m (suc k) =
    test-narrow (suc p) (bool_val b + 2 * g) (suc k) h (ground arith)
    ∙ ground (
      arith,
      test-pair b g k,
      test-pair b g (k + 1),
      test_index (bool_val b + 2 * g) (suc k + 1) (suc (k + 1)),
      test-pair b (narrow p g) k,
      test-narrow p g k (omega arith) (omega arith),
    )

narrow-suc :
    (p g : ℕ) (b : Bool)
    → suc p < 63
    → g < 2 ^ 62
    → narrow (suc p) (bool_val b + 2 * g) ≡ bool_val b + 2 * narrow p g
narrow-suc p g b h m = test_eq _ _ (narrow_bit p g b h m)

narrow_zero : (g : ℕ) (b : Bool) → g < 2 ^ 62 → narrow 0 (bool_val b + 2 * g) ≡ g
narrow_zero g b m = test_eq _ _ (λ k.
    test-narrow 0 (bool_val b + 2 * g) k (omega arith) (ground arith)
    ∙ ground (arith, test_index (bool_val b + 2 * g) (k + 1) (suc k), test-pair b g k))

-- The key of a control that is in the set, and the key without it.
erased :
    (c : ℕ) (cs : List ℕ) (i : ℕ)
    → has c cs ≡ true
    → length cs < 63
    → (position c cs < length cs)
      × (test (gather cs i) (position c cs) ≡ test i c)
      × (narrow (position c cs) (gather cs i) ≡ gather (erase c cs) i)
erased c [] i h b = absurd (ground (arith, h))
erased c (x ∷ xs) i h b =
    let p = position c xs in
    let g = gather xs i in
    let key = bool_val (test i x) + 2 * g in
    let small : g < 2 ^ 62 =
      omega (arith, gather-bound xs i, power_mono (length xs) 62 (omega arith)) in
    let statement : Bool → Type 0 = λ t.
      ((if t then 0 else suc p) < suc (length xs))
      × (test key (if t then 0 else suc p) ≡ test i c)
      × (narrow (if t then 0 else suc p) key ≡ gather (if t then xs else x ∷ erase c xs) i) in
    elim (Bool-cases (x == c)) [
      | inl e ↦ subst statement (sym e) (
        omega arith,
        ground arith ∙ ap (test i) ((==_iff x c).0 e),
        narrow_zero g (test i x) small,
      )
      | inr e ↦
          let (b1, b2, b3) = erased c xs i (ground (arith, h, e)) (omega arith) in
          subst statement (sym e) (
            omega arith,
            test-pair (test i x) g p ∙ b2,
            narrow-suc p g (test i x) (omega arith) small
                ∙ ap (λ n. bool_val (test i x) + 2 * n) b3,
          )
    ]

inserted :
    (c : ℕ) (cs : List ℕ)
    → has c cs ≡ false
    → (has c (insert c cs) ≡ true)
      × (erase c (insert c cs) ≡ cs)
      × (length (insert c cs) ≡ suc (length cs))
inserted c [] h = (ground (arith, ==_refl c), ground (arith, ==_refl c), refl)
inserted c (x ∷ xs) h =
    let (h1, h2, h3) = inserted c xs (ground (arith, h)) in
    if_split (λ ys. (has c ys ≡ true) × (erase c ys ≡ x ∷ xs) × (length ys ≡ suc (length (x ∷ xs))))
      (ltb c x) _ _
      (λ e. (
        ground (arith, ==_refl c),
        ap (λ t. if t then x ∷ xs else c ∷ (if x == c then xs else x ∷ erase c xs)) (==_refl c),
        refl,
      ))
      (λ e.
        if_split
          (λ ys. (has c ys ≡ true) × (erase c ys ≡ x ∷ xs) × (length ys ≡ suc (length (x ∷ xs))))
          (x == c) _ _ (λ f. absurd (ground (arith, h, f)))
          (λ f. (
            ground (arith, h1),
            ap (λ t. if t then insert c xs else x ∷ erase c (insert c xs)) f ∙ ap (λ ys. x ∷ ys) h2,
            ap suc h3,
          )))

module _ {A : Type 0} (g : Gate A) (c i : ℕ) where
  -- `AddControl` keeps the matrix that the gate applies in every basis state, for a gate of fewer than 62
  -- controls whose keys are below 2^63.
  pub add_control-matrix_at :
      length g.controls < 62
      → fitting g.payloads ≡ true
      → matrix_at (add_control c g) i ≡ matrix_at g i
  unfolding add_control
  add_control-matrix_at b f =
      if_split (λ t. matrix_at t i ≡ matrix_at g i) (has c g.controls) _ _ (λ e. refl)
        (λ e.
          let cs = insert c g.controls in
          let (h1, h2, h3) = inserted c g.controls e in
          let (p1, p2, p3) = erased c cs i h1 (omega (arith, h3)) in
          let key = gather cs i in
          let small : key < 2 ^ 64 =
            omega (arith, gather-bound cs i, h3, power_mono (length cs) 63 (omega (arith, h3))) in
          find-widened (position c cs) key g.payloads [] (omega (arith, h3)) small f refl
          ∙ ap (λ k. find k g.payloads) (p3 ∙ ap (λ cs. gather cs i) h2))

  -- `PostSelectControl` keeps the matrix that the gate applies in every basis state whose qubit `c` has the
  -- selected value, for a gate of fewer than 63 controls whose keys are below 2^63.
  pub post_select_control-matrix_at :
      (eigen : Bool)
      → length g.controls < 63
      → fitting g.payloads ≡ true
      → test i c ≡ eigen
      → matrix_at (post_select_control c eigen g) i ≡ matrix_at g i
  unfolding post_select_control
  post_select_control-matrix_at eigen b f e =
      if_split (λ t. matrix_at t i ≡ matrix_at g i) (has c g.controls) _ _
        (λ h.
          let cs = g.controls in
          let p = position c cs in
          let (p1, p2, p3) = erased c cs i h b in
          let key = gather cs i in
          let small : key < 2 ^ 63 =
            omega (arith, gather-bound cs i, power_mono (length cs) 62 (omega arith)) in
          ap (λ k. find k (selected p eigen g.payloads [])) (sym p3)
          ∙ find-selected p key eigen g.payloads [] (omega arith) f refl (p2 ∙ e) small)
        (λ h. refl)

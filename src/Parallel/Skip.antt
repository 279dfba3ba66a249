-- ===== src/Parallel/Skip.antt =====
-- The indices that `par_for_skip` and `par_for_mask` run.
use native.Mathlib.Nat.{mod-eq_of_lt, mul-div_cancel}
use qrack.BigInteger.Words.{word_power}
use qrack.Prelude.{
  ℕ, ◌+◌, ◌-◌, ◌/◌, ◌%◌, ◌^◌, ◌<◌, ◌≤◌, ◌≡◌, ◌==◌, refl, sym, ap, ◌∙◌, arith, Bool, false, ◌&&◌,
  List, [], ◌∷◌, ltb, leb, if◌then◌else◌, if_split, Bool-cases, inl, inr, ==_iff, ==_refl,
}
use qrack.Bits.Power.{power_pos, power_add, power_congr}
use qrack.Bits.Test.{test, test_index, test_eq, test-zero, test_beyond, test_bound}
use qrack.Bits.Word.{test-field, shl, shr, field, power_mono, power_below}
use qrack.Parallel.Order.{count, IsOrder, visit, skip_inc, par_for, par_for_inc, par_for_skip}
use qrack.Parallel.Expand.{
  expand, contract, contract-expand, expand-contract, expand-bound, contract-bound, field-expand,
  skip_inc-expand,
}

-- Every index of `js` once, and those are the ones of the test.
abbrev pub Covers : (ℕ → Bool) → List ℕ → Type 0
Covers among js = (k : ℕ) → count k js ≡ (if among k then 1 else 0)

-- The indices of the iterations.
abbrev images : (ℕ → ℕ) → List ℕ → List ℕ
images f [] = []
images f (j ∷ js) = f j ∷ images f js

-- What a map of the iterations with an inverse covers.
pub count-map :
    (f g : ℕ → ℕ) (js : List ℕ) (k : ℕ)
    → ((j : ℕ) → 0 < count j js → g (f j) ≡ j)
    → count k (images f js) ≡ (if f (g k) == k then count (g k) js else 0)
count-map f g [] k h = ground arith
count-map f g (j ∷ js) k h =
    let rest = count-map f g js k (λ i p. h i (omega arith)) in
    let back = h j (ground (arith, ==_refl j)) in
    elim (Bool-cases (f j == k)) [
      | inl e ↦
          let same : g k ≡ j = ap g (sym ((==_iff (f j) k).0 e)) ∙ back in
          ground (arith, rest, e, same, ap f same)
      | inr e ↦ elim (Bool-cases (j == g k)) [
        | inl q ↦ ground (arith, rest, e, ap f ((==_iff j (g k)).0 q))
        | inr q ↦ ground (arith, rest, e, q)
      ]
    ]

power_div : (w n : ℕ) → w ≤ n → 2 ^ n / 2 ^ w ≡ 2 ^ (n - w)
power_div w n h =
    ap (λ a. a / 2 ^ w) {x = 2 ^ n}
      (power_congr n (n - w + w) (omega arith) ∙ sym (power_add (n - w) w))
    ∙ mul-div_cancel (2 ^ (n - w)) (power_pos w)

field_bound_zero : (s w k : ℕ) → field s w k ≡ 0 → k < 2 ^ (s + w) → k < 2 ^ s
field_bound_zero s w k h b = test_bound s k (λ i m. ground (
  arith,
  test-field s w k (i - s),
  test_index k (s + (i - s)) i,
  ap (λ x. test x (i - s)) h,
  test-zero (i - s),
  test_beyond (s + w) k i b,
))

field_zero : (s w k : ℕ) → k < 2 ^ s → field s w k ≡ 0
field_zero s w k b =
    test_eq _ _ (λ i. ground (arith, test-field s w k i, test_beyond s k (s + i) b, test-zero i))

expand_test :
    (s w n k : ℕ)
    → s + w ≤ n
    → (expand s w (contract s w k) == k && ltb (contract s w k) (2 ^ (n - w)))
      ≡ (ltb k (2 ^ n) && field s w k == 0)
expand_test s w n k fits = elim (Bool-cases (field s w k == 0)) [
  | inl e ↦
      let back = expand-contract s w k ((==_iff (field s w k) 0).0 e) in
      ground (
        arith,
        e,
        back,
        contract-bound s w n k fits,
        λ (b : contract s w k < 2 ^ (n - w)). expand-bound s w n (contract s w k) fits b,
      )
  | inr e ↦
      let none : (expand s w (contract s w k) == k) ≡ false = ground (
        arith,
        e,
        field-expand s w (contract s w k),
        ap (field s w) {x = expand s w (contract s w k)} {y = k},
      ) in
      ground (arith, e, none)
]

module _ {ℓ} {S : Type ℓ} where
  pub visit-map :
      (f : ℕ → ℕ) (fn : ℕ → S → S) (js : List ℕ) (s : S)
      → visit js (λ j s. fn (f j) s) s ≡ visit (images f js) fn s
  unfolding visit
  visit-map f fn [] s = refl
  visit-map f fn (j ∷ js) s = visit-map f fn js (fn (f j) s)

  pub visit_congr :
      (f g : ℕ → ℕ) (fn : ℕ → S → S) (js : List ℕ) (s : S)
      → ((j : ℕ) → 0 < count j js → f j ≡ g j)
      → visit js (λ j s. fn (f j) s) s ≡ visit js (λ j s. fn (g j) s) s
  unfolding visit
  visit_congr f g fn [] s h = refl
  visit_congr f g fn (j ∷ js) s h =
      visit_congr f g fn js (fn (f j) s) (λ i p. h i (omega arith))
      ∙ ap (λ i. visit js (λ j s. fn (g j) s) (fn i s)) (h j (ground (arith, ==_refl j)))

  -- The loop runs the indices of a list that covers those of the test.
  abbrev pub Runs : (ℕ → Bool) → (ℕ → S → S) → S → S → Type ℓ
  Runs among fn s t = (js : List ℕ) × (t ≡ visit js fn s) × Covers among js

  -- A loop whose increment function is `f`, with inverse `g`, on the iterations.
  pub par_for_inc-Runs :
      (order : ℕ → List ℕ) (n : ℕ) (inc f g : ℕ → ℕ) (among : ℕ → Bool) (fn : ℕ → S → S) (s : S)
      → ((m : ℕ) → IsOrder m (order m))
      → ((j : ℕ) → j < n → inc j ≡ f j)
      → ((j : ℕ) → j < n → g (f j) ≡ j)
      → ((k : ℕ) → (f (g k) == k && ltb (g k) n) ≡ among k)
      → Runs among fn s (par_for_inc order 0 n inc fn s)
  unfolding par_for_inc
  par_for_inc-Runs order n inc f g among fn s ordered same back test =
      let js = order n in
      let below : (j : ℕ) → 0 < count j js → j < n = λ j p. ground (arith, ordered n j) in
      (
        images f js,
        visit_congr (λ j. inc (0 + j)) f fn js s (λ j p. ap inc (omega arith) ∙ same j (below j p))
            ∙ visit-map f fn js s,
        λ k.
            count-map f g js k (λ j p. back j (below j p))
            ∙ ap (λ c. if f (g k) == k then c else 0) (ordered n (g k))
            ∙ ground (arith, test k),
      )

  -- `par_for_skip` from 0 to 2^n, with `n` below 64, runs the indices below 2^n whose `w` bits from bit `s`
  -- on are 0, each once, if these bits are among the lowest `n`, s + w ≤ n, and if each loop runs its
  -- iterations once each, in any order.
  pub par_for_skip-Runs :
      (order : ℕ → List ℕ) (n s w : ℕ) (fn : ℕ → S → S) (t : S)
      → ((m : ℕ) → IsOrder m (order m))
      → n < 64
      → s + w ≤ n
      → Runs
          (λ k. ltb k (2 ^ n) && field s w k == 0)
          fn
          t
          (par_for_skip order 0 (2 ^ n) (2 ^ s) w fn t)
  unfolding par_for_skip par_for
  par_for_skip-Runs order n s w fn t ordered small fits =
      let N : ℕ = 2 ^ n in
      let wrap : shl (2 ^ s) w ≡ 2 ^ (s + w) % word_power =
        ap (λ a. a % word_power) (power_add s w) in
      let whole : shl (2 ^ s) w ≡ 2 ^ (s + w) =
        wrap ∙ mod-eq_of_lt (power_below (s + w) (omega arith)) in
      let count_eq : (N - 0) / 2 ^ w ≡ 2 ^ (n - w) =
        ap (λ a. a / 2 ^ w) {y = N} (omega arith) ∙ power_div w n (omega arith) in
      if_split (Runs (λ k. ltb k N && field s w k == 0) fn t) (leb N (shl (2 ^ s) w)) _ _
        (λ e.
          par_for_inc-Runs order (2 ^ s - 0) (λ i. i) (λ i. i) (λ i. i) _ fn t ordered (λ j h. refl)
            (λ j h. refl)
            (λ k.
              let same : N ≡ 2 ^ (s + w) = ground (arith, e, whole, power_mono (s + w) n fits) in
              ground (
                arith,
                same,
                ==_refl k,
                field_zero s w k,
                field_bound_zero s w k,
                power_mono s n (omega arith),
              )))
        (λ e.
          par_for_inc-Runs order (shr (N - 0) w) (skip_inc (2 ^ s) w) (expand s w) (contract s w) _
            fn t ordered (λ j h. skip_inc-expand s w n j fits small (omega (arith, count_eq)))
            (λ j h. contract-expand s w j)
            (λ k.
              ap (λ m. expand s w (contract s w k) == k && ltb (contract s w k) m) count_eq
              ∙ expand_test s w n k fits))

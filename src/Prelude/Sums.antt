-- ===== src/Prelude/Sums.antt =====
-- Sums over `0 .. n - 1`, of numbers and of bits, and how they change at one or two places.
use Prim.Native.Nat.{ℕ, zero, suc, ◌+◌, ◌*◌, ◌%◌, ◌<◌}
use mathlib.Core.Path.{◌≡◌, refl, sym, ap, ap₂, ◌∙◌}
use mathlib.Core.Logic.{◌≢◌, inl, inr}
use mathlib.Core.Bool.{Bool, false}
use native.Mathlib.Omega.{arith}
use qrack.Prelude.Tests.{◌==◌, if◌then◌else◌, xor, bool_val, Bool-cases, ==_iff}

unfoldable pub sum : ℕ → (ℕ → ℕ) → ℕ
sum zero f = 0
sum (suc n) f = sum n f + f n

unfoldable pub xor_sum : ℕ → (ℕ → Bool) → Bool
xor_sum zero f = false
xor_sum (suc n) f = xor (xor_sum n f) (f n)

abbrev pub clear : ℕ → (ℕ → ℕ) → ℕ → ℕ
clear t f j = if j == t then 0 else f j

abbrev pub clear_bit : ℕ → (ℕ → Bool) → ℕ → Bool
clear_bit t f j = if j == t then false else f j

pub sum_congr : (n : ℕ) (f g : ℕ → ℕ) → ((j : ℕ) → j < n → f j ≡ g j) → sum n f ≡ sum n g
unfolding sum
sum_congr zero f g h = refl
sum_congr (suc n) f g h = ap₂ ◌+◌ (sum_congr n f g (λ j p. h j (omega arith))) (h n (omega arith))

pub xor_sum_congr :
    (n : ℕ) (f g : ℕ → Bool) → ((j : ℕ) → j < n → f j ≡ g j) → xor_sum n f ≡ xor_sum n g
unfolding xor_sum
xor_sum_congr zero f g h = refl
xor_sum_congr (suc n) f g h =
    ap₂ xor (xor_sum_congr n f g (λ j p. h j (omega arith))) (h n (omega arith))

-- Below `t` the cleared function is the function.
sum-clear_outside : (n t : ℕ) (f : ℕ → ℕ) → n < suc t → sum n (clear t f) ≡ sum n f
sum-clear_outside n t f h = sum_congr n (clear t f) f (λ j p. ground arith)

xor_sum-clear_outside :
    (n t : ℕ) (f : ℕ → Bool) → n < suc t → xor_sum n (clear_bit t f) ≡ xor_sum n f
xor_sum-clear_outside n t f h = xor_sum_congr n (clear_bit t f) f (λ j p. ground arith)

pub sum-clear : (n t : ℕ) (f : ℕ → ℕ) → t < n → sum n f ≡ sum n (clear t f) + f t
unfolding sum
sum-clear zero t f h = absurd (omega arith)
sum-clear (suc n) t f h = elim (Bool-cases (n == t)) [
  | inl e ↦
      let p : n ≡ t = (==_iff n t).0 e in
      rw (e, sum-clear_outside n t f (omega arith)) (omega (arith, ap f p))
  | inr e ↦ rw e (let q : n ≢ t = ground arith in omega (arith, sum-clear n t f (omega arith)))
]

xor_last : (a b c : Bool) → xor (xor a b) c ≡ xor (xor a c) b
xor_last a b c = ground arith

xor-false : (a : Bool) → xor a false ≡ a
xor-false a = ground arith

pub xor_sum-false : (n : ℕ) → xor_sum n (λ j. false) ≡ false
unfolding xor_sum
xor_sum-false zero = refl
xor_sum-false (suc n) = rw (xor_sum-false n)

pub xor_sum-clear :
    (n t : ℕ) (f : ℕ → Bool) → t < n → xor_sum n f ≡ xor (xor_sum n (clear_bit t f)) (f t)
unfolding xor_sum
xor_sum-clear zero t f h = absurd (omega arith)
xor_sum-clear (suc n) t f h = elim (Bool-cases (n == t)) [
  | inl e ↦
      let p : n ≡ t = (==_iff n t).0 e in
      rw (e, xor_sum-clear_outside n t f (omega arith), xor-false)
        (ap (λ k. xor (xor_sum n f) (f k)) p)
  | inr e ↦
      let q : n ≢ t = ground arith in
      rw e (
        ap (λ b. xor b (f n)) (xor_sum-clear n t f (omega arith))
        ∙ xor_last (xor_sum n (clear_bit t f)) (f t) (f n))
]

module _ (n c t : ℕ) (ne : c ≢ t) (hc : c < n) (ht : t < n) where
  split_two : (f : ℕ → ℕ) → sum n f ≡ sum n (clear t (clear c f)) + f t + f c
  split_two f =
      let e : (t == c) ≡ false = ground arith in
      let q : clear c f t ≡ f t = rw e in
      omega (arith, sum-clear n c f hc, sum-clear n t (clear c f) ht, q)

  split_two_bits :
      (f : ℕ → Bool) → xor_sum n f ≡ xor (xor (xor_sum n (clear_bit t (clear_bit c f))) (f t)) (f c)
  split_two_bits f =
      let e : (t == c) ≡ false = ground arith in
      let q : clear_bit c f t ≡ f t = rw e in
      xor_sum-clear n c f hc
      ∙ ap (λ b. xor b (f c))
          (xor_sum-clear n t (clear_bit c f) ht
            ∙ ap (xor (xor_sum n (clear_bit t (clear_bit c f)))) q)

  -- Two functions that agree except at `c` and `t` have sums that differ by those terms.
  pub sum_two :
      (f g : ℕ → ℕ)
      → ((j : ℕ) → j ≢ c → j ≢ t → f j ≡ g j)
      → (k : ℕ) × (sum n f ≡ k + f t + f c) × (sum n g ≡ k + g t + g c)
  sum_two f g h = (
    sum n (clear t (clear c f)),
    split_two f,
    split_two g ∙ ap (λ k. k + g t + g c) (sum_congr n _ _ (λ j p. ground (arith, h j))),
  )

  pub xor_sum_two :
      (f g : ℕ → Bool)
      → ((j : ℕ) → j ≢ c → j ≢ t → f j ≡ g j)
      → xor (f t) (f c) ≡ xor (g t) (g c)
      → xor_sum n f ≡ xor_sum n g
  xor_sum_two f g h e =
      split_two_bits f
      ∙ regroup (xor_sum n (clear_bit t (clear_bit c f))) (f t) (f c) (g t) (g c) e
      ∙ ap (λ b. xor (xor b (g t)) (g c)) (xor_sum_congr n _ _ (λ j p. ground (arith, h j)))
      ∙ sym (split_two_bits g)
    where
      regroup : (k a b d e : Bool) → xor a b ≡ xor d e → xor (xor k a) b ≡ xor (xor k d) e
      regroup k a b d e h = ground arith

module _ (n t : ℕ) (ht : t < n) where
  pub sum_one :
      (f g : ℕ → ℕ)
      → ((j : ℕ) → j ≢ t → f j ≡ g j)
      → (k : ℕ) × (sum n f ≡ k + f t) × (sum n g ≡ k + g t)
  sum_one f g h = (
    sum n (clear t f),
    sum-clear n t f ht,
    sum-clear n t g ht ∙ ap (λ k. k + g t) (sum_congr n _ _ (λ j p. ground (arith, h j))),
  )

  pub xor_sum_one :
      (f g : ℕ → Bool) → ((j : ℕ) → j ≢ t → f j ≡ g j) → f t ≡ g t → xor_sum n f ≡ xor_sum n g
  xor_sum_one f g h e = xor_sum_congr n f g λ j p. elim (Bool-cases (j == t)) [
    | inl q ↦ let r : j ≡ t = (==_iff j t).0 q in ap f r ∙ e ∙ sym (ap g r)
    | inr q ↦ h j (ground arith)
  ]

-- A function that is false but at `t` sums to its value there.
pub xor_sum_single :
    (n t : ℕ) (f : ℕ → Bool) → t < n → ((j : ℕ) → j ≢ t → f j ≡ false) → xor_sum n f ≡ f t
xor_sum_single n t f lt h =
    xor_sum-clear n t f lt
    ∙ rw
        (xor_sum_congr n (clear_bit t f) (λ j. false) (λ j p. ground (arith, h j)), xor_sum-false n)

pub xor_sum-xor :
    (n : ℕ) (f g : ℕ → Bool) → xor_sum n (λ j. xor (f j) (g j)) ≡ xor (xor_sum n f) (xor_sum n g)
unfolding xor_sum
xor_sum-xor zero f g = refl
xor_sum-xor (suc n) f g =
    rw (xor_sum-xor n f g) (swap_middle (xor_sum n f) (xor_sum n g) (f n) (g n))
  where
    swap_middle : (a b c d : Bool) → xor (xor a b) (xor c d) ≡ xor (xor a c) (xor b d)
    swap_middle a b c d = ground arith

pub sum-add : (n : ℕ) (f g : ℕ → ℕ) → sum n (λ j. f j + g j) ≡ sum n f + sum n g
unfolding sum
sum-add zero f g = refl
sum-add (suc n) f g = omega (arith, sum-add n f g)

-- Sums of functions that agree modulo `4` agree modulo `4`.
pub sum_mod_congr :
    (n : ℕ) (f g : ℕ → ℕ) → ((j : ℕ) → j < n → f j % 4 ≡ g j % 4) → sum n f % 4 ≡ sum n g % 4
unfolding sum
sum_mod_congr zero f g h = refl
sum_mod_congr (suc n) f g h =
    omega (arith, sum_mod_congr n f g (λ j p. h j (omega arith)), h n (omega arith))

-- Twice the number of set bits, modulo `4`, tells their parity.
pub sum_double :
    (n : ℕ) (f : ℕ → Bool) → sum n (λ j. 2 * bool_val (f j)) % 4 ≡ 2 * bool_val (xor_sum n f)
unfolding sum xor_sum
sum_double zero f = refl
sum_double (suc n) f = ground (arith, sum_double n f)

-- A sum is odd exactly when an odd number of its terms are.
pub sum-parity :
    (n : ℕ) (f : ℕ → ℕ) (g : ℕ → Bool)
    → ((j : ℕ) → j < n → f j % 2 ≡ bool_val (g j))
    → sum n f % 2 ≡ bool_val (xor_sum n g)
unfolding sum xor_sum
sum-parity zero f g h = refl
sum-parity (suc n) f g h =
    ground (arith, sum-parity n f g (λ j p. h j (omega arith)), h n (omega arith))

-- ===== src/Circuit/Controls.antt =====
-- The matrix of a gate for the values of its controls, which adding a control and selecting one keep.
use Prim.Native.Nat.{bit_and, bit_or}
use qrack.Prelude.{
  ℕ, ◌^◌, ◌<◌, ◌≡◌, ◌==◌, refl, sym, ap, ap₂, ◌∙◌, arith, Bool, true, false, not, ◌&&◌, xor, List,
  [], ◌∷◌, Option, none, some, ltb, if◌then◌else◌, if_split, ==_ne, Bool-cases, inl, inr,
}
use qrack.Bits.Power.{power_pos}
use qrack.Bits.Test.{test, test_eq, test-bit_and, test-zero}
use qrack.Bits.Word.{pow2, pow2-power}
use qrack.Circuit.Matrix.{Matrix}
use qrack.Circuit.Gate.{find, emplace, widen, narrow, widened, selected}
use qrack.Circuit.Keys.{low_match, high_match, narrow_same, test-pow2}

module _ {M : Type 0} where
  abbrev or_else : Option M → Option M → Option M
  or_else (some m) o = some m
  or_else none o = o

  pub or_else-none : (o : Option M) → or_else o none ≡ o
  or_else-none (some m) = refl
  or_else-none none = refl

  same_key :
      (i j k : ℕ) (n m : M) (o : Option M)
      → (j == k) ≡ true
      → (if j == i then some n else o)
        ≡ or_else (if j == i then some n else o) (if k == i then some m else none)
  same_key i j k n m o e = elim (Bool-cases (j == i)) [
    | inl f ↦ ground (arith, f)
    | inr f ↦ sym (
        ap (λ t. or_else (if j == i then some n else o) (if t then some m else none)) {y = false}
          (ground (arith, e, f))
        ∙ or_else-none (if j == i then some n else o))
  ]

  other_key :
      (b : Bool) (n : M) (x o r : Option M)
      → x ≡ or_else o r
      → (if b then some n else x) ≡ or_else (if b then some n else o) r
  other_key true n x o r e = refl
  other_key false n x o r e = e

  -- Whether a key is below every key of the list, and whether the list's keys ascend.
  abbrev lower : ℕ → List (ℕ × M) → Bool
  lower k [] = true
  lower k ((j, m) ∷ ps) = ltb k j && lower k ps

  abbrev ascending : List (ℕ × M) → Bool
  ascending [] = true
  ascending ((j, m) ∷ ps) = lower j ps && ascending ps

  lower_trans : (j k : ℕ) (ps : List (ℕ × M)) → j < k → lower k ps ≡ true → lower j ps ≡ true
  lower_trans j k [] h l = refl
  lower_trans j k ((i, m) ∷ ps) h l = ground (arith, l, lower_trans j k ps h (ground (arith, l)))

  lower-emplace :
      (j k : ℕ) (m : M) (ps : List (ℕ × M))
      → j < k
      → lower j ps ≡ true
      → lower j (emplace k m ps) ≡ true
  lower-emplace j k m [] h l = ground arith
  lower-emplace j k m ((i, n) ∷ ps) h l =
      let rest = lower-emplace j k m ps h (ground (arith, l)) in
      if_split (λ t. lower j t ≡ true) (ltb k i) _ _ (λ e. ground (arith, l))
        (λ e. if_split (λ t. lower j t ≡ true) (i == k) _ _ (λ f. l) (λ f. ground (arith, l, rest)))

  ascending-emplace :
      (k : ℕ) (m : M) (ps : List (ℕ × M)) → ascending ps ≡ true → ascending (emplace k m ps) ≡ true
  ascending-emplace k m [] a = refl
  ascending-emplace k m ((j, n) ∷ ps) a =
      if_split (λ t. ascending t ≡ true) (ltb k j) _ _
        (λ e. ground (arith, a, e, lower_trans k j ps))
        (λ e.
          if_split (λ t. ascending t ≡ true) (j == k) _ _ (λ f. a)
            (λ f. ground (arith, a, e, f, lower-emplace j k m ps, ascending-emplace k m ps)))

  find-lower : (k : ℕ) (ps : List (ℕ × M)) → lower k ps ≡ true → find k ps ≡ none
  find-lower k [] l = refl
  find-lower k ((j, m) ∷ ps) l = ground (arith, l, find-lower k ps)

  find-emplace :
      (i k : ℕ) (m : M) (ps : List (ℕ × M))
      → ascending ps ≡ true
      → find i (emplace k m ps) ≡ or_else (find i ps) (if k == i then some m else none)
  find-emplace i k m [] a = refl
  find-emplace i k m ((j, n) ∷ ps) a =
      if_split
        (λ t.
          find i t
          ≡ or_else (if j == i then some n else find i ps) (if k == i then some m else none))
        (ltb k j) _ _
        (λ e. elim (Bool-cases (k == i)) [
          | inl f ↦ ground (
            arith,
            e,
            f,
            a,
            find-lower i ps (lower_trans i j ps (ground (arith, e, f)) (ground (arith, a))),
          )
          | inr f ↦
              ap (λ t. if t then some m else find i ((j, n) ∷ ps)) f
              ∙ sym (
                  ap (λ t. or_else (find i ((j, n) ∷ ps)) (if t then some m else none)) f
                  ∙ or_else-none (find i ((j, n) ∷ ps)))
        ])
        (λ e.
          if_split
            (λ t.
              find i t
              ≡ or_else (if j == i then some n else find i ps) (if k == i then some m else none))
            (j == k) _ _ (λ f. same_key i j k n m (find i ps) f)
            (λ f.
              other_key (j == i) n (find i (emplace k m ps)) (find i ps)
                (if k == i then some m else none) (find-emplace i k m ps (ground (arith, a)))))

  or_else_assoc : (a b c : Option M) → or_else (or_else a b) c ≡ or_else a (or_else b c)
  or_else_assoc (some m) b c = refl
  or_else_assoc none b c = refl

  -- Whether the keys leave room for one more control.
  abbrev pub fitting : List (ℕ × M) → Bool
  fitting [] = true
  fitting ((k, m) ∷ ps) = ltb k (2 ^ 63) && fitting ps

  combined :
      (n t : Bool) (m : M) (d f : Option M)
      → or_else
          (or_else
            (or_else d (if n && not t then some m else none))
            (if n && t then some m else none))
          f
        ≡ or_else d (if n then some m else f)
  combined true true m (some x) f = refl
  combined true true m none f = refl
  combined true false m (some x) f = refl
  combined true false m none f = refl
  combined false t m (some x) f = refl
  combined false t m none f = refl

  chosen_first :
      (b : Bool) (m : M) (o : Option M)
      → or_else (if b then some m else none) o ≡ (if b then some m else o)
  chosen_first true m o = refl
  chosen_first false m o = refl

==_sym : (a b : ℕ) → (a == b) ≡ (b == a)
==_sym a b = ground arith

eigen_match :
    (p k : ℕ) (eigen : Bool)
    → p < 64
    → (bit_and k (pow2 p) == (if eigen then pow2 p else 0)) ≡ not (xor (test k p) eigen)
eigen_match p k eigen h =
    let value : bit_and k (pow2 p) ≡ (if test k p then pow2 p else 0) = test_eq _ _ (λ j.
      test-bit_and k (pow2 p) j
      ∙ ground (arith, test-pow2 p j h, test-zero j, ap (test k) {x = p} {y = j})) in
    ground (arith, value, pow2-power p h, power_pos p)

module _ {A : Type 0} where
  pub find-widened :
      (p key : ℕ) (ps done : List (ℕ × Matrix A))
      → p < 63
      → key < 2 ^ 64
      → fitting ps ≡ true
      → ascending done ≡ true
      → find key (widened p ps done) ≡ or_else (find key done) (find (narrow p key) ps)
  unfolding widened
  find-widened p key [] done h b f a = sym (or_else-none (find key done))
  find-widened p key ((k, m) ∷ ps) done h b f a =
      let low = widen p k in
      let high = bit_or low (pow2 p) in
      let c : k < 2 ^ 63 = ground (arith, f) in
      let d1 = emplace low m done in
      let a1 = ascending-emplace low m done a in
      let n = narrow p key == k in
      find-widened p key ps (emplace high m d1) h b (ground (arith, f))
        (ascending-emplace high m d1 a1)
      ∙ ap (λ o. or_else o (find (narrow p key) ps))
          (find-emplace key high m d1 a1
            ∙ ap₂ (λ o t. or_else o (if t then some m else none))
                (find-emplace key low m done a
                  ∙ ap (λ t. or_else (find key done) (if t then some m else none))
                      (low_match p key k h b c))
                (high_match p key k h b c))
      ∙ combined n (test key p) m (find key done) (find (narrow p key) ps)
      ∙ ap (λ t. or_else (find key done) (if t then some m else find (narrow p key) ps))
          (==_sym (narrow p key) k)

  pub find-selected :
      (p key : ℕ) (eigen : Bool) (ps done : List (ℕ × Matrix A))
      → p < 63
      → fitting ps ≡ true
      → ascending done ≡ true
      → test key p ≡ eigen
      → key < 2 ^ 63
      → find (narrow p key) (selected p eigen ps done)
        ≡ or_else (find (narrow p key) done) (find key ps)
  unfolding selected
  find-selected p key eigen [] done h f a e b = sym (or_else-none (find (narrow p key) done))
  find-selected p key eigen ((k, m) ∷ ps) done h f a e b =
      let c : k < 2 ^ 63 = ground (arith, f) in
      let next = emplace (narrow p k) m done in
      let rest : fitting ps ≡ true = ground (arith, f) in
      let chosen = bit_and k (pow2 p) == (if eigen then pow2 p else 0) in
      if_split
        (λ t.
          find (narrow p key) (selected p eigen ps t)
          ≡ or_else (find (narrow p key) done) (if k == key then some m else find key ps))
        chosen next done
        (λ t.
          let bits : test k p ≡ test key p =
            ground (arith, e, t, eigen_match p k eigen (omega arith)) in
          find-selected p key eigen ps next h rest (ascending-emplace (narrow p k) m done a) e b
          ∙ ap (λ o. or_else o (find key ps))
              (find-emplace (narrow p key) (narrow p k) m done a
                ∙ ap (λ t. or_else (find (narrow p key) done) (if t then some m else none))
                    (narrow_same p k key h c b bits))
          ∙ or_else_assoc (find (narrow p key) done) (if k == key then some m else none)
              (find key ps)
          ∙ ap (or_else (find (narrow p key) done)) (chosen_first (k == key) m (find key ps)))
        (λ t.
          let other : (k == key) ≡ false = ==_ne k key (λ q.
            ground (arith, t, eigen_match p k eigen (omega arith), ap (λ x. test x p) q, e)) in
          find-selected p key eigen ps done h rest a e b
          ∙ ap (λ x. or_else (find (narrow p key) done) (if x then some m else find key ps))
              {x = false} (sym other))

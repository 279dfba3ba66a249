-- ===== src/Interface/Parts.antt =====
-- The loops of `MULModNOut` and its inverse that add a part for every qubit of the input.
use native.Mathlib.Nat.{mod-lt, mod-mod, mod-add-mod}
use qrack.Prelude.{
  ℕ, zero, suc, ◌+◌, ◌%◌, ◌^◌, ◌<◌, ◌≡◌, refl, sym, ap, ◌∙◌, arith, Bool, true, false, ◌&&◌,
  Bool-cases, inl, inr, List, [], ◌∷◌, ◌++◌, for_upto, sum, sum_congr, if◌then◌else◌, if_split,
}
use qrack.Bits.Field.{field-with_field, with_field-field, with_field_twice}
use qrack.Bits.Power.{power_pos}
use qrack.Bits.Test.{test}
use qrack.Bits.Word.{field, with_field, test-with_field}
use qrack.Engine.Registers.{on_register}
use qrack.Engine.Adding.{added}
use qrack.Interface.Gates.{Gates}
use qrack.Interface.Basis.{mem, all_set, IsWide}
use qrack.Interface.Ripple.{IsDisjoint}
use qrack.Interface.Counting.{mem-qubits}
use qrack.Interface.Sums.{qubits, cinc}
use qrack.Interface.Adding.{Acts}
use qrack.Interface.Undo.{IsOutside, all_set-on_register, cinc-Acts}

added_twice :
    (s l a b i : ℕ)
    → on_register s l (added l b) (on_register s l (added l a) i)
      ≡ on_register s l (added l (a + b)) i
added_twice s l a b i =
    let x = field s l i in
    ap (λ y. with_field s l (added l b y) (on_register s l (added l a) i))
      (field-with_field s l i (added l a x) (mod-lt (x + a) (power_pos l)))
    ∙ with_field_twice s l i (added l b (added l a x)) (added l a x) (mod-lt _ (power_pos l))
        (mod-lt _ (power_pos l))
    ∙ ap (λ y. with_field s l y i)
        (mod-add-mod (x + a) (2 ^ l) b ∙ ap (λ y. y % 2 ^ l) (omega arith))

added_nothing : (s l i : ℕ) → on_register s l (added l 0) i ≡ i
added_nothing s l i =
    ap (λ y. with_field s l y i) (ap (λ y. y % 2 ^ l) (omega arith) ∙ mod-mod _ (2 ^ l))
    ∙ with_field-field s l i

all_set-append : (cs : List ℕ) (t i : ℕ) → all_set (cs ++ t ∷ []) i ≡ (all_set cs i && test i t)
all_set-append [] t i = ground arith
all_set-append (c ∷ cs) t i = ground (arith, all_set-append cs t i)

-- The sum of the numbers of the first `n` qubits of a register that are set.
abbrev pub parts : ℕ → (ℕ → ℕ) → ℕ → ℕ → ℕ
parts from a n i = sum n (λ k. if test i (from + k) then a k else 0)

pub parts-on_register :
    (from out ol n x i : ℕ) (a : ℕ → ℕ)
    → ((k : ℕ) → k < n → mem (from + k) (qubits out ol) ≡ false)
    → x < 2 ^ ol
    → parts from a n (with_field out ol x i) ≡ parts from a n i
parts-on_register from out ol n x i a apart b = sum_congr n _ _ (λ k c.
    ap (λ t. if t then a k else 0)
      (test-with_field out ol x i (from + k) b
        ∙ ground (arith, mem-qubits out ol (from + k), apart k c)))

-- The basis state with the parts added to the output, if the controls are set.
abbrev pub parts_added : List ℕ → ℕ → ℕ → ℕ → (ℕ → ℕ) → ℕ → ℕ → ℕ
parts_added cs from out ol a n i =
    if all_set cs i then on_register out ol (added ol (parts from a n i)) i else i

parts_skip :
    (cs : List ℕ) (from out ol : ℕ) (a : ℕ → ℕ) (n i : ℕ)
    → a n ≡ 0
    → parts_added cs from out ol a (suc n) i ≡ parts_added cs from out ol a n i
unfolding sum
parts_skip cs from out ol a n i e =
    ap (λ p. if all_set cs i then on_register out ol (added ol p) i else i)
      (ap (λ d. parts from a n i + (if test i (from + n) then d else 0)) e ∙ ground arith)

parts_step :
    (cs : List ℕ) (from out ol : ℕ) (a : ℕ → ℕ) (n i : ℕ)
    → IsDisjoint (cs ++ (from + n) ∷ []) (qubits out ol)
    → (let j = parts_added cs from out ol a n i in
        parts_added cs from out ol a (suc n) i
        ≡ (if all_set (cs ++ (from + n) ∷ []) j then on_register out ol (added ol (a n)) j else j))
unfolding sum
parts_step cs from out ol a n i apart =
    let c = from + n in
    let p = parts from a n i in
    let f : ℕ → ℕ = λ d. on_register out ol (added ol d) i in
    let j = if all_set cs i then f p else i in
    let step : ℕ → ℕ =
      λ j. if all_set (cs ++ c ∷ []) j then on_register out ol (added ol (a n)) j else j in
    let whole : Bool → ℕ = λ b. if b then f (p + (if test i c then a n else 0)) else i in
    let same : all_set (cs ++ c ∷ []) (f p) ≡ (all_set cs i && test i c) =
      all_set-on_register out ol (cs ++ c ∷ []) _ i apart (mod-lt _ (power_pos ol))
      ∙ all_set-append cs c i in
    elim (Bool-cases (all_set cs i)) [
      | inl e ↦
          ap whole e
          ∙ if_split
              (λ y.
                f (p + y) ≡ (if test i c then on_register out ol (added ol (a n)) (f p) else f p))
              (test i c) (a n) 0
              (λ t.
                sym (added_twice out ol p (a n) i)
                ∙ ap (λ b. if b then on_register out ol (added ol (a n)) (f p) else f p) {x = true}
                    (sym t))
              (λ t.
                ap f (omega arith)
                ∙ ap (λ b. if b then on_register out ol (added ol (a n)) (f p) else f p) {x = false}
                    (sym t))
          ∙ ap (λ b. if b then on_register out ol (added ol (a n)) (f p) else f p)
              (sym (same ∙ ap (λ b. b && test i c) e))
          ∙ ap (λ b. step (if b then f p else i)) (sym e)
      | inr e ↦
          ap whole e
          ∙ ap (λ b. if b then on_register out ol (added ol (a n)) i else i) {x = false}
              (sym (all_set-append cs c i ∙ ap (λ b. b && test i c) e))
          ∙ ap (λ b. step (if b then f p else i)) {x = false} (sym e)
    ]

module _ {qubit_count : ℕ} {S A : Type 0} (g : Gates S) (amp : S → ℕ → A)
    (law : IsWide qubit_count g amp) where
  pub loop-parts :
      (cs : List ℕ) (from out ol : ℕ) (skip : ℕ → Bool) (a : ℕ → ℕ) (n : ℕ)
      → ((k : ℕ) → k < n → IsOutside qubit_count out ol (cs ++ (from + k) ∷ []))
      → Acts amp
          (for_upto n (λ k s. if skip k then s else cinc g (a k) out ol (cs ++ (from + k) ∷ []) s))
          (parts_added cs from out ol (λ k. if skip k then 0 else a k) n)
  unfolding for_upto sum
  loop-parts cs from out ol skip a zero h i s = ap (amp s) (
      if_split (λ j. j ≡ i) (all_set cs i) (on_register out ol (added ol 0) i) i
        (λ e. added_nothing out ol i) (λ e. refl))
  loop-parts cs from out ol skip a (suc n) h i s =
      let b : ℕ → ℕ = λ k. if skip k then 0 else a k in
      let c = from + n in
      let j = parts_added cs from out ol b n i in
      let s1 =
        for_upto n (λ k s. if skip k then s else cinc g (a k) out ol (cs ++ (from + k) ∷ []) s) s in
      let out_of : IsOutside qubit_count out ol (cs ++ c ∷ []) = h n (omega arith) in
      let before : amp s1 j ≡ amp s i =
        loop-parts cs from out ol skip a n (λ k m. h k (omega arith)) i s in
      if_split (λ t. amp t (parts_added cs from out ol b (suc n) i) ≡ amp s i) (skip n) s1
        (cinc g (a n) out ol (cs ++ c ∷ []) s1)
        (λ e.
          ap (amp s1) (parts_skip cs from out ol b n i (ap (λ t. if t then 0 else a n) e)) ∙ before)
        (λ e.
          ap (amp (cinc g (a n) out ol (cs ++ c ∷ []) s1)) (
            parts_step cs from out ol b n i out_of.disjoint
            ∙ ap (λ d. if all_set (cs ++ c ∷ []) j then on_register out ol (added ol d) j else j)
                (ap (λ t. if t then 0 else a n) e))
          ∙ cinc-Acts g amp law (a n) out ol (cs ++ c ∷ []) out_of j s1
          ∙ before)

-- ===== src/Interface/AdderBack.antt =====
-- What takes an addition of registers back: `IFullAdd` and `IADC`.
use mathlib.Core.Path.{subst}
use qrack.Prelude.{
  ℕ, suc, ◌+◌, ◌-◌, ◌^◌, ◌<◌, ◌≤◌, ◌≡◌, ◌≢◌, ◌==◌, ◌⊎◌, refl, sym, ap₂, ◌∙◌, arith, ◌&&◌, List, [],
  ◌∷◌, ==_ne, ==_refl,
}
use qrack.Interface.Gates.{Gates, cnot, ccnot, swap}
use qrack.Interface.Basis.{flip, test-flip, all_set, IsApart, IsLawful, IsWide, wide, wide-IsWide}
use qrack.Interface.Adders.{full_add, ifull_add, ripple_add, iripple_add, adc, iadc}
use qrack.Interface.Undo.{
  IsUndone, undone_below, IsUndone-trans, IsUndone-loop, IsUndone-if, IsUndone-cond, if_back,
  flip_twice,
}
use qrack.Interface.Adder.{IsFour, apart1, apart2, invert_if}

pub all_set-flip :
    (qubit_count : ℕ) (cs : List ℕ) (t i : ℕ)
    → IsApart qubit_count t cs
    → all_set cs (flip t i) ≡ all_set cs i
all_set-flip qubit_count [] t i h = refl
all_set-flip qubit_count (c ∷ cs) t i h =
    ap₂ ◌&&◌
      (test-flip t i c
        ∙ ground (arith, ==_ne t c (λ e. (h.1 c (ground (arith, ==_refl c))).1 (sym e))))
      (all_set-flip qubit_count cs t i (h.0, λ k m. h.1 k (ground (arith, m))))

-- Two input registers, an output register and a carry among the qubits that share none.
pub record IsRegisters (qubit_count input1 input2 output l carry : ℕ) : Type 0 where
  pub fits1 : input1 + l ≤ qubit_count
  pub fits2 : input2 + l ≤ qubit_count
  pub fits : output + l ≤ qubit_count
  pub below : carry < qubit_count
  pub apart12 : (input1 + l ≤ input2) ⊎ (input2 + l ≤ input1)
  pub apart1 : (input1 + l ≤ output) ⊎ (output + l ≤ input1)
  pub apart2 : (input2 + l ≤ output) ⊎ (output + l ≤ input2)
  pub carry1 : (carry < input1) ⊎ (input1 + l ≤ carry)
  pub carry2 : (carry < input2) ⊎ (input2 + l ≤ carry)
  pub carry3 : (carry < output) ⊎ (output + l ≤ carry)

-- A qubit of each input, with two neighbours of the output.
inner-IsFour :
    (qubit_count a b o l carry x y z : ℕ)
    → IsRegisters qubit_count a b o l carry
    → (a ≤ x) × (x < a + l)
    → (b ≤ y) × (y < b + l)
    → (o ≤ z) × (suc z < o + l)
    → IsFour qubit_count x y z (z + 1)
inner-IsFour qubit_count a b o l carry x y z r (ha, ka) (hb, kb) (ho, ko) = record {
  below_a = omega (arith, r.fits1);
  below_b = omega (arith, r.fits2);
  below_c = omega (arith, r.fits);
  below_d = omega (arith, r.fits);
  ab = λ e. ground (arith, r.apart12, e);
  ac = λ e. ground (arith, r.apart1, e);
  ad = λ e. ground (arith, r.apart1, e);
  bc = λ e. ground (arith, r.apart2, e);
  bd = λ e. ground (arith, r.apart2, e);
  cd = λ e. omega (arith, e);
}

-- A qubit of each input and one of the output, with the carry.
outer-IsFour :
    (qubit_count a b o l carry x y z : ℕ)
    → IsRegisters qubit_count a b o l carry
    → (a ≤ x) × (x < a + l)
    → (b ≤ y) × (y < b + l)
    → (o ≤ z) × (z < o + l)
    → IsFour qubit_count x y z carry
outer-IsFour qubit_count a b o l carry x y z r (ha, ka) (hb, kb) (ho, ko) = record {
  below_a = omega (arith, r.fits1);
  below_b = omega (arith, r.fits2);
  below_c = omega (arith, r.fits);
  below_d = r.below;
  ab = λ e. ground (arith, r.apart12, e);
  ac = λ e. ground (arith, r.apart1, e);
  ad = λ e. ground (arith, r.carry1, e);
  bc = λ e. ground (arith, r.apart2, e);
  bd = λ e. ground (arith, r.carry2, e);
  cd = λ e. ground (arith, r.carry3, e);
}

exchanged : (qubit_count a b c d : ℕ) → IsFour qubit_count a b c d → IsFour qubit_count a b d c
exchanged qubit_count a b c d n = record {
  below_a = n.below_a;
  below_b = n.below_b;
  below_c = n.below_d;
  below_d = n.below_c;
  ab = n.ab;
  ac = n.ad;
  ad = n.ac;
  bc = n.bd;
  bd = n.bc;
  cd = λ e. n.cd (sym e);
}

module _ {qubit_count : ℕ} {S A : Type 0} (g : Gates S) (amp : S → ℕ → A)
    (law : IsWide qubit_count g amp) where
  mc_invert-IsUndone :
      (cs : List ℕ) (t : ℕ)
      → IsApart qubit_count t cs
      → IsUndone amp (g.mc_invert cs t) (g.mc_invert cs t)
  mc_invert-IsUndone cs t h = record {
    go = invert_if cs t;
    back = invert_if cs t;
    acts = λ i s. law.amp-mc_invert cs t i s h;
    acts_back = λ i s. law.amp-mc_invert cs t i s h;
    undone = λ i.
        if_back (all_set cs) (flip t) (flip t) i (all_set-flip qubit_count cs t i h)
          (flip_twice t i);
  }

  full_add-IsUndone :
      (a b c d : ℕ)
      → IsFour qubit_count a b c d
      → IsUndone amp (full_add g a b c d) (ifull_add g a b c d)
  unfolding full_add ifull_add cnot ccnot
  full_add-IsUndone a b c d n =
      let ab = mc_invert-IsUndone (a ∷ []) b (apart1 qubit_count a b n.below_a n.below_b n.ab) in
      let u1 =
        mc_invert-IsUndone (a ∷ b ∷ []) d
          (apart2 qubit_count a b d n.below_a n.below_b n.below_d n.ad n.bd) in
      let u3 =
        mc_invert-IsUndone (b ∷ c ∷ []) d
          (apart2 qubit_count b c d n.below_b n.below_c n.below_d n.bd n.cd) in
      let u4 = mc_invert-IsUndone (b ∷ []) c (apart1 qubit_count b c n.below_b n.below_c n.bc) in
      IsUndone-trans amp _ _ _ _
        (IsUndone-trans amp _ _ _ _
          (IsUndone-trans amp _ _ _ _ (IsUndone-trans amp _ _ _ _ u1 ab) u3) u4)
        ab

  swap-IsUndone :
      (p q : ℕ) → p < qubit_count → q < qubit_count → p ≢ q → IsUndone amp (swap g p q) (swap g p q)
  unfolding swap cnot
  swap-IsUndone p q h k n =
      let pq = mc_invert-IsUndone (p ∷ []) q (apart1 qubit_count p q h k n) in
      let qp = mc_invert-IsUndone (q ∷ []) p (apart1 qubit_count q p k h (λ e. n (sym e))) in
      IsUndone-if amp (p == q) _ _
        (λ e. IsUndone-trans amp _ _ _ _ (IsUndone-trans amp _ _ _ _ pq qp) pq)

  -- `ripple_add` is taken back if the adders are and the swap is.
  ripple_add-IsUndone :
      (add iadd : ℕ → ℕ → ℕ → ℕ → S → S) (exchange : ℕ → ℕ → S → S) (a b o l carry : ℕ)
      → IsRegisters qubit_count a b o l carry
      → ((a b c d : ℕ) → IsFour qubit_count a b c d → IsUndone amp (add a b c d) (iadd a b c d))
      → ((p q : ℕ)
          → p < qubit_count
          → q < qubit_count
          → p ≢ q
          → IsUndone amp (exchange p q) (exchange p q))
      → IsUndone amp
          (ripple_add g add exchange a b o l carry)
          (iripple_add g iadd exchange a b o l carry)
  unfolding ripple_add iripple_add
  ripple_add-IsUndone add iadd exchange a b o l carry r u x =
      let end = l - 1 in
      let body : ℕ → S → S =
        λ i s. add (a + (i + 1)) (b + (i + 1)) (o + (i + 1)) (o + (i + 1) + 1) s in
      let body' : ℕ → S → S =
        λ k s. let i = end - 1 - k in iadd (a + i) (b + i) (o + i) (o + i + 1) s in
      IsUndone-if amp (l == 0) _ _ (λ h.
        let first = u a b carry o (
          exchanged qubit_count a b o carry (
            outer-IsFour qubit_count a b o l carry a b o r (ground (arith, h)) (ground (arith, h))
              (ground (arith, h)))) in
        IsUndone-cond amp (l == 1) _ _ _ _
          (λ k.
            IsUndone-trans amp (add a b carry o) (iadd a b carry o) (exchange carry o)
              (exchange carry o) first
              (x carry o r.below (ground (arith, h, r.fits)) (λ e. ground (arith, h, r.carry3, e))))
          (λ k.
            let rounds = IsUndone-loop amp (end - 1) body body' (λ i j e.
              let m = end - 1 - j in
              let same : i + 1 ≡ m = omega (arith, e) in
              let n =
                inner-IsFour qubit_count a b o l carry (a + m) (b + m) (o + m) r (omega (arith, e))
                  (omega (arith, e)) (omega (arith, e)) in
              subst (λ m. IsUndone amp (add (a + m) (b + m) (o + m) (o + m + 1)) (body' j))
                (sym same) (u (a + m) (b + m) (o + m) (o + m + 1) n)) in
            let last = u (a + end) (b + end) (o + end) carry (
              outer-IsFour qubit_count a b o l carry (a + end) (b + end) (o + end) r
                (ground (arith, h)) (ground (arith, h)) (ground (arith, h))) in
            IsUndone-trans amp _ _ _ _ (IsUndone-trans amp _ _ _ _ first rounds) last))

-- On any simulator of at most 64 qubits whose `X` and `MCInvert` are lawful, `IADC` takes back `ADC`: every
-- basis state has its amplitude again, for registers and a carry that share no qubit.
pub iadc-adc :
    {qubit_count : ℕ} {S A : Type 0} (g : Gates S) (amp : S → ℕ → A)
    → IsLawful qubit_count g amp
    → (a b o l carry : ℕ) → IsRegisters qubit_count a b o l carry
    → (i : ℕ) (s : S) → i < 2 ^ qubit_count
    → amp (iadc g a b o l carry (adc g a b o l carry s)) i ≡ amp s i
unfolding adc iadc
iadc-adc {qubit_count = n} g amp law a b o l carry r =
    let w = wide n amp in
    let whole = wide-IsWide g amp law in
    undone_below n amp _ _ (
      ripple_add-IsUndone g w whole (full_add g) (ifull_add g) (swap g) a b o l carry r
        (full_add-IsUndone g w whole) (swap-IsUndone g w whole))

-- ===== src/Interface/Undo.antt =====
-- Calls that another call takes back, on the amplitudes.
use native.Mathlib.Nat.{mod-lt, mod-eq_of_lt, mul_assoc, mod_self, zero-mod, add-mul-mod_self_left}
use qrack.Prelude.{
  ℕ, zero, suc, ◌+◌, ◌-◌, ◌*◌, ◌/◌, ◌%◌, ◌^◌, ◌<◌, ◌≤◌, ◌≡◌, refl, sym, ap, ap₂, ◌∙◌, arith, List,
  [], ◌∷◌, ◌&&◌, ==_refl, for_upto, Bool, true, false, ltb, Bool-cases, inl, inr, if◌then◌else◌,
}
use qrack.BigInteger.Words.{word_power}
use qrack.Bits.Power.{power_add, power_congr, power_pos}
use qrack.Bits.Test.{test_eq}
use qrack.Bits.Word.{with_field, test-with_field, pow2, pow2-power}
use qrack.Engine.Registers.{on_register}
use qrack.Engine.Adding.{added}
use qrack.Interface.Agree.{added-added}
use qrack.Interface.Gates.{Gates}
use qrack.Interface.Basis.{flip, test-flip, all_set, IsLawful, IsWide, wide, wide-IsWide}
use qrack.Interface.Lists.{distinct}
use qrack.Interface.Ripple.{IsIndices, IsDisjoint}
use qrack.Interface.Sums.{qubits, cinc, cdec}
use qrack.Interface.Counting.{for_upto_front, mem-qubits}
use qrack.Interface.Adding.{Acts}
use qrack.Interface.Controlled.{cinc_wide}

-- `op'` takes back what `op` does.
pub record IsUndone {S A : Type 0} (amp : S → ℕ → A) (op op' : S → S) : Type 0 where
  pub go : ℕ → ℕ
  pub back : ℕ → ℕ
  pub acts : Acts amp op go
  pub acts_back : Acts amp op' back
  pub undone : (i : ℕ) → back (go i) ≡ i

module _ {S A : Type 0} (amp : S → ℕ → A) where
  pub undone-amp :
      (op op' : S → S) → IsUndone amp op op' → (i : ℕ) (s : S) → amp (op' (op s)) i ≡ amp s i
  undone-amp op op' u i s =
      ap (amp (op' (op s))) (sym (u.undone i)) ∙ u.acts_back (u.go i) (op s) ∙ u.acts i s

  pub IsUndone-none : IsUndone amp (λ s. s) (λ s. s)
  IsUndone-none = record {
    go = λ i. i;
    back = λ i. i;
    acts = λ i s. refl;
    acts_back = λ i s. refl;
    undone = λ i. refl;
  }

  pub IsUndone-trans :
      (op1 op1' op2 op2' : S → S)
      → IsUndone amp op1 op1'
      → IsUndone amp op2 op2'
      → IsUndone amp (λ s. op2 (op1 s)) (λ s. op1' (op2' s))
  IsUndone-trans op1 op1' op2 op2' u v = record {
    go = λ i. v.go (u.go i);
    back = λ i. u.back (v.back i);
    acts = λ i s. v.acts (u.go i) (op1 s) ∙ u.acts i s;
    acts_back = λ i s. u.acts_back (v.back i) (op2' s) ∙ v.acts_back i s;
    undone = λ i. ap u.back (v.undone (u.go i)) ∙ u.undone i;
  }

  -- Rounds that are taken back in the opposite order.
  pub IsUndone-loop :
      (n : ℕ) (body body' : ℕ → S → S)
      → ((j k : ℕ) → j + suc k ≡ n → IsUndone amp (body j) (body' k))
      → IsUndone amp (for_upto n body) (for_upto n body')
  unfolding for_upto
  IsUndone-loop zero body body' h = IsUndone-none
  IsUndone-loop (suc n) body body' h =
      let tail : ℕ → S → S = λ j. body' (suc j) in
      let rest = IsUndone-loop n body tail (λ j k e. h j (suc k) (omega (arith, e))) in
      let all =
        IsUndone-trans (for_upto n body) (for_upto n tail) (body n) (body' 0) rest
          (h n 0 (omega arith)) in
      record {
        go = all.go;
        back = all.back;
        acts = all.acts;
        acts_back =
            λ i s. ap (λ t. amp t (all.back i)) (for_upto_front n body' s) ∙ all.acts_back i s;
        undone = all.undone;
      }

  pub IsUndone-cond :
      (b : Bool) (op op' op2 op2' : S → S)
      → (b ≡ true → IsUndone amp op op')
      → (b ≡ false → IsUndone amp op2 op2')
      → IsUndone amp (λ s. if b then op s else op2 s) (λ s. if b then op' s else op2' s)
  IsUndone-cond true op op' op2 op2' h k = h refl
  IsUndone-cond false op op' op2 op2' h k = k refl

  pub IsUndone-if :
      (b : Bool) (op op' : S → S)
      → (b ≡ false → IsUndone amp op op')
      → IsUndone amp (λ s. if b then s else op s) (λ s. if b then s else op' s)
  IsUndone-if b op op' h = IsUndone-cond b (λ s. s) (λ s. s) op op' (λ e. IsUndone-none) h

-- The number that `DEC` adds, to whatever `INC` added.
pub dec_amount :
    (l a : ℕ) → l ≤ 64 → a ≤ word_power → ((pow2 l + word_power - a) % word_power + a) % 2 ^ l ≡ 0
unfolding pow2
dec_amount l a h b =
    let w = word_power in
    let whole : 2 ^ l * 2 ^ (64 - l) ≡ w =
      power_add l (64 - l) ∙ power_congr (l + (64 - l)) 64 (omega arith) in
    let p = 1 * 2 ^ l % w in
    let k = 1 - (p + w - a) / w in
    let part : p % 2 ^ l ≡ 0 = elim (Bool-cases (ltb l 64)) [
      | inl e ↦ ap (λ y. y % 2 ^ l) (pow2-power l (ground (arith, e))) ∙ mod_self (2 ^ l)
      | inr e ↦
          ap (λ y. y % 2 ^ l) {x = p} {y = 0}
            (ap (λ n. 1 * 2 ^ n % w) {x = l} {y = 64} (ground (arith, e)))
          ∙ zero-mod (2 ^ l)
    ] in
    ap (λ y. y % 2 ^ l) {y = p + w * k} (omega arith)
    ∙ ap (λ y. (p + y) % 2 ^ l) (ap (λ v. v * k) (sym whole) ∙ mul_assoc (2 ^ l) (2 ^ (64 - l)) k)
    ∙ add-mul-mod_self_left p (2 ^ l) (2 ^ (64 - l) * k)
    ∙ part

pub flip_twice : (q i : ℕ) → flip q (flip q i) ≡ i
flip_twice q i = test_eq _ _ (λ k. ground (arith, test-flip q (flip q i) k, test-flip q i k))

-- Controls outside a register, all among the qubits.
pub record IsOutside (qubit_count start l : ℕ) (cs : List ℕ) : Type 0 where
  pub fits : start + l ≤ qubit_count
  pub indices : IsIndices qubit_count cs
  pub different : distinct cs ≡ true
  pub disjoint : IsDisjoint cs (qubits start l)

pub all_set-on_register :
    (start l : ℕ) (cs : List ℕ) (x i : ℕ)
    → IsDisjoint cs (qubits start l)
    → x < 2 ^ l
    → all_set cs (with_field start l x i) ≡ all_set cs i
all_set-on_register start l [] x i apart b = refl
all_set-on_register start l (c ∷ cs) x i apart b =
    ap₂ ◌&&◌
      (test-with_field start l x i c b
        ∙ ground (arith, mem-qubits start l c, apart c (ground (arith, ==_refl c))))
      (all_set-on_register start l cs x i (λ k m. apart k (ground (arith, m))) b)

pub if_back :
    (c : ℕ → Bool) (f f' : ℕ → ℕ) (i : ℕ)
    → c (f i) ≡ c i
    → f' (f i) ≡ i
    → (let j = if c i then f i else i in if c j then f' j else j) ≡ i
if_back c f f' i same h =
    let both : Bool → ℕ = λ b. let j = if b then f i else i in if c j then f' j else j in
    elim (Bool-cases (c i)) [
      | inl p ↦ ap both p ∙ ap (λ b. if b then f' (f i) else f i) (same ∙ p) ∙ h
      | inr p ↦ ap both p ∙ ap (λ b. if b then f' i else i) p
    ]

module _ {qubit_count : ℕ} {S A : Type 0} (g : Gates S) (amp : S → ℕ → A)
    (law : IsWide qubit_count g amp) where
  pub x-IsUndone : (q : ℕ) → q < qubit_count → IsUndone amp (g.x q) (g.x q)
  x-IsUndone q h = record {
    go = flip q;
    back = flip q;
    acts = λ i s. law.amp-x q i s h;
    acts_back = λ i s. law.amp-x q i s h;
    undone = flip_twice q;
  }

  -- An addition under the controls is taken back by that of a number that completes it.
  IsUndone-added :
      (start l a b : ℕ) (cs : List ℕ) (op op' : S → S)
      → (a + b) % 2 ^ l ≡ 0
      → IsOutside qubit_count start l cs
      → Acts amp op (λ i. if all_set cs i then on_register start l (added l a) i else i)
      → Acts amp op' (λ i. if all_set cs i then on_register start l (added l b) i else i)
      → IsUndone amp op op'
  IsUndone-added start l a b cs op op' e out h k = record {
    go = λ i. if all_set cs i then on_register start l (added l a) i else i;
    back = λ i. if all_set cs i then on_register start l (added l b) i else i;
    acts = h;
    acts_back = k;
    undone = λ i.
        if_back (all_set cs) (on_register start l (added l a)) (on_register start l (added l b)) i
          (all_set-on_register start l cs _ i out.disjoint (mod-lt _ (power_pos l)))
          (added-added start l a b i e);
  }

  pub cinc-Acts :
      (a start l : ℕ) (cs : List ℕ)
      → IsOutside qubit_count start l cs
      → Acts amp
          (cinc g a start l cs)
          (λ i. if all_set cs i then on_register start l (added l a) i else i)
  cinc-Acts a start l cs out =
      cinc_wide g amp law a start l cs out.fits out.indices out.different out.disjoint

  -- The default `CDEC` takes back the default `CINC`, whatever the number, under the same controls.
  pub cinc-IsUndone :
      (a start l : ℕ) (cs : List ℕ)
      → a ≤ word_power
      → IsOutside qubit_count start l cs
      → IsUndone amp (cinc g a start l cs) (cdec g a start l cs)
  unfolding cdec
  cinc-IsUndone a start l cs b out =
      let d = (pow2 l + word_power - a) % word_power in
      IsUndone-added start l a d cs (cinc g a start l cs) (cinc g d start l cs)
        (ap (λ y. y % 2 ^ l) (omega arith) ∙ dec_amount l a (omega (arith, out.fits, law.fits)) b)
        out (cinc-Acts a start l cs out) (cinc-Acts d start l cs out)

  pub cdec-IsUndone :
      (a start l : ℕ) (cs : List ℕ)
      → a ≤ word_power
      → IsOutside qubit_count start l cs
      → IsUndone amp (cdec g a start l cs) (cinc g a start l cs)
  unfolding cdec
  cdec-IsUndone a start l cs b out =
      let d = (pow2 l + word_power - a) % word_power in
      IsUndone-added start l d a cs (cinc g d start l cs) (cinc g a start l cs)
        (dec_amount l a (omega (arith, out.fits, law.fits)) b) out (cinc-Acts d start l cs out)
        (cinc-Acts a start l cs out)

-- What is undone on the wide amplitudes is undone on those of the simulator.
pub undone_below :
    (n : ℕ) {S A : Type 0} (amp : S → ℕ → A) (op op' : S → S)
    → IsUndone (wide n amp) op op'
    → (i : ℕ) (s : S) → i < 2 ^ n
    → amp (op' (op s)) i ≡ amp s i
undone_below n amp op op' u i s b =
    ap (amp (op' (op s))) (sym (mod-eq_of_lt b))
    ∙ undone-amp (wide n amp) op op' u i s
    ∙ ap (amp s) (mod-eq_of_lt b)

-- On any simulator of at most 64 qubits whose `X` and `MCInvert` are lawful, the default `CDEC` takes
-- back the default `CINC` of the same number, which is at most 2^64, under the same controls: every basis
-- state has its amplitude again. The register is within the qubits and the controls are different ones
-- outside it; with no controls these are `DEC` and `INC`.
pub cdec-cinc :
    {qubit_count : ℕ} {S A : Type 0} (g : Gates S) (amp : S → ℕ → A)
    → IsLawful qubit_count g amp
    → (a start l : ℕ) (cs : List ℕ) → a ≤ word_power
    → IsOutside qubit_count start l cs
    → (i : ℕ) (s : S) → i < 2 ^ qubit_count
    → amp (cdec g a start l cs (cinc g a start l cs s)) i ≡ amp s i
cdec-cinc {qubit_count = n} g amp law a start l cs b out =
    undone_below n amp (cinc g a start l cs) (cdec g a start l cs)
      (cinc-IsUndone g (wide n amp) (wide-IsWide g amp law) a start l cs b out)

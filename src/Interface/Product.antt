-- ===== src/Interface/Product.antt =====
-- `MULModNOut` and its inverse, with and without controls.
use mathlib.Core.Path.{subst}
use native.Mathlib.Nat.{div-lt_self, mod-lt, mod-add-mod, mod-le, zero-mod}
use qrack.Prelude.{
  ℕ, zero, suc, ◌+◌, ◌-◌, ◌*◌, ◌/◌, ◌%◌, ◌^◌, ◌<◌, ◌≤◌, ◌≡◌, ◌≢◌, ◌==◌, refl, sym, ap, ap₂, ◌∙◌,
  arith, Bool, true, false, not, Bool-cases, inl, inr, List, [], ◌∷◌, ◌++◌, for_upto, sum,
  if◌then◌else◌, ltb, ==_refl,
}
use qrack.BigInteger.Words.{word_power}
use qrack.Bits.Power.{power_pos}
use qrack.Bits.Test.{test}
use qrack.Bits.Word.{pow2, power_mono, power_below, pow2-power}
use qrack.Integers.{log2_ocl, is_power_of_two}
use qrack.Integers.Laws.{log2_ocl-floor}
use qrack.Engine.Registers.{on_register}
use qrack.Engine.Adding.{added}
use qrack.Interface.Gates.{Gates}
use qrack.Interface.Basis.{all_set, IsLawful, IsWide, wide, wide-IsWide}
use qrack.Interface.Lists.{mem-append}
use qrack.Interface.Ripple.{IsDisjoint}
use qrack.Interface.Sums.{qubits, cinc, cdec, dec}
use qrack.Interface.Modular.{
  output_length, part_mul, mod_control, cmul_mod_n_out, cimul_mod_n_out, mul_mod_n_out,
  imul_mod_n_out,
}
use qrack.Interface.Agree.{added-added}
use qrack.Interface.Undo.{
  undone_below, IsUndone-trans, IsUndone-loop, IsUndone-if, x-IsUndone, cinc-IsUndone,
  cdec-IsUndone, IsOutside, all_set-on_register, if_back, dec_amount, IsUndone,
}
use qrack.Interface.Parts.{parts, parts-on_register, parts_added, loop-parts}

both_or_none :
    (c : Bool) (x y m : ℕ) → (x + y) % m ≡ 0 → ((if c then x else 0) + (if c then y else 0)) % m ≡ 0
both_or_none true x y m h = h
both_or_none false x y m h = zero-mod m

if_not : (c : Bool) (x : ℕ) → (if c then 0 else x) ≡ (if not c then x else 0)
if_not c x = ground arith

parts_complete :
    (from n l i : ℕ) (a b : ℕ → ℕ)
    → ((k : ℕ) → (a k + b k) % 2 ^ l ≡ 0)
    → (parts from a n i + parts from b n i) % 2 ^ l ≡ 0
unfolding sum
parts_complete from zero l i a b h = zero-mod (2 ^ l)
parts_complete from (suc n) l i a b h =
    let p = parts from a n i in
    let q = parts from b n i in
    let x = if test i (from + n) then a n else 0 in
    let y = if test i (from + n) then b n else 0 in
    ap (λ z. z % 2 ^ l) {y = p + q + (x + y)} (omega arith)
    ∙ sym (mod-add-mod (p + q) (2 ^ l) (x + y))
    ∙ ap (λ z. (z + (x + y)) % 2 ^ l) (parts_complete from n l i a b h)
    ∙ ap (λ z. z % 2 ^ l) {y = x + y} (omega arith)
    ∙ both_or_none (test i (from + n)) (a n) (b n) (2 ^ l) (h n)

-- The rounds of the multiplication and those of its inverse.
IsUndone-parts :
    {qubit_count : ℕ} {S A : Type 0} (g : Gates S) (amp : S → ℕ → A)
    (law : IsWide qubit_count g amp) (cs : List ℕ) (from out ol : ℕ) (skip : ℕ → Bool) (a : ℕ → ℕ)
    (n : ℕ)
    → ol ≤ 64
    → ((k : ℕ) → a k ≤ word_power)
    → IsDisjoint cs (qubits out ol)
    → ((k : ℕ) → k < n → IsOutside qubit_count out ol (cs ++ (from + k) ∷ []))
    → IsUndone amp
        (for_upto n (λ k s. if skip k then s else cinc g (a k) out ol (cs ++ (from + k) ∷ []) s))
        (for_upto n (λ k s. if skip k then s else cdec g (a k) out ol (cs ++ (from + k) ∷ []) s))
unfolding cdec
IsUndone-parts g amp law cs from out ol skip a n small bound apart h =
    let d : ℕ → ℕ = λ k. (pow2 ol + word_power - a k) % word_power in
    let b : ℕ → ℕ = λ k. if skip k then 0 else a k in
    let b' : ℕ → ℕ = λ k. if skip k then 0 else d k in
    record {
      go = parts_added cs from out ol b n;
      back = parts_added cs from out ol b' n;
      acts = loop-parts g amp law cs from out ol skip a n h;
      acts_back = loop-parts g amp law cs from out ol skip d n h;
      undone = λ i.
          if_back (all_set cs) (λ i. on_register out ol (added ol (parts from b n i)) i)
            (λ i. on_register out ol (added ol (parts from b' n i)) i) i
            (all_set-on_register out ol cs _ i apart (mod-lt _ (power_pos ol)))
            (ap
                (λ p.
                  on_register out ol (added ol p)
                    (on_register out ol (added ol (parts from b n i)) i))
                (parts-on_register from out ol n _ i b'
                  (λ k m. (h k m).disjoint (from + k) (
                    ground (arith, mem-append cs ((from + k) ∷ []) (from + k), ==_refl (from + k))))
                  (mod-lt _ (power_pos ol)))
              ∙ added-added out ol (parts from b n i) (parts from b' n i) i (
                  parts_complete from n ol i b b' (λ k.
                    ap₂ (λ x y. (x + y) % 2 ^ ol) (if_not (skip k) (a k)) (if_not (skip k) (d k))
                    ∙ both_or_none (not (skip k)) (a k) (d k) (2 ^ ol) (
                        ap (λ y. y % 2 ^ ol) (omega arith)
                        ∙ dec_amount ol (a k) small (bound k)))));
    }

-- What `MULModNOut` needs: the controls and the input's qubits are different ones outside the output, the
-- controls are outside the input, and the input is shorter than a word.
pub record IsSeparate (qubit_count : ℕ) (cs : List ℕ) (mod_n from out l : ℕ) : Type 0 where
  pub positive : 0 < mod_n
  pub word : mod_n < word_power
  pub short : l < 64
  pub outside_in : IsOutside qubit_count from l cs
  pub outside_out :
      (k : ℕ) → k < l → IsOutside qubit_count out (output_length mod_n) (cs ++ (from + k) ∷ [])
  pub controls_out : IsDisjoint cs (qubits out (output_length mod_n))
  pub output_word : output_length mod_n ≤ 64

-- The qubit that tells a borrow is one of the input's.
control_in :
    (mod_n from l : ℕ)
    → 0 < mod_n
    → l < 64
    → is_power_of_two mod_n ≡ false
    → 0 < pow2 l / mod_n
    → (k : ℕ) × (k < l) × (mod_control mod_n from l ≡ from + k)
unfolding mod_control is_power_of_two
control_in mod_n from l pos short odd more =
    let d = pow2 l / mod_n in
    let not_one : mod_n ≢ 1 = λ e. ground (arith, odd, ap is_power_of_two e) in
    let whole : pow2 l ≡ 2 ^ l = pow2-power l short in
    let small : d < 2 ^ l =
      grind (
        arith,
        whole,
        div-lt_self {n = 2 ^ l} {k = mod_n} (power_pos l) (omega (arith, not_one)),
      ) in
    let low = (log2_ocl-floor d more (omega (arith, power_below l short))).0 in
    let j = log2_ocl d in
    elim (Bool-cases (ltb j l)) [
      | inl e ↦ (l - (j + 1), ground (arith, e), ground (arith, e))
      | inr e ↦ absurd (ground (arith, e, power_mono l j))
    ]

module _ {qubit_count : ℕ} {S A : Type 0} (g : Gates S) (amp : S → ℕ → A)
    (law : IsWide qubit_count g amp) where
  IsUndone-reductions :
      (cs : List ℕ) (mod_n from out l : ℕ)
      → IsSeparate qubit_count cs mod_n from out l
      → is_power_of_two mod_n ≡ false
      → (let top = mod_control mod_n from l in
          let ol = output_length mod_n in
          IsUndone amp
            (for_upto (pow2 l / mod_n) (λ i s.
              g.x top (cdec g mod_n out ol (cs ++ top ∷ []) (g.x top (cdec g mod_n from l cs s)))))
            (for_upto (pow2 l / mod_n) (λ i s.
              cinc g mod_n from l cs (g.x top (cinc g mod_n out ol (cs ++ top ∷ []) (g.x top s))))))
  IsUndone-reductions cs mod_n from out l sep odd =
      let top = mod_control mod_n from l in
      let ol = output_length mod_n in
      IsUndone-loop amp (pow2 l / mod_n) _ _ (λ j k e.
        let (q, b, at) = control_in mod_n from l sep.positive sep.short odd (omega (arith, e)) in
        let u1 = cdec-IsUndone g amp law mod_n from l cs (omega (arith, sep.word)) sep.outside_in in
        let ux = x-IsUndone g amp law top (omega (arith, at, b, sep.outside_in.fits)) in
        let u2 =
          IsUndone-trans amp (cdec g mod_n from l cs) (cinc g mod_n from l cs) (g.x top) (g.x top)
            u1 ux in
        let u3 = cdec-IsUndone g amp law mod_n out ol (cs ++ top ∷ []) (omega (arith, sep.word)) (
          subst (λ q. IsOutside qubit_count out ol (cs ++ q ∷ [])) (sym at)
            (sep.outside_out q b)) in
        let u4 = IsUndone-trans amp _ _ _ _ u2 u3 in IsUndone-trans amp _ _ _ _ u4 ux)

  cmul_mod_n_out-IsUndone :
      (cs : List ℕ) (to_mul mod_n from out l : ℕ)
      → IsSeparate qubit_count cs mod_n from out l
      → IsUndone amp
          (cmul_mod_n_out g to_mul mod_n from out l cs)
          (cimul_mod_n_out g to_mul mod_n from out l cs)
  unfolding cmul_mod_n_out cimul_mod_n_out part_mul
  cmul_mod_n_out-IsUndone cs to_mul mod_n from out l sep =
      let ol = output_length mod_n in
      let a = part_mul to_mul mod_n in
      let small : (k : ℕ) → a k ≤ word_power =
        λ k. omega (arith, mod-le (to_mul * pow2 k % word_power) mod_n) in
      let rounds =
        IsUndone-parts g amp law cs from out ol (λ k. a k == 0) a l sep.output_word small
          sep.controls_out sep.outside_out in
      let top = mod_control mod_n from l in
      let adds =
        IsUndone-loop amp (pow2 l / mod_n) (λ i s. cinc g mod_n from l cs s)
          (λ i s. cdec g mod_n from l cs s)
          (λ j k e.
            cinc-IsUndone g amp law mod_n from l cs (omega (arith, sep.word)) sep.outside_in) in
      IsUndone-trans amp _ _ _ _ rounds (
        IsUndone-if amp (is_power_of_two mod_n) _ _ (λ odd.
          IsUndone-trans amp _ _ _ _ (IsUndone-reductions cs mod_n from out l sep odd) adds))

pub IsOutside-bare :
    {n : ℕ} (cs : List ℕ) (start l q : ℕ)
    → IsOutside n start l (cs ++ q ∷ [])
    → IsOutside n start l (q ∷ [])
IsOutside-bare cs start l q h = record {
  fits = h.fits;
  indices = λ k m. h.indices k (mem-append cs (q ∷ []) k ∙ ground (arith, m));
  different = refl;
  disjoint = λ k m. h.disjoint k (mem-append cs (q ∷ []) k ∙ ground (arith, m));
}

-- What holds with controls holds without.
IsSeparate-bare :
    {n : ℕ} (cs : List ℕ) (mod_n from out l : ℕ)
    → IsSeparate n cs mod_n from out l
    → IsSeparate n [] mod_n from out l
IsSeparate-bare cs mod_n from out l h = record {
  positive = h.positive;
  word = h.word;
  short = h.short;
  outside_in = record {
    fits = h.outside_in.fits;
    indices = λ k m. absurd (ground (arith, m));
    different = refl;
    disjoint = λ k m. absurd (ground (arith, m));
  };
  outside_out = λ k b. IsOutside-bare cs out (output_length mod_n) (from + k) (h.outside_out k b);
  controls_out = λ k m. absurd (ground (arith, m));
  output_word = h.output_word;
}

pub mul-cmul :
    {S : Type 0} (g : Gates S) (to_mul mod_n from out l : ℕ) (s : S)
    → mul_mod_n_out g to_mul mod_n from out l s ≡ cmul_mod_n_out g to_mul mod_n from out l [] s
unfolding mul_mod_n_out cmul_mod_n_out cinc cdec dec
mul-cmul g to_mul mod_n from out l s = refl

imul-cimul :
    {S : Type 0} (g : Gates S) (to_mul mod_n from out l : ℕ) (s : S)
    → imul_mod_n_out g to_mul mod_n from out l s ≡ cimul_mod_n_out g to_mul mod_n from out l [] s
unfolding imul_mod_n_out cimul_mod_n_out cinc cdec dec
imul-cimul g to_mul mod_n from out l s = refl

-- On any simulator of at most 64 qubits whose `X` and `MCInvert` are lawful, `CIMULModNOut` takes back
-- `CMULModNOut`, and `IMULModNOut` takes back `MULModNOut`: every basis state has
-- its amplitude again, whatever the number, also where the product is not the one modulo N. The modulus
-- is not 0 and below 2^64, the input has fewer than 64 qubits and the output 64 at most, and the
-- controls and the qubits of the input and of the output are different qubits of the simulator.
pub cimul-cmul :
    {qubit_count : ℕ} {S A : Type 0} (g : Gates S) (amp : S → ℕ → A)
    → IsLawful qubit_count g amp
    → (cs : List ℕ) (to_mul mod_n from out l : ℕ) → IsSeparate qubit_count cs mod_n from out l
    → (i : ℕ) (s : S) → i < 2 ^ qubit_count
    → (amp
          (cimul_mod_n_out g to_mul mod_n from out l cs
            (cmul_mod_n_out g to_mul mod_n from out l cs s))
          i
        ≡ amp s i)
      × (amp
            (imul_mod_n_out g to_mul mod_n from out l (mul_mod_n_out g to_mul mod_n from out l s))
            i
          ≡ amp s i)
cimul-cmul {qubit_count = n} g amp law cs to_mul mod_n from out l sep i s b =
    let back : (ds : List ℕ)
        → IsSeparate n ds mod_n from out l
        → amp
            (cimul_mod_n_out g to_mul mod_n from out l ds
              (cmul_mod_n_out g to_mul mod_n from out l ds s))
            i
          ≡ amp s i =
      λ ds p.
        undone_below n amp (cmul_mod_n_out g to_mul mod_n from out l ds)
          (cimul_mod_n_out g to_mul mod_n from out l ds)
          (cmul_mod_n_out-IsUndone g (wide n amp) (wide-IsWide g amp law) ds to_mul mod_n from out l
            p)
          i s b in
    (
      back cs sep,
      ap (λ t. amp t i)
            (imul-cimul g to_mul mod_n from out l (mul_mod_n_out g to_mul mod_n from out l s)
              ∙ ap (cimul_mod_n_out g to_mul mod_n from out l [])
                  (mul-cmul g to_mul mod_n from out l s))
          ∙ back [] (IsSeparate-bare cs mod_n from out l sep),
    )

-- ===== src/Interface/Controlled.antt =====
-- `CINC` as an addition to the register's value under controls.
use mathlib.Core.List.{append_assoc}
use native.Mathlib.Nat.{mod-eq_of_lt}
use qrack.Prelude.{
  ℕ, zero, suc, ◌+◌, ◌-◌, ◌/◌, ◌%◌, ◌^◌, ◌<◌, ◌≤◌, ◌≡◌, ◌≢◌, ◌==◌, refl, sym, ap, ap₂, ◌∙◌, arith,
  Bool, true, false, List, [], ◌∷◌, ◌++◌, take, if◌then◌else◌, ◌<◌, ◌^◌, ==_refl, if_both,
  Bool-cases, inl, inr, for_upto,
}
use qrack.Engine.Registers.{on_register}
use qrack.Engine.Adding.{added}
use qrack.Interface.Gates.{Gates, mac_invert}
use qrack.Interface.Basis.{
  flip, mem, all_set, none_set, IsApart, IsLawful, IsWide, wide, wide-IsWide,
}
use qrack.Interface.Masks.{amp-mac_invert}
use qrack.Interface.Lists.{gather, scatter, distinct}
use qrack.Interface.Ripple.{rip, ups, IsIndices, IsDisjoint, amp-ups}
use qrack.Interface.Counting.{
  loop-rip, loop-ups, length-qubits, get_or-qubits, drop-qubits, take-qubits, distinct-qubits,
}
use qrack.Interface.Sums.{qubits, each, cinc}
use qrack.Interface.Adding.{
  Acts, IsMoved, narrow, on_register-bound, scatter-added, qubits-IsIndices, inc_wide,
}
use qrack.Interface.Toggle.{toggle, toggled}

module _ {S : Type 0} (g : Gates S) (cs : List ℕ) where
  -- The inner loop of `CINC`.
  inner-rip :
      (start l i : ℕ) (s : S)
      → i < l
      → for_upto
          (l - 1 - i)
          (λ j s. mac_invert g (cs ++ qubits (start + i) (j + 1)) (start + (i + j + 1) % l) s)
          s
        ≡ rip g (cs ++ (start + i) ∷ []) (qubits (start + (i + 1)) (l - 1 - i)) s
  inner-rip start l i s h =
      let n = l - 1 - i in
      let ts = qubits (start + (i + 1)) n in
      let body : ℕ → S → S =
        λ j s. mac_invert g (cs ++ qubits (start + i) (j + 1)) (start + (i + j + 1) % l) s in
      ap (λ n. for_upto n body s) (sym (length-qubits (start + (i + 1)) n))
      ∙ loop-rip g (cs ++ (start + i) ∷ []) ts body s (λ j t b.
        let c : j < n = omega (arith, length-qubits (start + (i + 1)) n) in
        ap₂ (λ ds q. mac_invert g ds q t)
          (ap (λ m. cs ++ qubits (start + i) m) {y = suc j} (omega arith)
            ∙ ap (λ p. cs ++ (start + i) ∷ qubits p j) {y = start + (i + 1)} (omega arith)
            ∙ ap (λ ds. cs ++ (start + i) ∷ ds)
                (sym (take-qubits (start + (i + 1)) n j (omega arith)))
            ∙ sym (append_assoc cs ((start + i) ∷ []) (take j ts)))
          (ap (λ r. start + r) (mod-eq_of_lt (omega arith))
            ∙ omega arith
            ∙ sym (get_or-qubits (start + (i + 1)) n j c)))

  cinc-ups :
      (a start l : ℕ) (s : S)
      → for_upto l
          (λ i s.
            if a / 2 ^ i % 2 == 0
            then s
            else for_upto
                (l - 1 - i)
                (λ j s. mac_invert g (cs ++ qubits (start + i) (j + 1)) (start + (i + j + 1) % l) s)
                (mac_invert g cs (start + i) s))
          s
        ≡ ups g (mac_invert g cs) cs a (qubits start l) s
  cinc-ups a start l s =
      let qs = qubits start l in
      let first = mac_invert g cs in
      let body : ℕ → S → S = λ i s.
        if a / 2 ^ i % 2 == 0
        then s
        else for_upto (l - 1 - i)
            (λ j s. mac_invert g (cs ++ qubits (start + i) (j + 1)) (start + (i + j + 1) % l) s)
            (first (start + i) s) in
      ap (λ n. for_upto n body s) (sym (length-qubits start l))
      ∙ loop-ups g first cs a qs body s (λ i t b.
        let c : i < l = omega (arith, length-qubits start l) in
        ap (λ r. if a / 2 ^ i % 2 == 0 then t else r)
          (inner-rip start l i (first (start + i) t) c
            ∙ ap₂ (λ q ts. rip g (cs ++ q ∷ []) ts (first q t)) (sym (get_or-qubits start l i c))
                (ap₂ qubits {x = start + (i + 1)} {y = start + suc i} {u = l - 1 - i}
                    {v = l - suc i} (omega arith) (omega arith)
                  ∙ sym (drop-qubits start l (suc i) (omega arith)))))

cinc-each :
    {S : Type 0} (g : Gates S) (a start m c : ℕ) (cs : List ℕ) (s : S)
    → (let ds = c ∷ cs in
        cinc g a start (suc (suc m)) ds s
        ≡ each g.x ds (ups g (mac_invert g ds) ds a (qubits start (suc (suc m))) (each g.x ds s)))
unfolding cinc
cinc-each g a start m c cs s =
    let ds = c ∷ cs in
    ground arith ∙ ap (each g.x ds) (cinc-ups g ds a start (suc (suc m)) (each g.x ds s))

not_same : (k q : ℕ) (cs : List ℕ) → mem k cs ≡ true → mem q cs ≡ false → k ≢ q
not_same k q cs m n e = ground (arith, m, n, ap (λ k. mem k cs) e)

single_added :
    (b : Bool) (a start i : ℕ)
    → (if b then scatter (start ∷ []) (gather (start ∷ []) i + a) i else i)
      ≡ (if a % 2 == 0 then i else if b then flip start i else i)
single_added b a start i = ground arith

module _ {qubit_count : ℕ} {S A : Type 0} (g : Gates S) (amp : S → ℕ → A)
    (law : IsWide qubit_count g amp) where
  each-toggles : (cs : List ℕ) → IsIndices qubit_count cs → Acts amp (each g.x cs) (toggle cs)
  unfolding each
  each-toggles [] low i s = refl
  each-toggles (c ∷ cs) low i s =
      each-toggles cs (λ k m. low k (ground (arith, m))) (flip c i) (g.x c s)
      ∙ law.amp-x c i s (low c (ground (arith, ==_refl c)))

  one_qubit :
      (a start c : ℕ) (cs : List ℕ) (i : ℕ) (s : S)
      → IsApart qubit_count start (c ∷ cs)
      → amp
          (cinc g a start 1 (c ∷ cs) s)
          (if a % 2 == 0 then i else if all_set (c ∷ cs) i then flip start i else i)
        ≡ amp s i
  unfolding cinc
  one_qubit a start c cs i s h = elim (Bool-cases (a % 2 == 0)) [
    | inl e ↦ ground (arith, e)
    | inr e ↦ ground (arith, e, law.amp-mc_invert (c ∷ cs) start i s h)
  ]

  cinc-scatters :
      (a start l c : ℕ) (cs : List ℕ)
      → start + l ≤ qubit_count
      → IsIndices qubit_count (c ∷ cs)
      → distinct (c ∷ cs) ≡ true
      → IsDisjoint (c ∷ cs) (qubits start l)
      → (i : ℕ) (s : S)
      → amp (cinc g a start l (c ∷ cs) s) (
          if all_set (c ∷ cs) i
          then scatter (qubits start l) (gather (qubits start l) i + a) i
          else i)
        ≡ amp s i
  unfolding cinc
  cinc-scatters a start zero c cs h low d apart i s = ap (amp s) (ground arith)
  cinc-scatters a start (suc zero) c cs h low d apart i s =
      ap (amp (cinc g a start 1 (c ∷ cs) s)) (single_added (all_set (c ∷ cs) i) a start i)
      ∙ one_qubit a start c cs i s (
        omega (arith, h),
        λ k n. (
          low k n,
          not_same k start (c ∷ cs) n (elim (Bool-cases (mem start (c ∷ cs))) [
            | inl e ↦ absurd (ground (arith, apart start e))
            | inr e ↦ e
          ]),
        ),
      )
  cinc-scatters a start (suc (suc m)) c cs h low d apart i s =
      let l = suc (suc m) in
      let qs = qubits start l in
      let ds = c ∷ cs in
      let j = toggle ds i in
      let s1 = each g.x ds s in
      ap₂ amp (cinc-each g a start m c cs s) (toggled ds qs a i d apart)
      ∙ each-toggles ds low (if none_set ds j then scatter qs (gather qs j + a) j else j)
          (ups g (mac_invert g ds) ds a qs s1)
      ∙ amp-ups g amp law (mac_invert g ds) ds a qs j s1
          (λ q i s b m.
            amp-mac_invert g amp law ds q i s (b, λ k n. (low k n, not_same k q ds n m)))
          low (qubits-IsIndices qubit_count start l h) (distinct-qubits start l) apart
      ∙ each-toggles ds low i s

  pub cinc_wide :
      (a start l : ℕ) (cs : List ℕ)
      → start + l ≤ qubit_count
      → IsIndices qubit_count cs
      → distinct cs ≡ true
      → IsDisjoint cs (qubits start l)
      → Acts amp
          (cinc g a start l cs)
          (λ i. if all_set cs i then on_register start l (added l a) i else i)
  unfolding cinc
  cinc_wide a start l [] h low d apart i s = inc_wide g amp law a start l h i s
  cinc_wide a start l (c ∷ cs) h low d apart i s =
      ap (λ j. amp (cinc g a start l (c ∷ cs) s) (if all_set (c ∷ cs) i then j else i))
        (sym (scatter-added a start l i))
      ∙ cinc-scatters a start l c cs h low d apart i s

pub cinc-bound :
    (n a start l : ℕ) (cs : List ℕ)
    → start + l ≤ n
    → (i : ℕ) → i < 2 ^ n
    → (if all_set cs i then on_register start l (added l a) i else i) < 2 ^ n
cinc-bound n a start l cs h i b =
    if_both (λ j. j < 2 ^ n) (all_set cs i) _ _ (on_register-bound n start l a i h b) b

-- The default `CINC` on any simulator of at most 64 qubits whose `X` and `MCInvert` are lawful adds to
-- the register, modulo 2^length, in the basis states in which every control is set, and leaves the
-- others. The register is within the qubits, and the controls are different qubits outside it.
pub cinc-adds :
    {qubit_count : ℕ} {S A : Type 0} (g : Gates S) (amp : S → ℕ → A)
    → IsLawful qubit_count g amp
    → (a start l : ℕ) (cs : List ℕ) → start + l ≤ qubit_count
    → IsIndices qubit_count cs
    → distinct cs ≡ true
    → IsDisjoint cs (qubits start l)
    → (i : ℕ) (s : S) → i < 2 ^ qubit_count
    → IsMoved qubit_count amp
        (cinc g a start l cs)
        (if all_set cs i then on_register start l (added l a) i else i)
        i
        s
cinc-adds {qubit_count = n} g amp law a start l cs h low d apart =
    narrow n amp (cinc g a start l cs)
      (λ i. if all_set cs i then on_register start l (added l a) i else i)
      (cinc_wide g (wide n amp) (wide-IsWide g amp law) a start l cs h low d apart)
      (cinc-bound n a start l cs h)

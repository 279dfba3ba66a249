-- ===== src/Interface/Adding.antt =====
-- `INC`, `CINC` and their inverses as additions to the register's value.
use native.Mathlib.Nat.{mod-eq_of_lt, mod-lt}
use qrack.Bits.Power.{power_pos}
use qrack.Bits.Field.{with_field-bound}
use qrack.Prelude.{
  ℕ, zero, suc, ◌+◌, ◌-◌, ◌/◌, ◌%◌, ◌^◌, ◌<◌, ◌≤◌, ◌≡◌, ◌==◌, refl, sym, ap, ap₂, ◌∙◌, arith, [],
  ◌∷◌, take, if◌then◌else◌, for_upto,
}
use qrack.Bits.Word.{with_field}
use qrack.Engine.Registers.{on_register}
use qrack.Engine.Adding.{added}
use qrack.Interface.Gates.{Gates, mac_invert}
use qrack.Interface.Basis.{IsLawful, IsWide, wide, wide-IsWide}
use qrack.Interface.Lists.{gather, scatter}
use qrack.Interface.Ripple.{rip, ups, IsIndices, amp-ups}
use qrack.Interface.Counting.{
  loop-rip, loop-ups, length-qubits, get_or-qubits, drop-qubits, take-qubits, mem-qubits,
  distinct-qubits, scatter-qubits, gather-qubits,
}
use qrack.Interface.Sums.{qubits, slice, inc}

-- What the addition of the code does to a register, in terms of the list of its qubits.
pub scatter-added :
    (a start l i : ℕ)
    → scatter (qubits start l) (gather (qubits start l) i + a) i ≡ on_register start l (added l a) i
scatter-added a start l i =
    scatter-qubits start l (gather (qubits start l) i + a) i
    ∙ ap (λ v. with_field start l ((v + a) % 2 ^ l) i) (gather-qubits start l i)

pub qubits-IsIndices : (n start l : ℕ) → start + l ≤ n → IsIndices n (qubits start l)
qubits-IsIndices n start l h k m = ground (arith, mem-qubits start l k)

slice-qubits :
    (start l i j : ℕ)
    → i < l
    → i + j + 1 ≤ l
    → slice (qubits start l) i (i + j + 1) ≡ (start + i) ∷ qubits (start + (i + 1)) j
slice-qubits start l i j h b =
    ap₂ take {x = i + j + 1 - i} {y = suc j} (omega arith) (drop-qubits start l i (omega arith))
    ∙ take-qubits (start + i) (l - i) (suc j) (omega arith)
    ∙ ap (λ p. (start + i) ∷ qubits p j) (omega arith)

module _ {S : Type 0} (g : Gates S) where
  -- The inner loop of `INC`.
  inner-rip :
      (start l i : ℕ) (s : S)
      → i < l
      → for_upto
          (l - 1 - i)
          (λ j s. mac_invert g (slice (qubits start l) i (i + j + 1)) (start + (i + j + 1) % l) s)
          s
        ≡ rip g ((start + i) ∷ []) (qubits (start + (i + 1)) (l - 1 - i)) s
  inner-rip start l i s h =
      let n = l - 1 - i in
      let ts = qubits (start + (i + 1)) n in
      let body : ℕ → S → S =
        λ j s. mac_invert g (slice (qubits start l) i (i + j + 1)) (start + (i + j + 1) % l) s in
      ap (λ n. for_upto n body s) (sym (length-qubits (start + (i + 1)) n))
      ∙ loop-rip g ((start + i) ∷ []) ts body s (λ j t b.
        let c : j < n = omega (arith, length-qubits (start + (i + 1)) n) in
        ap₂ (λ cs q. mac_invert g cs q t)
          (slice-qubits start l i j h (omega arith)
            ∙ ap (λ qs. (start + i) ∷ qs) (sym (take-qubits (start + (i + 1)) n j (omega arith))))
          (ap (λ r. start + r) (mod-eq_of_lt (omega arith))
            ∙ omega arith
            ∙ sym (get_or-qubits (start + (i + 1)) n j c)))

  pub inc-ups : (a start l : ℕ) (s : S) → inc g a start l s ≡ ups g g.x [] a (qubits start l) s
  unfolding inc
  inc-ups a start zero s = refl
  inc-ups a start (suc zero) s = refl
  inc-ups a start (suc (suc m)) s =
      let l = suc (suc m) in
      let qs = qubits start l in
      let body : ℕ → S → S = λ i s.
        if a / 2 ^ i % 2 == 0
        then s
        else for_upto (l - 1 - i)
            (λ j s. mac_invert g (slice (qubits start l) i (i + j + 1)) (start + (i + j + 1) % l) s)
            (g.x (start + i) s) in
      ground arith
      ∙ ap (λ n. for_upto n body s) (sym (length-qubits start l))
      ∙ loop-ups g g.x [] a qs body s (λ i t b.
        let c : i < l = omega (arith, length-qubits start l) in
        ap (λ r. if a / 2 ^ i % 2 == 0 then t else r)
          (inner-rip start l i (g.x (start + i) t) c
            ∙ ap₂ (λ q ts. rip g (q ∷ []) ts (g.x q t)) (sym (get_or-qubits start l i c))
                (ap₂ qubits {x = start + (i + 1)} {y = start + suc i} {u = l - 1 - i}
                    {v = l - suc i} (omega arith) (omega arith)
                  ∙ sym (drop-qubits start l (suc i) (omega arith)))))

-- `op` takes the amplitude of every basis state to its image under `f`.
abbrev pub Acts : {S A : Type 0} → (S → ℕ → A) → (S → S) → (ℕ → ℕ) → Type 0
Acts {S = S} amp op f = (i : ℕ) (s : S) → amp (op s) (f i) ≡ amp s i

-- `op` takes the amplitude of basis state `i` to that of `j`, which is a basis state of `n` qubits.
abbrev pub IsMoved : ℕ → {S A : Type 0} → (S → ℕ → A) → (S → S) → ℕ → ℕ → S → Type 0
IsMoved n amp op j i s = (j < 2 ^ n) × (amp (op s) j ≡ amp s i)

pub narrow :
    (n : ℕ) {S A : Type 0} (amp : S → ℕ → A) (op : S → S) (f : ℕ → ℕ)
    → Acts (wide n amp) op f
    → ((i : ℕ) → i < 2 ^ n → f i < 2 ^ n)
    → (i : ℕ) (s : S) → i < 2 ^ n
    → IsMoved n amp op (f i) i s
narrow n amp op f h bound i s b = (
  bound i b,
  ap (amp (op s)) (sym (mod-eq_of_lt (bound i b))) ∙ h i s ∙ ap (amp s) (mod-eq_of_lt b),
)

pub on_register-bound :
    (n start l a i : ℕ) → start + l ≤ n → i < 2 ^ n → on_register start l (added l a) i < 2 ^ n
on_register-bound n start l a i h b = with_field-bound start l i n _ h (mod-lt _ (power_pos l)) b

pub inc_wide :
    {qubit_count : ℕ} {S A : Type 0} (g : Gates S) (amp : S → ℕ → A)
    → IsWide qubit_count g amp
    → (a start l : ℕ) → start + l ≤ qubit_count
    → Acts amp (inc g a start l) (on_register start l (added l a))
inc_wide {qubit_count = n} g amp law a start l h i s =
    let qs = qubits start l in
    ap₂ amp (inc-ups g a start l s) (sym (scatter-added a start l i))
    ∙ amp-ups g amp law g.x [] a qs i s (λ q i s b m. law.amp-x q i s b)
        (λ k m. absurd (ground (arith, m))) (qubits-IsIndices n start l h) (distinct-qubits start l)
        (λ k m. absurd (ground (arith, m)))

-- The default `INC` on any simulator of at most 64 qubits whose `X` and `MCInvert` are lawful: the
-- amplitude of every basis state goes to the one whose register holds the sum modulo 2^length, which is
-- a basis state of the simulator too. The register is within the qubits.
pub inc-adds :
    {qubit_count : ℕ} {S A : Type 0} (g : Gates S) (amp : S → ℕ → A)
    → IsLawful qubit_count g amp
    → (a start l : ℕ) → start + l ≤ qubit_count
    → (i : ℕ) (s : S) → i < 2 ^ qubit_count
    → IsMoved qubit_count amp (inc g a start l) (on_register start l (added l a) i) i s
inc-adds {qubit_count = n} g amp law a start l h =
    narrow n amp (inc g a start l) (on_register start l (added l a))
      (inc_wide g (wide n amp) (wide-IsWide g amp law) a start l h)
      (λ i b. on_register-bound n start l a i h b)

-- ===== src/Interface/Counting.antt =====
-- The loops of `INC`, `INCDECC` and `CINC` as the sequences of Interface/Ripple.antt.
use mathlib.Core.List.{append_assoc, append-nil}
use native.Mathlib.Nat.{mod-lt, div-div-eq-div-mul}
use native.Mathlib.Omega.{pow_step}
use qrack.Prelude.{
  ℕ, zero, suc, ◌+◌, ◌-◌, ◌*◌, ◌/◌, ◌%◌, ◌^◌, ◌<◌, ◌≤◌, ◌≡◌, ◌==◌, refl, sym, ap, ap₂, ◌∙◌,
  bool_val, arith, true, ◌&&◌, List, [], ◌∷◌, ◌++◌, length, take, drop, get_or, ltb, leb,
  if◌then◌else◌, Bool-cases, inl, inr, for_upto,
}
use qrack.Bits.Power.{power_congr, power_pos, mod_low, mod_rest}
use qrack.Bits.Test.{test, test_eq, test-mod, test-div, test_index}
use qrack.Bits.Word.{field, with_field, test-with_field}
use qrack.Interface.Basis.{mem}
use qrack.Interface.Gates.{Gates, mac_invert}
use qrack.Interface.Lists.{gather, scatter, distinct, bit_at, test-scatter}
use qrack.Interface.Ripple.{rip, ups}
use qrack.Interface.Sums.{qubits}

-- The first round apart from the others.
pub for_upto_front :
    {S : Type 0} (n : ℕ) (body : ℕ → S → S) (s : S)
    → for_upto (suc n) body s ≡ for_upto n (λ j. body (suc j)) (body 0 s)
unfolding for_upto
for_upto_front zero body s = refl
for_upto_front (suc n) body s = ap (body (suc n)) (for_upto_front n body s)

pub length-qubits : (start l : ℕ) → length (qubits start l) ≡ l
length-qubits start zero = refl
length-qubits start (suc l) = ap suc (length-qubits (start + 1) l)

pub get_or-qubits : (start l i : ℕ) → i < l → get_or (qubits start l) i 0 ≡ start + i
get_or-qubits start zero i h = absurd (omega arith)
get_or-qubits start (suc l) zero h = omega arith
get_or-qubits start (suc l) (suc i) h = get_or-qubits (start + 1) l i (omega arith) ∙ omega arith

pub drop-qubits : (start l i : ℕ) → i ≤ l → drop i (qubits start l) ≡ qubits (start + i) (l - i)
drop-qubits start l zero h = ap₂ qubits (omega arith) (omega arith)
drop-qubits start zero (suc i) h = absurd (omega arith)
drop-qubits start (suc l) (suc i) h =
    drop-qubits (start + 1) l i (omega arith) ∙ ap₂ qubits (omega arith) (omega arith)

pub take-qubits : (start l i : ℕ) → i ≤ l → take i (qubits start l) ≡ qubits start i
take-qubits start l zero h = refl
take-qubits start zero (suc i) h = absurd (omega arith)
take-qubits start (suc l) (suc i) h =
    ap (λ qs. start ∷ qs) (take-qubits (start + 1) l i (omega arith))

pub mem-qubits : (start l k : ℕ) → mem k (qubits start l) ≡ (leb start k && ltb k (start + l))
mem-qubits start zero k = ground arith
mem-qubits start (suc l) k = ground (arith, mem-qubits (start + 1) l k)

pub distinct-qubits : (start l : ℕ) → distinct (qubits start l) ≡ true
distinct-qubits start zero = refl
distinct-qubits start (suc l) =
    ground (arith, mem-qubits (start + 1) l start, distinct-qubits (start + 1) l)

bit_at-qubits :
    (start l v k : ℕ) → start ≤ k → k < start + l → bit_at (qubits start l) v k ≡ test v (k - start)
bit_at-qubits start zero v k h b = absurd (omega arith)
bit_at-qubits start (suc l) v k h b = elim (Bool-cases (start == k)) [
  | inl e ↦ ground (arith, e, test_index v (k - start) 0)
  | inr e ↦ ground (
    arith,
    e,
    test_index v (k - start) (suc (k - (start + 1))),
    bit_at-qubits (start + 1) l (v / 2) k,
  )
]

pub scatter-qubits :
    (start l v i : ℕ) → scatter (qubits start l) v i ≡ with_field start l (v % 2 ^ l) i
scatter-qubits start l v i = test_eq _ _ (λ k.
    test-scatter (qubits start l) v i k
    ∙ ground (
      arith,
      mem-qubits start l k,
      bit_at-qubits start l v k,
      test-with_field start l (v % 2 ^ l) i k (mod-lt v (power_pos l)),
      test-mod l v (k - start),
    ))

pub gather-qubits : (start l i : ℕ) → gather (qubits start l) i ≡ field start l i
gather-qubits start zero i = omega arith
gather-qubits start (suc l) i =
    let v = i / 2 ^ start in
    let half : i / 2 ^ (start + 1) ≡ v / 2 =
      ap (λ p. i / p) {y = 2 ^ start * 2}
        (omega (arith, pow_step 2 start, power_congr (start + 1) (suc start)))
      ∙ sym (div-div-eq-div-mul i (2 ^ start) 2) in
    let low : bool_val (test i start) ≡ v % 2 =
      ground (arith, test-div start i 0, test_index i (start + 0) start) in
    ap₂ (λ b n. b + 2 * n) low (gather-qubits (start + 1) l i ∙ ap (λ v. v % 2 ^ l) half)
    ∙ omega (arith, mod_low v l, mod_rest v l)

module _ {S : Type 0} (g : Gates S) where
  -- A loop whose round `j` is the gate of `rip` on qubit `j` of the list.
  pub loop-rip :
      (acc ts : List ℕ) (body : ℕ → S → S) (s : S)
      → ((j : ℕ) (t : S)
          → j < length ts
          → body j t ≡ mac_invert g (acc ++ take j ts) (get_or ts j 0) t)
      → for_upto (length ts) body s ≡ rip g acc ts s
  unfolding for_upto
  loop-rip acc [] body s h = refl
  loop-rip acc (t ∷ ts) body s h =
      for_upto_front (length ts) body s
      ∙ ap (for_upto (length ts) (λ j. body (suc j)))
          (h 0 s (omega arith) ∙ ap (λ cs. mac_invert g cs t s) (append-nil acc))
      ∙ loop-rip (acc ++ t ∷ []) ts (λ j. body (suc j)) (mac_invert g acc t s)
          (λ j u b.
            h (suc j) u (omega arith)
            ∙ ap (λ cs. mac_invert g cs (get_or ts j 0) u)
                (sym (append_assoc acc (t ∷ []) (take j ts))))

  -- A loop whose round `i` is the one of `ups` on qubit `i` of the list.
  pub loop-ups :
      (first : ℕ → S → S) (pre : List ℕ) (a : ℕ) (qs : List ℕ) (body : ℕ → S → S) (s : S)
      → ((i : ℕ) (t : S)
          → i < length qs
          → body i t ≡ (
              if a / 2 ^ i % 2 == 0
              then t
              else rip g (pre ++ get_or qs i 0 ∷ []) (drop (suc i) qs) (first (get_or qs i 0) t)))
      → for_upto (length qs) body s ≡ ups g first pre a qs s
  unfolding for_upto
  loop-ups first pre a [] body s h = refl
  loop-ups first pre a (q ∷ qs) body s h =
      for_upto_front (length qs) body s
      ∙ ap (for_upto (length qs) (λ j. body (suc j))) (
          h 0 s (omega arith)
          ∙ ap (λ v. if v % 2 == 0 then s else rip g (pre ++ q ∷ []) qs (first q s)) {y = a}
              (omega arith))
      ∙ loop-ups first pre (a / 2) qs (λ j. body (suc j)) _
          (λ j u b.
            h (suc j) u (omega arith)
            ∙ ap
                (λ v.
                  if v % 2 == 0
                  then u
                  else rip g (pre ++ get_or qs j 0 ∷ []) (drop (suc j) qs)
                      (first (get_or qs j 0) u))
                (ap (λ p. a / p) (pow_step 2 j) ∙ sym (div-div-eq-div-mul a 2 (2 ^ j))))

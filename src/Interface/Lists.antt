-- ===== src/Interface/Lists.antt =====
-- The number that the qubits of a list hold, the first one the lowest.
use qrack.Prelude.{
  ℕ, suc, ◌+◌, ◌*◌, ◌/◌, ◌%◌, ◌^◌, ◌≡◌, ◌==◌, refl, ap, ap₂, ◌∙◌, bool_val, arith, Bool, true,
  false, not, ◌&&◌, ◌||◌, xor, List, [], ◌∷◌, ◌++◌, length, if◌then◌else◌, ==_iff, ==_refl,
  Bool-cases, inl, inr,
}
use qrack.Bits.Power.{mod_low, mod_rest}
use qrack.Bits.Test.{test, test_eq}
use qrack.Interface.Basis.{flip, test-flip, none_set, mem}

-- The basis state with qubit `q` set to `b`.
abbrev pub put : ℕ → Bool → ℕ → ℕ
put q b i = if xor (test i q) b then flip q i else i

pub test-put : (q k i : ℕ) (b : Bool) → test (put q b i) k ≡ (if q == k then b else test i k)
test-put q k i b = ground (arith, test-flip q i k, ap (test i) {x = q} {y = k})

abbrev pub gather : List ℕ → ℕ → ℕ
gather [] i = 0
gather (q ∷ qs) i = bool_val (test i q) + 2 * gather qs i

-- The basis state in which the qubits hold `v`, as far as they can.
abbrev pub scatter : List ℕ → ℕ → ℕ → ℕ
scatter [] v i = i
scatter (q ∷ qs) v i = put q (v % 2 == 1) (scatter qs (v / 2) i)

abbrev pub distinct : List ℕ → Bool
distinct [] = true
distinct (q ∷ qs) = not (mem q qs) && distinct qs

-- The bit of `v` for qubit `k` of the list.
abbrev pub bit_at : List ℕ → ℕ → ℕ → Bool
bit_at [] v k = false
bit_at (q ∷ qs) v k = if q == k then v % 2 == 1 else bit_at qs (v / 2) k

pub test-scatter :
    (qs : List ℕ) (v i k : ℕ)
    → test (scatter qs v i) k ≡ (if mem k qs then bit_at qs v k else test i k)
test-scatter [] v i k = refl
test-scatter (q ∷ qs) v i k =
    test-put q k (scatter qs (v / 2) i) (v % 2 == 1) ∙ ground (arith, test-scatter qs (v / 2) i k)

pub gather_congr :
    (qs : List ℕ) (i j : ℕ)
    → ((k : ℕ) → mem k qs ≡ true → test i k ≡ test j k)
    → gather qs i ≡ gather qs j
gather_congr [] i j h = refl
gather_congr (q ∷ qs) i j h =
    ap₂ (λ b n. bool_val b + 2 * n) (h q (ground (arith, ==_refl q)))
      (gather_congr qs i j (λ k m. h k (ground (arith, m))))

pub none_set_congr :
    (cs : List ℕ) (i j : ℕ)
    → ((k : ℕ) → mem k cs ≡ true → test i k ≡ test j k)
    → none_set cs i ≡ none_set cs j
none_set_congr [] i j h = refl
none_set_congr (c ∷ cs) i j h =
    ap₂ (λ b n. not b && n) (h c (ground (arith, ==_refl c)))
      (none_set_congr cs i j (λ k m. h k (ground (arith, m))))

pub none_set-append :
    (cs : List ℕ) (t i : ℕ) → none_set (cs ++ t ∷ []) i ≡ (none_set cs i && not (test i t))
none_set-append [] t i = ground arith
none_set-append (c ∷ cs) t i = ground (arith, none_set-append cs t i)

pub mem-append : (cs ds : List ℕ) (k : ℕ) → mem k (cs ++ ds) ≡ (mem k cs || mem k ds)
mem-append [] ds k = refl
mem-append (c ∷ cs) ds k = ground (arith, mem-append cs ds k)

bit_at-gather : (qs : List ℕ) (i k : ℕ) → mem k qs ≡ true → bit_at qs (gather qs i) k ≡ test i k
bit_at-gather [] i k m = absurd (ground (arith, m))
bit_at-gather (q ∷ qs) i k m = elim (Bool-cases (q == k)) [
  | inl e ↦ ground (arith, e, ap (test i) ((==_iff q k).0 e))
  | inr e ↦ ground (
    arith,
    e,
    ap (λ v. bit_at qs v k) {x = gather (q ∷ qs) i / 2} {y = gather qs i} (ground arith),
    bit_at-gather qs i k (ground (arith, m, e)),
  )
]

pub scatter-gather : (qs : List ℕ) (i : ℕ) → scatter qs (gather qs i) i ≡ i
scatter-gather qs i =
    test_eq _ _ (λ k. ground (arith, test-scatter qs (gather qs i) i k, bit_at-gather qs i k))

pub gather-scatter :
    (qs : List ℕ) (v i : ℕ) → distinct qs ≡ true → gather qs (scatter qs v i) ≡ v % 2 ^ length qs
gather-scatter [] v i d = omega arith
gather-scatter (q ∷ qs) v i d =
    let rest : gather qs (scatter (q ∷ qs) v i) ≡ gather qs (scatter qs (v / 2) i) =
      gather_congr qs _ _ (λ k m.
        test-put q k (scatter qs (v / 2) i) (v % 2 == 1)
        ∙ ground (arith, m, d, ap (λ j. mem j qs) {x = q} {y = k})) in
    let first : test (scatter (q ∷ qs) v i) q ≡ (v % 2 == 1) =
      test-put q q (scatter qs (v / 2) i) (v % 2 == 1) ∙ ground (arith, ==_refl q) in
    ap₂ (λ b n. bool_val b + 2 * n) first (rest ∙ gather-scatter qs (v / 2) i (ground (arith, d)))
    ∙ ground (arith, mod_low v (length qs), mod_rest v (length qs))

-- A bit of a sum, when a summand is cut to the length of the list.
pub bit_at-mod :
    (qs : List ℕ) (v y k : ℕ) → bit_at qs (v % 2 ^ length qs + y) k ≡ bit_at qs (v + y) k
bit_at-mod [] v y k = refl
bit_at-mod (q ∷ qs) v y k =
    let n = length qs in
    let low : v % 2 ^ suc n % 2 ≡ v % 2 = mod_low v n in
    let half : (v % 2 ^ suc n + y) / 2 ≡ v / 2 % 2 ^ n + (v % 2 + y) / 2 =
      omega (arith, low, mod_rest v n) in
    ap₂ (λ b r. if q == k then b else r) (ground (arith, low))
      (ap (λ z. bit_at qs z k) half
        ∙ bit_at-mod qs (v / 2) ((v % 2 + y) / 2) k
        ∙ ap (λ z. bit_at qs z k) (omega arith))

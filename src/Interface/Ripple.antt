-- ===== src/Interface/Ripple.antt =====
-- The sequences of `MACInvert` that ripple a carry, and what they do to a basis state.
use qrack.Prelude.{
  ℕ, ◌+◌, ◌*◌, ◌/◌, ◌%◌, ◌<◌, ◌≡◌, ◌==◌, refl, sym, ap, ◌∙◌, bool_val, arith, Bool, true, false,
  ◌||◌, xor, List, [], ◌∷◌, ◌++◌, if◌then◌else◌, if_split, ==_iff, ==_refl, Bool-cases, inl, inr,
}
use qrack.Bits.Test.{test, test_eq}
use qrack.Interface.Gates.{Gates, mac_invert}
use qrack.Interface.Basis.{flip, test-flip, none_set, mem, IsWide}
use qrack.Interface.Masks.{amp-mac_invert}
use qrack.Interface.Lists.{
  put, gather, scatter, distinct, bit_at, test-scatter, gather_congr, none_set_congr,
  none_set-append, mem-append, scatter-gather, gather-scatter, bit_at-mod,
}

abbrev pub IsIndices : ℕ → List ℕ → Type 0
IsIndices qubit_count cs = (k : ℕ) → mem k cs ≡ true → k < qubit_count

abbrev pub IsDisjoint : List ℕ → List ℕ → Type 0
IsDisjoint cs ds = (k : ℕ) → mem k cs ≡ true → mem k ds ≡ false

-- The qubits of `ts` in turn are flipped if none of `acc` and of the qubits before is set.
abbrev pub rip : {S : Type 0} → Gates S → List ℕ → List ℕ → S → S
rip g acc [] s = s
rip g acc (t ∷ ts) s = rip g (acc ++ t ∷ []) ts (mac_invert g acc t s)

-- The addition of `a`, whose gate on the qubit of a set bit is `first`.
abbrev pub ups : {S : Type 0} → Gates S → (ℕ → S → S) → List ℕ → ℕ → List ℕ → S → S
ups g first pre a [] s = s
ups g first pre a (q ∷ qs) s =
    ups g first pre (a / 2) qs (if a % 2 == 0 then s else rip g (pre ++ q ∷ []) qs (first q s))

rip_index :
    (acc : List ℕ) (t : ℕ) (ts : List ℕ) (i : ℕ)
    → distinct (t ∷ ts) ≡ true
    → IsDisjoint acc (t ∷ ts)
    → (let c = none_set acc i in
        let j = if c then flip t i else i in
        scatter (t ∷ ts) (gather (t ∷ ts) i + bool_val c) i
        ≡ scatter ts (gather ts j + bool_val (none_set (acc ++ t ∷ []) j)) j)
rip_index acc t ts i d apart =
    let c = none_set acc i in
    let j = if c then flip t i else i in
    let other : (k : ℕ) → (t == k) ≡ false → test j k ≡ test i k =
      λ k e. ground (arith, e, test-flip t i k) in
    let rest : gather ts j ≡ gather ts i =
      gather_congr ts j i
        (λ k m. other k (ground (arith, d, m, ap (λ j. mem j ts) {x = t} {y = k}))) in
    let kept : none_set acc j ≡ c =
      none_set_congr acc j i (λ k m. other k (ground (arith, apart k m))) in
    let here : test j t ≡ xor (test i t) c = ground (arith, test-flip t i t, ==_refl t) in
    let carry : gather (t ∷ ts) i + bool_val c
        ≡ bool_val (test j t) + 2 * (gather ts j + bool_val (none_set (acc ++ t ∷ []) j)) =
      ground (arith, rest, kept, here, none_set-append acc t j) in
    let total = gather ts j + bool_val (none_set (acc ++ t ∷ []) j) in
    ap (λ v. scatter (t ∷ ts) v i) carry
    ∙ test_eq _ _ (λ k.
      test-scatter (t ∷ ts) (bool_val (test j t) + 2 * total) i k
      ∙ ap
          (λ v.
            if t == k || mem k ts
            then (if t == k then (bool_val (test j t) + 2 * total) % 2 == 1 else bit_at ts v k)
            else test i k)
          {x = (bool_val (test j t) + 2 * total) / 2} {y = total} (ground arith)
      ∙ ground (
        arith,
        test-scatter ts total j k,
        other k,
        d,
        ap (λ j. mem j ts) {x = t} {y = k},
        ap (test j) {x = t} {y = k},
      ))

gather_rest :
    (qs : List ℕ) (v w i k : ℕ)
    → distinct qs ≡ true
    → bit_at qs (gather qs (scatter qs v i) + w) k ≡ bit_at qs (v + w) k
gather_rest qs v w i k d =
    ap (λ z. bit_at qs (z + w) k) (gather-scatter qs v i d) ∙ bit_at-mod qs v w k

scatter_again :
    (qs : List ℕ) (v w i : ℕ)
    → distinct qs ≡ true
    → scatter qs (gather qs (scatter qs v i) + w) (scatter qs v i) ≡ scatter qs (v + w) i
scatter_again qs v w i d =
    let j = scatter qs v i in
    test_eq _ _ (λ k.
      test-scatter qs (gather qs j + w) j k
      ∙ ground
          (arith, test-scatter qs (v + w) i k, test-scatter qs v i k, gather_rest qs v w i k d))

scatter_above :
    (q : ℕ) (qs : List ℕ) (w i : ℕ)
    → mem q qs ≡ false
    → scatter (q ∷ qs) (gather (q ∷ qs) i + 2 * w) i ≡ scatter qs (gather qs i + w) i
scatter_above q qs w i m =
    let v = gather (q ∷ qs) i + 2 * w in
    let z = gather qs i + w in
    ap (λ y. put q (v % 2 == 1) (scatter qs y i)) {x = v / 2} {y = z} (ground arith)
    ∙ ap (λ b. put q b (scatter qs z i)) {x = v % 2 == 1} {y = test i q} (ground arith)
    ∙ ground (arith, test-scatter qs z i q, m)

mem_rest : (q : ℕ) (qs : List ℕ) (k : ℕ) → mem k qs ≡ true → mem k (q ∷ qs) ≡ true
mem_rest q qs k m = ground (arith, m)

distinct_rest : (q : ℕ) (qs : List ℕ) → distinct (q ∷ qs) ≡ true → distinct qs ≡ true
distinct_rest q qs d = ground (arith, d)

disjoint_rest : (q : ℕ) (qs : List ℕ) (k : ℕ) → mem k (q ∷ qs) ≡ false → mem k qs ≡ false
disjoint_rest q qs k m = ground (arith, m)

up_index :
    (q : ℕ) (qs : List ℕ) (a i : ℕ) (c : Bool)
    → distinct (q ∷ qs) ≡ true
    → (let j = scatter (q ∷ qs) (gather (q ∷ qs) i + (if a % 2 == 0 then 0 else bool_val c)) i in
        (if c then scatter (q ∷ qs) (gather (q ∷ qs) i + a) i else i)
        ≡ (if c then scatter qs (gather qs j + a / 2) j else j))
up_index q qs a i false d = sym (
    ap (λ v. scatter (q ∷ qs) v i) {x = gather (q ∷ qs) i + (if a % 2 == 0 then 0 else 0)}
      {y = gather (q ∷ qs) i} (ground arith)
    ∙ scatter-gather (q ∷ qs) i)
up_index q qs a i true d =
    let v = gather (q ∷ qs) i + (if a % 2 == 0 then 0 else 1) in
    let j = scatter (q ∷ qs) v i in
    ap (λ v. scatter (q ∷ qs) v i) {y = v + 2 * (a / 2)} (ground arith)
    ∙ sym (scatter_again (q ∷ qs) v (2 * (a / 2)) i d)
    ∙ scatter_above q qs (a / 2) j (ground (arith, d))

module _ {qubit_count : ℕ} {S A : Type 0} (g : Gates S) (amp : S → ℕ → A)
    (law : IsWide qubit_count g amp) where
  -- `rip` adds 1 to the number that the qubits hold if none of `acc` is set.
  pub amp-rip :
      (acc ts : List ℕ) (i : ℕ) (s : S)
      → IsIndices qubit_count acc
      → IsIndices qubit_count ts
      → distinct ts ≡ true
      → IsDisjoint acc ts
      → amp (rip g acc ts s) (scatter ts (gather ts i + bool_val (none_set acc i)) i) ≡ amp s i
  amp-rip acc [] i s low below d apart = refl
  amp-rip acc (t ∷ ts) i s low below d apart =
      let s1 = mac_invert g acc t s in
      let j = if none_set acc i then flip t i else i in
      ap (amp (rip g (acc ++ t ∷ []) ts s1)) (rip_index acc t ts i d apart)
      ∙ amp-rip (acc ++ t ∷ []) ts j s1
          (λ k m. ground (arith, mem-append acc (t ∷ []) k, m, low k, below k))
          (λ k m. below k (ground (arith, m))) (ground (arith, d))
          (λ k m.
            ground
              (arith, mem-append acc (t ∷ []) k, m, apart k, d, ap (λ j. mem j ts) {x = t} {y = k}))
      ∙ amp-mac_invert g amp law acc t i s (
        below t (ground (arith, ==_refl t)),
        λ k m. (low k m, λ e. ground (arith, apart k m, e, ==_iff t k)),
      )

  abbrev pub IsFirst : (ℕ → S → S) → List ℕ → Type 0
  IsFirst first pre =
      (q i : ℕ) (s : S)
      → q < qubit_count
      → mem q pre ≡ false
      → amp (first q s) (if none_set pre i then flip q i else i) ≡ amp s i

  amp-up :
      (first : ℕ → S → S) (pre : List ℕ) (q : ℕ) (qs : List ℕ) (i : ℕ) (s : S)
      → IsFirst first pre
      → IsIndices qubit_count pre
      → IsIndices qubit_count (q ∷ qs)
      → distinct (q ∷ qs) ≡ true
      → IsDisjoint pre (q ∷ qs)
      → amp
          (rip g (pre ++ q ∷ []) qs (first q s))
          (scatter (q ∷ qs) (gather (q ∷ qs) i + bool_val (none_set pre i)) i)
        ≡ amp s i
  amp-up first pre q qs i s is low below d apart =
      let j = if none_set pre i then flip q i else i in
      ap (amp (rip g (pre ++ q ∷ []) qs (first q s))) (rip_index pre q qs i d apart)
      ∙ amp-rip (pre ++ q ∷ []) qs j (first q s)
          (λ k m. ground (arith, mem-append pre (q ∷ []) k, m, low k, below k))
          (λ k m. below k (ground (arith, m))) (ground (arith, d))
          (λ k m.
            ground
              (arith, mem-append pre (q ∷ []) k, m, apart k, d, ap (λ j. mem j qs) {x = q} {y = k}))
      ∙ is q i s (below q (ground (arith, ==_refl q))) (elim (Bool-cases (mem q pre)) [
        | inl e ↦ ground (arith, apart q e, ==_refl q)
        | inr e ↦ e
      ])

  -- `ups` adds `a` to the number that the qubits hold if none of `pre` is set.
  pub amp-ups :
      (first : ℕ → S → S) (pre : List ℕ) (a : ℕ) (qs : List ℕ) (i : ℕ) (s : S)
      → IsFirst first pre
      → IsIndices qubit_count pre
      → IsIndices qubit_count qs
      → distinct qs ≡ true
      → IsDisjoint pre qs
      → amp (ups g first pre a qs s) (if none_set pre i then scatter qs (gather qs i + a) i else i)
        ≡ amp s i
  amp-ups first pre a [] i s is low below d apart = ap (amp s) (ground arith)
  amp-ups first pre a (q ∷ qs) i s is low below d apart =
      let c = none_set pre i in
      let v = gather (q ∷ qs) i + (if a % 2 == 0 then 0 else bool_val c) in
      let j = scatter (q ∷ qs) v i in
      let added = rip g (pre ++ q ∷ []) qs (first q s) in
      let s1 = if a % 2 == 0 then s else added in
      let same : none_set pre j ≡ c =
        none_set_congr pre j i (λ k m. test-scatter (q ∷ qs) v i k ∙ ground (arith, apart k m)) in
      let one : amp s1 j ≡ amp s i =
        if_split
          (λ t.
            amp t (scatter (q ∷ qs) (gather (q ∷ qs) i + (if a % 2 == 0 then 0 else bool_val c)) i)
            ≡ amp s i)
          (a % 2 == 0) s added
          (λ e.
            ap (λ n. amp s (scatter (q ∷ qs) n i)) {y = gather (q ∷ qs) i} (ground (arith, e))
            ∙ ap (amp s) (scatter-gather (q ∷ qs) i))
          (λ e.
            ap (λ n. amp added (scatter (q ∷ qs) n i)) {y = gather (q ∷ qs) i + bool_val c}
              (ground (arith, e))
            ∙ amp-up first pre q qs i s is low below d apart) in
      ap (amp (ups g first pre (a / 2) qs s1)) (
        up_index q qs a i c d
        ∙ ap (λ b. if b then scatter qs (gather qs j + a / 2) j else j) (sym same))
      ∙ amp-ups first pre (a / 2) qs j s1 is low (λ k m. below k (mem_rest q qs k m))
          (distinct_rest q qs d) (λ k m. disjoint_rest q qs k (apart k m))
      ∙ one

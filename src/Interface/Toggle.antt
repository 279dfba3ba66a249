-- ===== src/Interface/Toggle.antt =====
-- Flips of the controls before and after an addition.
use qrack.Prelude.{
  ℕ, ◌+◌, ◌≡◌, refl, sym, ap, ap₂, ◌∙◌, arith, true, false, not, ◌&&◌, List, [], ◌∷◌, if◌then◌else◌,
  ==_refl, Bool-cases, inl, inr,
}
use qrack.Bits.Test.{test, test_eq}
use qrack.Interface.Basis.{flip, test-flip, mem, all_set, none_set}
use qrack.Interface.Lists.{gather, scatter, distinct, gather_congr, test-scatter}
use qrack.Interface.Ripple.{IsDisjoint}

-- The basis state with every qubit of the list flipped.
abbrev pub toggle : List ℕ → ℕ → ℕ
toggle [] i = i
toggle (c ∷ cs) i = toggle cs (flip c i)

pub test-toggle :
    (cs : List ℕ) (i k : ℕ)
    → distinct cs ≡ true
    → test (toggle cs i) k ≡ (if mem k cs then not (test i k) else test i k)
test-toggle [] i k d = refl
test-toggle (c ∷ cs) i k d =
    test-toggle cs (flip c i) k (ground (arith, d))
    ∙ ground (arith, test-flip c i k, d, ap (λ j. mem j cs) {x = c} {y = k})

none_set-toggle :
    (ds cs : List ℕ) (i : ℕ)
    → distinct cs ≡ true
    → ((k : ℕ) → mem k ds ≡ true → mem k cs ≡ true)
    → none_set ds (toggle cs i) ≡ all_set ds i
none_set-toggle [] cs i d h = refl
none_set-toggle (k ∷ ds) cs i d h =
    ap₂ (λ b n. not b && n) {y = not (test i k)}
      (test-toggle cs i k d ∙ ground (arith, h k (ground (arith, ==_refl k))))
      (none_set-toggle ds cs i d (λ k m. h k (ground (arith, m))))
    ∙ ground arith

toggle_twice : (cs : List ℕ) (i : ℕ) → distinct cs ≡ true → i ≡ toggle cs (toggle cs i)
toggle_twice cs i d =
    test_eq _ _ (λ k. ground (arith, test-toggle cs (toggle cs i) k d, test-toggle cs i k d))

scatter_between :
    (cs qs : List ℕ) (v i : ℕ)
    → distinct cs ≡ true
    → IsDisjoint cs qs
    → scatter qs v i ≡ toggle cs (scatter qs v (toggle cs i))
scatter_between cs qs v i d apart =
    let j = toggle cs i in
    test_eq _ _ (λ k. ground (
      arith,
      test-toggle cs (scatter qs v j) k d,
      test-scatter qs v j k,
      test-scatter qs v i k,
      test-toggle cs i k d,
      apart k,
    ))

-- Between two flips of the controls, an addition under controls that are not set.
pub toggled :
    (cs qs : List ℕ) (a i : ℕ)
    → distinct cs ≡ true
    → IsDisjoint cs qs
    → (let j = toggle cs i in
        (if all_set cs i then scatter qs (gather qs i + a) i else i)
        ≡ toggle cs (if none_set cs j then scatter qs (gather qs j + a) j else j))
toggled cs qs a i d apart =
    let j = toggle cs i in
    let away : gather qs i ≡ gather qs j =
      gather_congr qs i j (λ k m. ground (arith, test-toggle cs i k d, m, apart k)) in
    elim (Bool-cases (all_set cs i)) [
      | inl e ↦
          ap (λ b. if b then scatter qs (gather qs i + a) i else i) e
          ∙ scatter_between cs qs (gather qs i + a) i d apart
          ∙ ap (λ v. toggle cs (scatter qs (v + a) j)) away
          ∙ ap (λ b. toggle cs (if b then scatter qs (gather qs j + a) j else j)) {x = true}
              (sym (none_set-toggle cs cs i d (λ k m. m) ∙ e))
      | inr e ↦
          ap (λ b. if b then scatter qs (gather qs i + a) i else i) e
          ∙ toggle_twice cs i d
          ∙ ap (λ b. toggle cs (if b then scatter qs (gather qs j + a) j else j)) {x = false}
              (sym (none_set-toggle cs cs i d (λ k m. m) ∙ e))
    ]

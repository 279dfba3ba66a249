-- ===== src/Interface/Basis.antt =====
-- What the gates do to a basis state, and the law of a simulator whose gates do it.
use Prim.Native.Nat.{bit_xor}
use qrack.Prelude.{
  ℕ, zero, suc, ◌-◌, ◌*◌, ◌/◌, ◌^◌, ◌<◌, ◌≤◌, ◌%◌, sym, ap₂, ==_refl, ◌≡◌, ◌≢◌, ◌==◌, refl, ap, ◌∙◌,
  arith, Bool, true, false, not, ◌&&◌, ◌||◌, List, [], ◌∷◌, if◌then◌else◌,
}
use native.Mathlib.Nat.{mod-lt}
use qrack.Bits.Power.{power_pos}
use qrack.Bits.Test.{test, test_eq, test-bit_xor, test-shift, test-zero, test-mod}
use qrack.Interface.Gates.{Gates}

one_bit : (k : ℕ) → test 1 k ≡ (k == 0)
one_bit zero = refl
one_bit (suc k) = ap (λ a. test a k) {x = 1 / 2} {y = 0} (omega arith) ∙ test-zero k ∙ ground arith

pub test-power : (q k : ℕ) → test (2 ^ q) k ≡ (q == k)
test-power q k =
    ap (λ a. test a k) {x = 2 ^ q} {y = 1 * 2 ^ q} (omega arith)
    ∙ test-shift q 1 k
    ∙ ground (arith, one_bit (k - q))

-- The basis state with qubit `q` flipped.
abbrev pub flip : ℕ → ℕ → ℕ
flip q i = bit_xor i (2 ^ q)

pub test-flip : (q i k : ℕ) → test (flip q i) k ≡ (if q == k then not (test i k) else test i k)
test-flip q i k = test-bit_xor i (2 ^ q) k ∙ ground (arith, test-power q k)

-- Whether every control is set.
abbrev pub all_set : List ℕ → ℕ → Bool
all_set [] i = true
all_set (c ∷ cs) i = test i c && all_set cs i

abbrev pub none_set : List ℕ → ℕ → Bool
none_set [] i = true
none_set (c ∷ cs) i = not (test i c) && none_set cs i

abbrev pub mem : ℕ → List ℕ → Bool
mem k [] = false
mem k (c ∷ cs) = c == k || mem k cs

-- The target and the controls are qubits of the simulator, and the target is none of the controls.
abbrev pub IsApart : ℕ → ℕ → List ℕ → Type 0
IsApart qubit_count t cs =
    (t < qubit_count) × ((k : ℕ) → mem k cs ≡ true → (k < qubit_count) × (k ≢ t))

-- A simulator of `qubit_count` qubits, at most 64, where `amp` is the amplitude of a basis state below
-- 2^qubit_count: `X` of one of its qubits moves it to the state with the qubit flipped, and `MCInvert`
-- does so if the controls are set.
pub record IsLawful (qubit_count : ℕ) {S A : Type 0} (g : Gates S) (amp : S → ℕ → A) : Type 0 where
  pub fits : qubit_count ≤ 64
  pub amp-x :
      (q i : ℕ) (s : S) → q < qubit_count → i < 2 ^ qubit_count → amp (g.x q s) (flip q i) ≡ amp s i
  pub amp-mc_invert :
      (cs : List ℕ) (t i : ℕ) (s : S)
      → IsApart qubit_count t cs
      → i < 2 ^ qubit_count
      → amp (g.mc_invert cs t s) (if all_set cs i then flip t i else i) ≡ amp s i

-- The same for amplitudes of all numbers, of which only the lowest `qubit_count` bits count.
pub record IsWide (qubit_count : ℕ) {S A : Type 0} (g : Gates S) (amp : S → ℕ → A) : Type 0 where
  pub fits : qubit_count ≤ 64
  pub amp-x : (q i : ℕ) (s : S) → q < qubit_count → amp (g.x q s) (flip q i) ≡ amp s i
  pub amp-mc_invert :
      (cs : List ℕ) (t i : ℕ) (s : S)
      → IsApart qubit_count t cs
      → amp (g.mc_invert cs t s) (if all_set cs i then flip t i else i) ≡ amp s i

abbrev pub wide : ℕ → {S A : Type 0} → (S → ℕ → A) → S → ℕ → A
wide qubit_count amp s i = amp s (i % 2 ^ qubit_count)

flip-mod : (n q i : ℕ) → q < n → flip q i % 2 ^ n ≡ flip q (i % 2 ^ n)
flip-mod n q i h = test_eq _ _ (λ k.
    test-mod n (flip q i) k
    ∙ ground (arith, test-flip q i k, test-flip q (i % 2 ^ n) k, test-mod n i k))

all_set-mod :
    (n : ℕ) (cs : List ℕ) (i : ℕ)
    → ((k : ℕ) → mem k cs ≡ true → k < n)
    → all_set cs (i % 2 ^ n) ≡ all_set cs i
all_set-mod n [] i h = refl
all_set-mod n (c ∷ cs) i h =
    ap₂ ◌&&◌ (test-mod n i c ∙ ground (arith, h c (ground (arith, ==_refl c))))
      (all_set-mod n cs i (λ k m. h k (ground (arith, m))))

invert-mod :
    (b : Bool) (n t i : ℕ)
    → t < n
    → (if b then flip t i else i) % 2 ^ n ≡ (if b then flip t (i % 2 ^ n) else i % 2 ^ n)
invert-mod true n t i h = flip-mod n t i h
invert-mod false n t i h = refl

pub wide-IsWide :
    {qubit_count : ℕ} {S A : Type 0} (g : Gates S) (amp : S → ℕ → A)
    → IsLawful qubit_count g amp
    → IsWide qubit_count g (wide qubit_count amp)
wide-IsWide {qubit_count = n} g amp law = record {
  fits = law.fits;
  amp-x = λ q i s h.
      ap (amp (g.x q s)) (flip-mod n q i h) ∙ law.amp-x q (i % 2 ^ n) s h (mod-lt i (power_pos n));
  amp-mc_invert = λ cs t i s h.
      ap (amp (g.mc_invert cs t s)) (
        invert-mod (all_set cs i) n t i h.0
        ∙ ap (λ b. if b then flip t (i % 2 ^ n) else i % 2 ^ n)
            (sym (all_set-mod n cs i (λ k m. (h.1 k m).0))))
      ∙ law.amp-mc_invert cs t (i % 2 ^ n) s h (mod-lt i (power_pos n));
}

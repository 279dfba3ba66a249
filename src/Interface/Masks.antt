-- ===== src/Interface/Masks.antt =====
-- `XMask` flips the bits of its mask, and `MACInvert` is the gate for controls that are not set.
use Prim.Native.Nat.{bit_and, bit_xor}
use native.Mathlib.Omega.{pow_step}
use qrack.Prelude.{
  ℕ, zero, suc, ◌+◌, ◌-◌, ◌/◌, ◌%◌, ◌^◌, ◌<◌, ◌≤◌, ◌≡◌, ◌==◌, refl, sym, ap, ap₂, ◌∙◌, arith, Bool,
  true, false, not, ◌&&◌, ◌||◌, List, [], ◌∷◌, ltb, if◌then◌else◌, if_split, ==_iff, ==_refl,
  Bool-cases, inl, inr,
}
use qrack.Bits.Power.{power_pos}
use qrack.Bits.Test.{
  test, test-bit_xor, test-bit_and, test-bit_or, test_eq, test_beyond, test-zero, test_bound,
}
use qrack.Bits.Word.{pow2, pow2-power, power_mono, power_below}
use qrack.Integers.{log2_ocl}
use qrack.Integers.Laws.{log2_ocl-floor}
use qrack.Interface.Gates.{Gates, mask_of, x_mask_from, x_mask, mac_wrapper, mac_invert}
use qrack.Interface.Basis.{flip, test-flip, test-power, all_set, none_set, mem, IsApart, IsWide}

-- The lowest bit of a number, which `m & (m - 1)` clears.
pub record IsLowest (m p : ℕ) : Type 0 where
  pub set : test m p ≡ true
  pub least : (k : ℕ) → k < p → test m k ≡ false
  pub cut : (k : ℕ) → test (bit_and m (m - 1)) k ≡ (test m k && not (p == k))

odd_cleared :
    (m k : ℕ) → (m % 2 == 1) ≡ true → test (bit_and m (m - 1)) k ≡ (test m k && not (0 == k))
odd_cleared m zero h = test-bit_and m (m - 1) 0 ∙ ground (arith, h)
odd_cleared m (suc k) h =
    test-bit_and m (m - 1) (suc k)
    ∙ ap (λ a. test (m / 2) k && test a k) {x = (m - 1) / 2} {y = m / 2} (ground (arith, h))
    ∙ ground arith

even_least :
    (m p k : ℕ)
    → (m % 2 == 1) ≡ false
    → k < suc p
    → ((k : ℕ) → k < p → test (m / 2) k ≡ false)
    → test m k ≡ false
even_least m p zero h b low = h
even_least m p (suc k) h b low = low k (omega arith)

even_cleared :
    (m p k : ℕ)
    → 0 < m
    → (m % 2 == 1) ≡ false
    → ((k : ℕ) → test (bit_and (m / 2) (m / 2 - 1)) k ≡ (test (m / 2) k && not (p == k)))
    → test (bit_and m (m - 1)) k ≡ (test m k && not (suc p == k))
even_cleared m p zero pos h low = test-bit_and m (m - 1) 0 ∙ ground (arith, h)
even_cleared m p (suc k) pos h low =
    test-bit_and m (m - 1) (suc k)
    ∙ ap (λ a. test (m / 2) k && test a k) {x = (m - 1) / 2} {y = m / 2 - 1} (ground (arith, h))
    ∙ sym (test-bit_and (m / 2) (m / 2 - 1) k)
    ∙ low k
    ∙ ground arith

lowest : (fuel m : ℕ) → m ≤ fuel → 0 < m → (p : ℕ) × IsLowest m p
lowest zero m h pos = absurd (omega arith)
lowest (suc fuel) m h pos = elim (Bool-cases (m % 2 == 1)) [
  | inl odd ↦
      (0, record { set = odd; least = λ k b. absurd (omega arith); cut = λ k. odd_cleared m k odd })
  | inr even ↦
      let n = m / 2 in
      let (p, low) = lowest fuel n (omega arith) (ground (arith, even)) in
      (
        suc p,
        record {
          set = low.set;
          least = λ k b. even_least m p k even b low.least;
          cut = λ k. even_cleared m p k pos even low.cut;
        },
      )
]

power_order : (p q : ℕ) → 2 ^ p ≤ 2 ^ q → p ≤ q
power_order p q h = elim (Bool-cases (ltb q p)) [
  | inl b ↦ absurd (ground (arith, b, power_mono (suc q) p, pow_step 2 q, power_pos q))
  | inr b ↦ ground (arith, b)
]

pub log2_ocl-power : (p : ℕ) → p < 64 → log2_ocl (2 ^ p) ≡ p
log2_ocl-power p h =
    let (low, high) = log2_ocl-floor (2 ^ p) (power_pos p) (power_below p h) in
    elim (Bool-cases (ltb (log2_ocl (2 ^ p)) p)) [
      | inl b ↦ absurd (ground (arith, b, high, power_mono (log2_ocl (2 ^ p) + 1) p))
      | inr b ↦ ground (arith, b, power_order (log2_ocl (2 ^ p)) p low)
    ]

masked_twice : (i mask : ℕ) → i ≡ bit_xor (bit_xor i mask) mask
masked_twice i mask =
    test_eq _ _ (λ k. ground (arith, test-bit_xor (bit_xor i mask) mask k, test-bit_xor i mask k))

flip-masked : (t i mask : ℕ) → flip t i ≡ bit_xor (flip t (bit_xor i mask)) mask
flip-masked t i mask = test_eq _ _ (λ k. ground (
  arith,
  test-bit_xor (flip t (bit_xor i mask)) mask k,
  test-flip t (bit_xor i mask) k,
  test-bit_xor i mask k,
  test-flip t i k,
))

unmasked :
    (b : Bool) (t i mask : ℕ)
    → (if b then flip t i else i)
      ≡ bit_xor (if b then flip t (bit_xor i mask) else bit_xor i mask) mask
unmasked true t i mask = flip-masked t i mask
unmasked false t i mask = masked_twice i mask

module _ {qubit_count : ℕ} {S A : Type 0} (g : Gates S) (amp : S → ℕ → A)
    (law : IsWide qubit_count g amp) where
  -- The loop, when the mask's bits below `q` are 0 and those above are within the fuel.
  amp-x_mask_from :
      (fuel q mask i : ℕ) (s : S)
      → q + fuel ≤ 64
      → mask < 2 ^ (q + fuel)
      → mask < 2 ^ qubit_count
      → ((k : ℕ) → k < q → test mask k ≡ false)
      → amp (x_mask_from g fuel mask s) (bit_xor i mask) ≡ amp s i
  unfolding x_mask_from
  amp-x_mask_from zero q mask i s small bound whole low =
      let none : mask ≡ 0 =
        test_eq mask 0
          (λ k. ground (arith, low k, test_beyond (q + 0) mask k bound, test-zero k)) in
      ap (amp s) (
        test_eq _ _
          (λ k. ground (arith, test-bit_xor i mask k, ap (λ a. test a k) none, test-zero k)))
  amp-x_mask_from (suc fuel) q mask i s small bound whole low =
      let v = bit_and mask (mask - 1) in
      let rest = x_mask_from g fuel v (g.x (log2_ocl (bit_xor mask v)) s) in
      if_split (λ t. amp t (bit_xor i mask) ≡ amp s i) (mask == 0) s rest
        (λ e. ap (amp s) (
          test_eq _ _ (λ k.
            ground (
              arith,
              test-bit_xor i mask k,
              ap (λ a. test a k) ((==_iff mask 0).0 e),
              test-zero k,
            ))))
        (λ e.
          let (p, is) = lowest mask mask (omega arith) (ground (arith, e)) in
          let above : q ≤ p = ground (arith, is.set, low p) in
          let below : p < q + suc fuel =
            ground (arith, is.set, test_beyond (q + suc fuel) mask p bound) in
          let bit : bit_xor mask v ≡ 2 ^ p = test_eq _ _ (λ k.
            test-bit_xor mask v k
            ∙ ground (arith, is.cut k, is.set, test-power p k, ap (test mask) {x = p} {y = k})) in
          let which : log2_ocl (bit_xor mask v) ≡ p =
            ap log2_ocl bit ∙ log2_ocl-power p (omega arith) in
          let split : bit_xor i mask ≡ bit_xor (flip p i) v = test_eq _ _ (λ k. ground (
            arith,
            test-bit_xor i mask k,
            test-bit_xor (flip p i) v k,
            test-flip p i k,
            is.cut k,
            is.set,
            ap (test mask) {x = p} {y = k},
          )) in
          ap (λ r. amp (x_mask_from g fuel v (g.x r s)) (bit_xor i mask)) which
          ∙ ap (amp (x_mask_from g fuel v (g.x p s))) split
          ∙ amp-x_mask_from fuel (q + 1) v (flip p i) (g.x p s) (omega arith)
              (test_bound (q + 1 + fuel) v
                (λ k b. ground (arith, is.cut k, test_beyond (q + suc fuel) mask k bound)))
              (test_bound qubit_count v
                (λ k b. ground (arith, is.cut k, test_beyond qubit_count mask k whole)))
              (λ k b. ground (arith, is.cut k, is.least k, low k))
          ∙ law.amp-x p i s (ground (arith, is.set, test_beyond qubit_count mask p whole)))

  pub amp-x_mask :
      (mask i : ℕ) (s : S)
      → mask < 2 ^ qubit_count
      → amp (x_mask g mask s) (bit_xor i mask) ≡ amp s i
  unfolding x_mask
  amp-x_mask mask i s h =
      amp-x_mask_from 64 0 mask i s (omega arith)
        (omega (arith, h, power_mono qubit_count 64 law.fits)) h (λ k b. absurd (omega arith))

  test-mask_of :
      (cs : List ℕ) (k : ℕ)
      → ((k : ℕ) → mem k cs ≡ true → k < qubit_count)
      → test (mask_of cs) k ≡ mem k cs
  unfolding mask_of
  test-mask_of [] k h = test-zero k
  test-mask_of (c ∷ cs) k h =
      test-bit_or (pow2 c) (mask_of cs) k
      ∙ ap₂ ◌||◌
          (ap (λ a. test a k)
              (pow2-power c (omega (arith, law.fits, h c (ground (arith, ==_refl c)))))
            ∙ test-power c k)
          (test-mask_of cs k (λ j m. h j (ground (arith, m))))

  mask_of-bound :
      (cs : List ℕ) → ((k : ℕ) → mem k cs ≡ true → k < qubit_count) → mask_of cs < 2 ^ qubit_count
  mask_of-bound cs h =
      test_bound qubit_count (mask_of cs) (λ k b. ground (arith, test-mask_of cs k h, h k))

  all_set-mask :
      (cs : List ℕ) (mask i : ℕ)
      → ((k : ℕ) → mem k cs ≡ true → test mask k ≡ true)
      → all_set cs (bit_xor i mask) ≡ none_set cs i
  all_set-mask [] mask i h = refl
  all_set-mask (c ∷ cs) mask i h =
      ap₂ ◌&&◌ (test-bit_xor i mask c ∙ ground (arith, h c (ground (arith, ==_refl c))))
        (all_set-mask cs mask i (λ k m. h k (ground (arith, m))))

  -- `MACInvert` flips its target if no control is set.
  pub amp-mac_invert :
      (cs : List ℕ) (t i : ℕ) (s : S)
      → IsApart qubit_count t cs
      → amp (mac_invert g cs t s) (if none_set cs i then flip t i else i) ≡ amp s i
  unfolding mac_invert mac_wrapper
  amp-mac_invert cs t i s h =
      let mask = mask_of cs in
      let bound : mask < 2 ^ qubit_count = mask_of-bound cs (λ k m. (h.1 k m).0) in
      let s1 = x_mask g mask s in
      let s2 = g.mc_invert cs t s1 in
      let i1 = bit_xor i mask in
      let hit : all_set cs i1 ≡ none_set cs i =
        all_set-mask cs mask i (λ k m. test-mask_of cs k (λ j n. (h.1 j n).0) ∙ m) in
      let back : (if none_set cs i then flip t i else i)
          ≡ bit_xor (if all_set cs i1 then flip t i1 else i1) mask =
        unmasked (none_set cs i) t i mask
        ∙ ap (λ b. bit_xor (if b then flip t i1 else i1) mask) (sym hit) in
      ap (amp (x_mask g mask s2)) back
      ∙ amp-x_mask mask _ s2 bound
      ∙ law.amp-mc_invert cs t i1 s1 h
      ∙ amp-x_mask mask i s bound

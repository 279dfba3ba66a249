-- ===== src/Circuit/Keys.antt =====
-- The bits of the keys that `AddControl`, `RemoveControl` and `PostSelectControl` make.
use Prim.Native.Nat.{bit_and, bit_or}
use qrack.Prelude.{
  ℕ, ◌+◌, ◌-◌, ◌^◌, ◌<◌, ◌≡◌, ◌==◌, sym, ap, ap₂, ◌∙◌, arith, Bool, true, false, not, ◌&&◌, ◌||◌,
  xor, ltb, leb, if◌then◌else◌, ==_iff, ==_refl, Bool-cases, inl, inr,
}
use qrack.Bits.Test.{
  test, test_eq, test-bit_and, test-bit_or, test_index, test_beyond, test_bound, test-div,
}
use qrack.Bits.Word.{shl, shr, complement, pow2, pow2-power, test-pow2_mask, pow2_mask, test-shl}
use qrack.Parallel.Expand.{test-complement}
use qrack.Interface.Basis.{test-power}
use qrack.Circuit.Gate.{widen, narrow}

pub test-pow2 : (p k : ℕ) → p < 64 → test (pow2 p) k ≡ (p == k)
test-pow2 p k h = ap (λ a. test a k) (pow2-power p h) ∙ test-power p k

pub test-widen :
    (p key k : ℕ)
    → p < 63
    → key < 2 ^ 63
    → test (widen p key) k
      ≡ (if ltb k p then test key k else if k == p then false else test key (k - 1))
unfolding widen
test-widen p key k h b =
    let mask = pow2_mask p in
    let high = bit_and key (complement mask) in
    test-bit_or (bit_and key mask) (shl high 1) k
    ∙ ap₂ ◌||◌
        (test-bit_and key mask k ∙ ap (λ t. test key k && t) (test-pow2_mask p k (omega arith)))
        (test-shl 1 high k
          ∙ ap (λ t. ltb k 64 && (leb 1 k && t))
              (test-bit_and key (complement mask) (k - 1)
                ∙ ap (λ t. test key (k - 1) && t)
                    (test-complement mask (k - 1)
                      ∙ ap (xor (ltb (k - 1) 64)) (test-pow2_mask p (k - 1) (omega arith)))))
    ∙ ground (arith, test_beyond 63 key (k - 1) b)

pub test-narrow :
    (p key k : ℕ)
    → p < 63
    → key < 2 ^ 64
    → test (narrow p key) k ≡ (if ltb k p then test key k else test key (k + 1))
unfolding narrow
test-narrow p key k h b =
    let mask = pow2_mask p in
    let out = bit_or mask (pow2 p) in
    let high = bit_and key (complement out) in
    test-bit_or (bit_and key mask) (shr high 1) k
    ∙ ap₂ ◌||◌
        (test-bit_and key mask k ∙ ap (λ t. test key k && t) (test-pow2_mask p k (omega arith)))
        (test-div 1 high k
          ∙ test_index high (1 + k) (k + 1) (omega arith)
          ∙ test-bit_and key (complement out) (k + 1)
          ∙ ap (λ t. test key (k + 1) && t)
              (test-complement out (k + 1)
                ∙ ap (xor (ltb (k + 1) 64)) (
                    test-bit_or mask (pow2 p) (k + 1)
                    ∙ ap₂ ◌||◌ (test-pow2_mask p (k + 1) (omega arith))
                        (test-pow2 p (k + 1) (omega arith)))))
    ∙ ground (arith, test_beyond 64 key (k + 1) b)

pub widen-bound : (p key : ℕ) → p < 63 → key < 2 ^ 63 → widen p key < 2 ^ 64
widen-bound p key h b =
    test_bound 64 _ (λ k m. ground (arith, test-widen p key k h b, test_beyond 63 key (k - 1) b))

-- A key of the gate with the control is made from the key without the control's bit.
pub narrow-widen : (p key : ℕ) → p < 63 → key < 2 ^ 63 → narrow p (widen p key) ≡ key
narrow-widen p key h b = test_eq _ _ (λ k.
    test-narrow p (widen p key) k h (widen-bound p key h b)
    ∙ ground
        (arith, test-widen p key k h b, test-widen p key (k + 1) h b, test_index key (k + 1 - 1) k))

widen-narrow :
    (p key k : ℕ)
    → p < 63
    → key < 2 ^ 64
    → test (widen p (narrow p key)) k ≡ (if k == p then false else test key k)
widen-narrow p key k h b =
    let small : narrow p key < 2 ^ 63 =
      test_bound 63 _
        (λ k m. ground (arith, test-narrow p key k h b, test_beyond 64 key (k + 1) b)) in
    test-widen p (narrow p key) k h small
    ∙ ground (
      arith,
      test-narrow p key k h b,
      test-narrow p key (k - 1) h b,
      test_index key (k - 1 + 1) k,
    )

==_from : (a b : ℕ) (t : Bool) → (a ≡ b → t ≡ true) → (t ≡ true → a ≡ b) → (a == b) ≡ t
==_from a b t f g = elim (Bool-cases (a == b)) [
  | inl e ↦ e ∙ sym (f ((==_iff a b).0 e))
  | inr e ↦ elim (Bool-cases t) [ inl u ↦ absurd (ground (arith, e, g u)) | inr u ↦ e ∙ sym u ]
]

-- The two keys that `AddControl` makes of a key are those that lead back to it without the bit.
pub low_match :
    (p key k : ℕ)
    → p < 63
    → key < 2 ^ 64
    → k < 2 ^ 63
    → (widen p k == key) ≡ (narrow p key == k && not (test key p))
low_match p key k h b c =
    ==_from (widen p k) key (narrow p key == k && not (test key p))
      (λ e. ground (
        arith,
        ap (narrow p) (sym e) ∙ narrow-widen p k h c,
        ap (λ x. test x p) (sym e),
        test-widen p k p h c,
      ))
      (λ t.
        ap (widen p) (sym ((==_iff (narrow p key) k).0 (ground (arith, t))))
        ∙ test_eq _ _
            (λ j. widen-narrow p key j h b ∙ ground (arith, t, ap (test key) {x = p} {y = j})))

pub high_match :
    (p key k : ℕ)
    → p < 63
    → key < 2 ^ 64
    → k < 2 ^ 63
    → (bit_or (widen p k) (pow2 p) == key) ≡ (narrow p key == k && test key p)
high_match p key k h b c =
    let w = bit_or (widen p k) (pow2 p) in
    let bits : (j : ℕ) → test w j ≡ (test (widen p k) j || p == j) = λ j.
      test-bit_or (widen p k) (pow2 p) j
      ∙ ap (λ t. test (widen p k) j || t) (test-pow2 p j (omega arith)) in
    ==_from w key (narrow p key == k && test key p)
      (λ e.
        let same : narrow p key ≡ k = test_eq _ _ (λ j.
          test-narrow p key j h b
          ∙ ground (
            arith,
            ap (λ x. test x j) e,
            ap (λ x. test x (j + 1)) e,
            bits j,
            bits (j + 1),
            test-widen p k j h c,
            test-widen p k (j + 1) h c,
            test_index k (j + 1 - 1) j,
          )) in
        ground (arith, same, ap (λ x. test x p) e, bits p, ==_refl p))
      (λ t. test_eq _ _ (λ j.
        bits j
        ∙ ap (λ x. test (widen p x) j || p == j)
            (sym ((==_iff (narrow p key) k).0 (ground (arith, t))))
        ∙ ap (λ x. x || p == j) (widen-narrow p key j h b)
        ∙ ground (arith, t, ap (test key) {x = p} {y = j})))

-- Two keys that agree in a bit and without it are the same.
pub narrow_same :
    (p k j : ℕ)
    → p < 63
    → k < 2 ^ 63
    → j < 2 ^ 63
    → test k p ≡ test j p
    → (narrow p k == narrow p j) ≡ (k == j)
narrow_same p k j h b c e =
    ==_from (narrow p k) (narrow p j) (k == j)
      (λ q. ground (
        arith,
        ==_refl k,
        test_eq k j (λ i. ground (
          arith,
          widen-narrow p k i h (omega arith),
          widen-narrow p j i h (omega arith),
          ap (λ x. test (widen p x) i) q,
          e,
          ap (test k) {x = i} {y = p},
          ap (test j) {x = i} {y = p},
        )),
      ))
      (λ t. ap (narrow p) ((==_iff k j).0 t))

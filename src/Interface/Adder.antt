-- ===== src/Interface/Adder.antt =====
-- The full adders and the additions of registers: what one adder computes, and what takes an addition back.
use qrack.Prelude.{
  ℕ, ◌^◌, ◌<◌, ◌≡◌, ◌≢◌, ◌==◌, sym, ap, ap₂, ◌∙◌, arith, Bool, false, ◌&&◌, ◌||◌, xor, Bool-cases,
  inl, inr, List, [], ◌∷◌, if◌then◌else◌, if_split, ==_iff, ==_ne, ==_refl,
}
use qrack.Bits.Test.{test, test_eq, test_bound, test_beyond}
use qrack.Interface.Gates.{Gates, cnot, ccnot}
use qrack.Interface.Basis.{flip, test-flip, all_set, IsApart, IsLawful, IsWide, wide, wide-IsWide}
use qrack.Interface.Lists.{put, test-put}
use qrack.Interface.Adders.{full_add}
use qrack.Interface.Adding.{Acts, IsMoved, narrow}

-- Four different qubits of the simulator.
pub record IsFour (qubit_count a b c d : ℕ) : Type 0 where
  pub below_a : a < qubit_count
  pub below_b : b < qubit_count
  pub below_c : c < qubit_count
  pub below_d : d < qubit_count
  pub ab : a ≢ b
  pub ac : a ≢ c
  pub ad : a ≢ d
  pub bc : b ≢ c
  pub bd : b ≢ d
  pub cd : c ≢ d

pub apart1 :
    (qubit_count c t : ℕ)
    → c < qubit_count
    → t < qubit_count
    → c ≢ t
    → IsApart qubit_count t (c ∷ [])
apart1 qubit_count c t h b n = (
  b,
  λ k m.
      let e : c ≡ k = (==_iff c k).0 (ground (arith, m)) in (omega (arith, h, e), λ q. n (e ∙ q)),
)

pub apart2 :
    (qubit_count c d t : ℕ)
    → c < qubit_count
    → d < qubit_count
    → t < qubit_count
    → c ≢ t
    → d ≢ t
    → IsApart qubit_count t (c ∷ d ∷ [])
apart2 qubit_count c d t h h' b n n' = (
  b,
  λ k m. elim (Bool-cases (c == k)) [
    | inl e ↦ (apart1 qubit_count c t h b n).1 k (ground (arith, e))
    | inr e ↦ (apart1 qubit_count d t h' b n').1 k (ground (arith, m, e))
  ],
)

-- The carry and the sum of three bits.
abbrev pub majority : Bool → Bool → Bool → Bool
majority a b c = (a && b) || (c && xor a b)

abbrev pub sum_bit : Bool → Bool → Bool → Bool
sum_bit a b c = xor (xor a b) c

-- The basis state after a full adder.
abbrev pub bits_added : ℕ → ℕ → ℕ → ℕ → ℕ → ℕ
bits_added a b c d i =
    let x = test i a in
    let y = test i b in
    let z = test i c in put d (xor (test i d) (majority x y z)) (put c (sum_bit x y z) i)

abbrev pub invert_if : List ℕ → ℕ → ℕ → ℕ
invert_if cs t i = if all_set cs i then flip t i else i

stays : (cs : List ℕ) (t k i : ℕ) → t ≢ k → test (invert_if cs t i) k ≡ test i k
stays cs t k i n = ground (arith, test-flip t i k, ==_ne t k n)

turns : (cs : List ℕ) (t i : ℕ) → test (invert_if cs t i) t ≡ xor (test i t) (all_set cs i)
turns cs t i = ground (arith, test-flip t i t, ==_refl t)

-- The bits of the four qubits after two gates of the adder.
half_added :
    (qubit_count a b c d i : ℕ)
    → IsFour qubit_count a b c d
    → (let j = invert_if (a ∷ []) b (invert_if (a ∷ b ∷ []) d i) in
        (test j a ≡ test i a)
        × (test j b ≡ xor (test i b) (test i a))
        × (test j c ≡ test i c)
        × (test j d ≡ xor (test i d) (test i a && test i b)))
half_added qubit_count a b c d i n =
    let j = invert_if (a ∷ b ∷ []) d i in
    let da = stays (a ∷ b ∷ []) d a i (λ e. n.ad (sym e)) in
    let db = stays (a ∷ b ∷ []) d b i (λ e. n.bd (sym e)) in
    let dc = stays (a ∷ b ∷ []) d c i (λ e. n.cd (sym e)) in
    (
      stays (a ∷ []) b a j (λ e. n.ab (sym e)) ∙ da,
      turns (a ∷ []) b j ∙ ground (arith, da, db),
      stays (a ∷ []) b c j n.bc ∙ dc,
      stays (a ∷ []) b d j n.bd ∙ turns (a ∷ b ∷ []) d i ∙ ground arith,
    )

-- The same for the other three gates.
rest_added :
    (qubit_count a b c d j : ℕ)
    → IsFour qubit_count a b c d
    → (let r = invert_if (a ∷ []) b (invert_if (b ∷ []) c (invert_if (b ∷ c ∷ []) d j)) in
        (test r b ≡ xor (test j b) (test j a))
        × (test r c ≡ xor (test j c) (test j b))
        × (test r d ≡ xor (test j d) (test j b && test j c)))
rest_added qubit_count a b c d j n =
    let j3 = invert_if (b ∷ c ∷ []) d j in
    let j4 = invert_if (b ∷ []) c j3 in
    let da = stays (b ∷ c ∷ []) d a j (λ e. n.ad (sym e)) in
    let db = stays (b ∷ c ∷ []) d b j (λ e. n.bd (sym e)) in
    let dc = stays (b ∷ c ∷ []) d c j (λ e. n.cd (sym e)) in
    let ca = stays (b ∷ []) c a j3 (λ e. n.ac (sym e)) in
    let cb = stays (b ∷ []) c b j3 (λ e. n.bc (sym e)) in
    (
      turns (a ∷ []) b j4 ∙ ground (arith, da, db, ca, cb),
      stays (a ∷ []) b c j4 n.bc ∙ turns (b ∷ []) c j3 ∙ ground (arith, db, dc),
      stays (a ∷ []) b d j4 n.bd
          ∙ stays (b ∷ []) c d j3 n.cd
          ∙ turns (b ∷ c ∷ []) d j
          ∙ ground arith,
    )

test-bits_added :
    (a b c d i k : ℕ)
    → test (bits_added a b c d i) k ≡ (
        if d == k
        then xor (test i d) (majority (test i a) (test i b) (test i c))
        else if c == k
        then sum_bit (test i a) (test i b) (test i c)
        else test i k)
test-bits_added a b c d i k =
    let z = sum_bit (test i a) (test i b) (test i c) in
    test-put d k (put c z i) (xor (test i d) (majority (test i a) (test i b) (test i c)))
    ∙ ap (λ t. if d == k then xor (test i d) (majority (test i a) (test i b) (test i c)) else t)
        (test-put c k i z)

carry_table : (x y z w : Bool) → xor w (majority x y z) ≡ xor (xor w (x && y)) (xor y x && z)
carry_table x y z w = ground arith

sum_table : (x y z : Bool) → sum_bit x y z ≡ xor z (xor y x)
sum_table x y z = ground arith

kept_table : (x y : Bool) → y ≡ xor (xor y x) x
kept_table x y = ground arith

differs : (t k : ℕ) → (t == k) ≡ false → t ≢ k
differs t k e q = ground (arith, e, q)

sum_of_gates :
    (qubit_count a b c d i : ℕ)
    → IsFour qubit_count a b c d
    → bits_added a b c d i
      ≡ invert_if (a ∷ []) b (
          invert_if
            (b ∷ [])
            c
            (invert_if (b ∷ c ∷ []) d (invert_if (a ∷ []) b (invert_if (a ∷ b ∷ []) d i))))
sum_of_gates qubit_count a b c d i n =
    let j = invert_if (a ∷ []) b (invert_if (a ∷ b ∷ []) d i) in
    let j3 = invert_if (b ∷ c ∷ []) d j in
    let j4 = invert_if (b ∷ []) c j3 in
    let r = invert_if (a ∷ []) b j4 in
    let (xa, xb, xc, xd) = half_added qubit_count a b c d i n in
    let (yb, yc, yd) = rest_added qubit_count a b c d j n in
    let x = test i a in
    let y = test i b in
    let z = test i c in
    let carry : xor (test i d) (majority x y z) ≡ test r d =
      carry_table x y z (test i d) ∙ ap₂ xor (sym xd) (ap₂ ◌&&◌ (sym xb) (sym xc)) ∙ sym yd in
    let total : sum_bit x y z ≡ test r c = sum_table x y z ∙ ap₂ xor (sym xc) (sym xb) ∙ sym yc in
    let kept : y ≡ test r b = kept_table x y ∙ ap₂ xor (sym xb) (sym xa) ∙ sym yb in
    test_eq _ _ (λ k.
      test-bits_added a b c d i k
      ∙ if_split (λ t. t ≡ test r k) (d == k) _ _ (λ e. carry ∙ ap (test r) ((==_iff d k).0 e))
          (λ e.
            if_split (λ t. t ≡ test r k) (c == k) _ _ (λ f. total ∙ ap (test r) ((==_iff c k).0 f))
              (λ f. elim (Bool-cases (b == k)) [
                | inl h ↦
                    let same = (==_iff b k).0 h in ap (test i) (sym same) ∙ kept ∙ ap (test r) same
                | inr h ↦ sym (
                    stays (a ∷ []) b k j4 (differs b k h)
                    ∙ stays (b ∷ []) c k j3 (differs c k f)
                    ∙ stays (b ∷ c ∷ []) d k j (differs d k e)
                    ∙ stays (a ∷ []) b k (invert_if (a ∷ b ∷ []) d i) (differs b k h)
                    ∙ stays (a ∷ b ∷ []) d k i (differs d k e))
              ])))

module _ {qubit_count : ℕ} {S A : Type 0} (g : Gates S) (amp : S → ℕ → A)
    (law : IsWide qubit_count g amp) where
  full_add_wide :
      (a b c d : ℕ)
      → IsFour qubit_count a b c d
      → Acts amp (full_add g a b c d) (bits_added a b c d)
  unfolding full_add cnot ccnot
  full_add_wide a b c d n i s =
      let i1 = invert_if (a ∷ b ∷ []) d i in
      let i2 = invert_if (a ∷ []) b i1 in
      let i3 = invert_if (b ∷ c ∷ []) d i2 in
      let i4 = invert_if (b ∷ []) c i3 in
      let i5 = invert_if (a ∷ []) b i4 in
      let s1 = g.mc_invert (a ∷ b ∷ []) d s in
      let s2 = g.mc_invert (a ∷ []) b s1 in
      let s3 = g.mc_invert (b ∷ c ∷ []) d s2 in
      let s4 = g.mc_invert (b ∷ []) c s3 in
      let s5 = g.mc_invert (a ∷ []) b s4 in
      let target : bits_added a b c d i ≡ i5 = sum_of_gates qubit_count a b c d i n in
      ap (amp s5) target
      ∙ law.amp-mc_invert (a ∷ []) b i4 s4 (apart1 qubit_count a b n.below_a n.below_b n.ab)
      ∙ law.amp-mc_invert (b ∷ []) c i3 s3 (apart1 qubit_count b c n.below_b n.below_c n.bc)
      ∙ law.amp-mc_invert (b ∷ c ∷ []) d i2 s2
          (apart2 qubit_count b c d n.below_b n.below_c n.below_d n.bd n.cd)
      ∙ law.amp-mc_invert (a ∷ []) b i1 s1 (apart1 qubit_count a b n.below_a n.below_b n.ab)
      ∙ law.amp-mc_invert (a ∷ b ∷ []) d i s
          (apart2 qubit_count a b d n.below_a n.below_b n.below_d n.ad n.bd)

bits_added-bound : (n a b c d i : ℕ) → IsFour n a b c d → i < 2 ^ n → bits_added a b c d i < 2 ^ n
bits_added-bound n a b c d i f h = test_bound n (bits_added a b c d i) (λ k m.
    test-bits_added a b c d i k
    ∙ ground (
      arith,
      ==_ne d k (λ e. absurd (omega (arith, f.below_d, e))),
      ==_ne c k (λ e. absurd (omega (arith, f.below_c, e))),
      test_beyond n i k h,
    ))

-- The default `FullAdd`, on any simulator of at most 64 qubits whose `X` and `MCInvert` are lawful, for
-- four different qubits: the amplitude of every basis state goes to the one whose `carryInSumOut` is the
-- sum of the three bits and whose `carryOut` is flipped if at least two of the three are set.
pub full_add-adds :
    {qubit_count : ℕ} {S A : Type 0} (g : Gates S) (amp : S → ℕ → A)
    → IsLawful qubit_count g amp
    → (a b c d : ℕ) → IsFour qubit_count a b c d
    → (i : ℕ) (s : S) → i < 2 ^ qubit_count
    → IsMoved qubit_count amp (full_add g a b c d) (bits_added a b c d i) i s
full_add-adds {qubit_count = n} g amp law a b c d f =
    narrow n amp (full_add g a b c d) (bits_added a b c d)
      (full_add_wide g (wide n amp) (wide-IsWide g amp law) a b c d f)
      (λ i h. bits_added-bound n a b c d i f h)

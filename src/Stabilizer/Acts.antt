-- ===== src/Stabilizer/Acts.antt =====
-- A row after a gate that acts on one qubit, or on two different ones, and what follows for
-- commutation and products from the gate's table.
use qrack.Prelude.{
  ℕ, ◌+◌, ◌*◌, ◌%◌, ◌<◌, ◌≡◌, ◌≢◌, sym, ap, ◌∙◌, arith, Bool, false, length, ◌==◌, ==_iff,
  if◌then◌else◌, bit, bool_val, Bool-cases, inl, inr, sum_one, sum_two, xor_sum_two, xor_sum_one,
  get_or_ext,
}
use qrack.Stabilizer.Row.{Row, clifford, mult_row}
use qrack.Stabilizer.Pauli.{phase_at, clash_at, anticommute, IsRow}
use qrack.Stabilizer.Product.{
  phase_sum, clifford-phase_sum, bit_x-mult_row, bit_z-mult_row, mult_row-IsRow,
}
use qrack.Stabilizer.Local.{Bits, bits_at, xor_bits, clash_bits, phase_bits, Local, IsClifford}

-- The qubits of a gate.
pub data Place : Type 0 where
  one : ℕ → Place
  two : ℕ → ℕ → Place

abbrev pub view : Place → Row → Bits
view (one t) a = record { xc = false; zc = false; xt = bit a.x t; zt = bit a.z t }
view (two c t) a = bits_at c t a

abbrev pub Outside : Place → ℕ → Type 0
Outside (one t) j = j ≢ t
Outside (two c t) j = (j ≢ c) × (j ≢ t)

abbrev pub IsPlace : ℕ → Place → Type 0
IsPlace n (one t) = t < n
IsPlace n (two c t) = (c ≢ t) × (c < n) × (t < n)

-- Row `b` is row `a` after the gate with table `g` at `pl`.
pub record Acts (pl : Place) (g : Local) (a b : Row) : Type 0 where
  pub length_x : length b.x ≡ length a.x
  pub length_z : length b.z ≡ length a.z
  pub bits : view pl b ≡ g.bits (view pl a)
  pub other_x : (j : ℕ) → Outside pl j → bit b.x j ≡ bit a.x j
  pub other_z : (j : ℕ) → Outside pl j → bit b.z j ≡ bit a.z j
  pub phase : b.r ≡ (if g.flips (view pl a) then (a.r + 2) % 4 else a.r)

pub Acts-IsRow :
    {n : ℕ} {pl : Place} {g : Local} {a b : Row} → Acts pl g a b → IsRow n a → IsRow n b
Acts-IsRow s h = record {
  length_x = s.length_x ∙ h.length_x;
  length_z = s.length_z ∙ h.length_z;
  phase = ground (arith, s.phase, h.phase);
}

clash_at_cong :
    (a b a' b' : Row) (j : ℕ)
    → bit a'.x j ≡ bit a.x j
    → bit a'.z j ≡ bit a.z j
    → bit b'.x j ≡ bit b.x j
    → bit b'.z j ≡ bit b.z j
    → clash_at a' b' j ≡ clash_at a b j
clash_at_cong a b a' b' j p q r s = rw (p, q, r, s)

abbrev phase_at_row : Row → Row → ℕ → ℕ
phase_at_row a b j = phase_at (bit a.x j) (bit a.z j) (bit b.x j) (bit b.z j)

phase_at_cong :
    (a b a' b' : Row) (j : ℕ)
    → bit a'.x j ≡ bit a.x j
    → bit a'.z j ≡ bit a.z j
    → bit b'.x j ≡ bit b.x j
    → bit b'.z j ≡ bit b.z j
    → phase_at_row a' b' j ≡ phase_at_row a b j
phase_at_cong a b a' b' j p q r s = rw (p, q, r, s)

-- Rows agree with their images outside the gate's qubits, so the sums change there only.
module _ (n : ℕ) {g : Local} {a b a' b' : Row} where
  clash_sum :
      (pl : Place)
      → IsPlace n pl
      → Acts pl g a a'
      → Acts pl g b b'
      → clash_bits (view pl a') (view pl b') ≡ clash_bits (view pl a) (view pl b)
      → anticommute n a' b' ≡ anticommute n a b
  unfolding anticommute
  clash_sum (one t) h sa sb e =
      xor_sum_one n t h (clash_at a' b') (clash_at a b)
        (λ j o.
          clash_at_cong a b a' b' j (sa.other_x j o) (sa.other_z j o) (sb.other_x j o)
            (sb.other_z j o))
        (ground (arith, e))
  clash_sum (two c t) h sa sb e =
      xor_sum_two n c t h.0 h.1 h.2 (clash_at a' b') (clash_at a b)
        (λ j p q.
          clash_at_cong a b a' b' j (sa.other_x j (p, q)) (sa.other_z j (p, q))
            (sb.other_x j (p, q)) (sb.other_z j (p, q)))
        e

  phase_sum_parts :
      (pl : Place)
      → IsPlace n pl
      → Acts pl g a a'
      → Acts pl g b b'
      → (k : ℕ) × (phase_sum n a' b' ≡ k + phase_bits (view pl a') (view pl b'))
        × (phase_sum n a b ≡ k + phase_bits (view pl a) (view pl b))
  phase_sum_parts (one t) h sa sb =
      let (k, p, q) = sum_one n t h (phase_at_row a' b') (phase_at_row a b) (λ j o.
        phase_at_cong a b a' b' j (sa.other_x j o) (sa.other_z j o) (sb.other_x j o)
          (sb.other_z j o)) in
      (k, omega (arith, p), omega (arith, q))
  phase_sum_parts (two c t) h sa sb =
      let (k, p, q) = sum_two n c t h.0 h.1 h.2 (phase_at_row a' b') (phase_at_row a b) (λ j p q.
        phase_at_cong a b a' b' j (sa.other_x j (p, q)) (sa.other_z j (p, q)) (sb.other_x j (p, q))
          (sb.other_z j (p, q))) in
      (k, omega (arith, p), omega (arith, q))

view-mult_row :
    (n : ℕ) (pl : Place) {a b : Row}
    → IsRow n a
    → IsRow n b
    → view pl (mult_row n a b) ≡ xor_bits (view pl a) (view pl b)
view-mult_row n (one t) ha hb = rw (bit_x-mult_row n ha hb t, bit_z-mult_row n ha hb t)
view-mult_row n (two c t) ha hb = rw (
  bit_x-mult_row n ha hb t,
  bit_z-mult_row n ha hb t,
  bit_x-mult_row n ha hb c,
  bit_z-mult_row n ha hb c,
)

-- Bits that agree at the qubits of a place and outside of it agree everywhere.
abbrev AtPlace : Place → (ℕ → Bool) → (ℕ → Bool) → Type 0
AtPlace (one t) f g = f t ≡ g t
AtPlace (two c t) f g = (f c ≡ g c) × (f t ≡ g t)

place_ext :
    (pl : Place) (f g : ℕ → Bool)
    → AtPlace pl f g
    → ((j : ℕ) → Outside pl j → f j ≡ g j)
    → (j : ℕ) → f j ≡ g j
place_ext (one t) f g v o j = elim (Bool-cases (j == t)) [
  | inl e ↦ let q : j ≡ t = (==_iff j t).0 e in rw q v
  | inr e ↦ o j (ground arith)
]
place_ext (two c t) f g v o j = elim (Bool-cases (j == t)) [
  | inl e ↦ let q : j ≡ t = (==_iff j t).0 e in rw q v.1
  | inr e ↦ elim (Bool-cases (j == c)) [
    | inl d ↦ let q : j ≡ c = (==_iff j c).0 d in rw q v.0
    | inr d ↦ o j (ground arith, ground arith)
  ]
]

view_x : (pl : Place) (a b : Row) → view pl a ≡ view pl b → AtPlace pl (bit a.x) (bit b.x)
view_x (one t) a b v = ap (λ p. p.xt) v
view_x (two c t) a b v = (ap (λ p. p.xc) v, ap (λ p. p.xt) v)

view_z : (pl : Place) (a b : Row) → view pl a ≡ view pl b → AtPlace pl (bit a.z) (bit b.z)
view_z (one t) a b v = ap (λ p. p.zt) v
view_z (two c t) a b v = (ap (λ p. p.zc) v, ap (λ p. p.zt) v)

-- Two rows with the same bits and phase are equal.
pub row_ext :
    {n : ℕ} {a b : Row}
    → IsRow n a
    → IsRow n b
    → ((j : ℕ) → bit a.x j ≡ bit b.x j)
    → ((j : ℕ) → bit a.z j ≡ bit b.z j)
    → a.r ≡ b.r
    → a ≡ b
row_ext {n} {a} {b} ha hb x z r i = record {
  x = get_or_ext false a.x b.x (ha.length_x ∙ sym hb.length_x) x i;
  z = get_or_ext false a.z b.z (ha.length_z ∙ sym hb.length_z) z i;
  r = r i;
}

-- Two images of one row under one table are equal.
pub Acts-unique :
    {n : ℕ} (pl : Place) {g : Local} {a b c : Row}
    → IsRow n a
    → Acts pl g a b
    → Acts pl g a c
    → b ≡ c
Acts-unique pl {b = b} {c = c} ha sb sc =
    row_ext (Acts-IsRow sb ha) (Acts-IsRow sc ha)
      (place_ext pl (bit b.x) (bit c.x) (view_x pl b c (sb.bits ∙ sym sc.bits))
        (λ j o. sb.other_x j o ∙ sym (sc.other_x j o)))
      (place_ext pl (bit b.z) (bit c.z) (view_z pl b c (sb.bits ∙ sym sc.bits))
        (λ j o. sb.other_z j o ∙ sym (sc.other_z j o)))
      (sb.phase ∙ sym sc.phase)

sign_mod :
    (f : Bool) (r s : ℕ) → s ≡ (if f then (r + 2) % 4 else r) → s % 4 ≡ (r + 2 * bool_val f) % 4
sign_mod f r s h = ground arith

module _ (n : ℕ) (pl : Place) {g : Local} (place : IsPlace n pl) (cl : IsClifford g)
    {a b a' b' : Row} (sa : Acts pl g a a') (sb : Acts pl g b b') where
  -- A Clifford gate keeps whether two rows commute.
  pub anticommute-Acts : anticommute n a' b' ≡ anticommute n a b
  anticommute-Acts =
      clash_sum n pl place sa sb (rw (sa.bits, sb.bits) (cl.clash_kept (view pl a) (view pl b)))

  module _ (ha : IsRow n a) (hb : IsRow n b) {m : Row} (sm : Acts pl g (mult_row n a b) m) where
    phase_view :
        (phase_bits (view pl a') (view pl b')
            + 2 * bool_val (g.flips (view pl a))
            + 2 * bool_val (g.flips (view pl b)))
          % 4
        ≡ (phase_bits (view pl a) (view pl b) + 2 * bool_val (g.flips (view pl (mult_row n a b))))
          % 4
    phase_view =
        rw (sa.bits, sb.bits, view-mult_row n pl ha hb) (cl.phase_kept (view pl a) (view pl b))

    r-mult_row : m.r ≡ (mult_row n a' b').r
    unfolding mult_row
    r-mult_row =
        let (k, p, q) = phase_sum_parts n pl place sa sb in
        let fits : IsRow n m = Acts-IsRow sm (mult_row-IsRow n b ha) in
        omega (
          arith,
          p,
          q,
          fits.phase,
          phase_view,
          sign_mod _ a.r a'.r sa.phase,
          sign_mod _ b.r b'.r sb.phase,
          sign_mod _ (clifford n a b) m.r sm.phase,
          clifford-phase_sum n a b,
          clifford-phase_sum n a' b',
        )

    view_image : view pl m ≡ view pl (mult_row n a' b')
    view_image =
        sm.bits
        ∙ rw
            (
              view-mult_row n pl ha hb,
              cl.product_kept (view pl a) (view pl b),
              ← sa.bits,
              ← sb.bits,
            )
            (sym (view-mult_row n pl (Acts-IsRow sa ha) (Acts-IsRow sb hb)))

    -- And it maps a product of rows to the product of their images, phase included.
    pub mult_row-Acts : m ≡ mult_row n a' b'
    mult_row-Acts =
        let ha' : IsRow n a' = Acts-IsRow sa ha in
        let hb' : IsRow n b' = Acts-IsRow sb hb in
        row_ext (Acts-IsRow sm (mult_row-IsRow n b ha)) (mult_row-IsRow n b' ha')
          (place_ext pl (bit m.x) (bit (mult_row n a' b').x)
            (view_x pl m (mult_row n a' b') view_image)
            λ j o. rw (
              sm.other_x j o,
              bit_x-mult_row n ha hb j,
              bit_x-mult_row n ha' hb' j,
              sa.other_x j o,
              sb.other_x j o,
            ))
          (place_ext pl (bit m.z) (bit (mult_row n a' b').z)
            (view_z pl m (mult_row n a' b') view_image)
            λ j o. rw (
              sm.other_z j o,
              bit_z-mult_row n ha hb j,
              bit_z-mult_row n ha' hb' j,
              sa.other_z j o,
              sb.other_z j o,
            ))
          r-mult_row

-- ===== src/BigInteger/Log.antt =====
-- `bi_log2` is the position of the highest bit.
use Prim.Native.Nat.{bit_or}
use mathlib.Core.Path.{subst}
use native.Mathlib.Omega.{pow_step}
use qrack.Prelude.{
  ℕ, zero, suc, ◌+◌, ◌*◌, ◌/◌, ◌%◌, ◌^◌, ◌<◌, ◌≤◌, ◌≡◌, ◌⊎◌, ◌==◌, Bool-cases, inl, inr, refl, sym,
  ap, ◌∙◌, arith, length,
}
use qrack.BigInteger.Words.{BigInteger}
use qrack.BigInteger.Value.{value, IsWords, done, step, value-bound}
use qrack.BigInteger.Digits.{bit_or-add_right}
use qrack.BigInteger.Compare.{bi_compare_0-value}
use qrack.BigInteger.ShiftValue.{value-rshift_bits}
use qrack.BigInteger.WordShift.{modulus-power, words-power}
use qrack.BigInteger.Shift.{
  rshift_bits, rshift, bi_rshift_ip, bi_rshift_word, bi_rshift_word_ip, count_shifts, bi_log2,
}

halved-IsWords : {a : BigInteger} → IsWords a → IsWords (rshift_bits 1 a).1
unfolding rshift_bits
halved-IsWords done = done
halved-IsWords (step a left h w) =
    let rest = value-rshift_bits 1 (omega arith) (omega arith) w in
    let word = bit_or-add_right 63 (a / 2) (value left % 2) (omega arith) in
    step _ _ (omega (arith, ap (λ c. bit_or c (a / 2)) rest.1, word)) (halved-IsWords w)

-- A number has as many bits as `count_shifts` counts.
record HasBits (d v : ℕ) : Type 0 where
  pub below : v < 2 ^ d
  pub above : (2 ^ d ≤ 2 * v) ⊎ (d ≡ 0)

HasBits-step : (d v : ℕ) → 0 < v → HasBits d (v / 2) → HasBits (suc d) v
HasBits-step d v h b = record {
  below = omega (arith, b.below, pow_step 2 d);
  above = inl (elim b.above [
    | inl l ↦ omega (arith, l, pow_step 2 d)
    | inr e ↦ omega (arith, ap (λ k. 2 ^ suc k) e)
  ]);
}

log_bounds : (d v : ℕ) → 0 < v → HasBits d (v / 2) → (2 ^ d ≤ v) × (v < 2 ^ suc d)
log_bounds d v h b = (
  elim b.above [ inl l ↦ omega (arith, l) | inr e ↦ omega (arith, ap (λ k. 2 ^ k) e) ],
  omega (arith, b.below, pow_step 2 d),
)

shifts_stop : (fuel : ℕ) (p : BigInteger) (pw : ℕ) → value p ≡ 0 → count_shifts (suc fuel) p pw ≡ pw
unfolding count_shifts
shifts_stop fuel p pw h = ground (arith, bi_compare_0-value p)

shifts_go :
    (fuel : ℕ) (p : BigInteger) (pw : ℕ)
    → 0 < value p
    → count_shifts (suc fuel) p pw ≡ count_shifts fuel (bi_rshift_ip p 1) (pw + 1)
unfolding count_shifts
shifts_go fuel p pw h = ground (arith, bi_compare_0-value p)

shift_one : (p : BigInteger) → bi_rshift_ip p 1 ≡ (rshift_bits 1 p).1
unfolding bi_rshift_ip bi_rshift_word_ip
shift_one p = refl

count_shifts-bits :
    (fuel : ℕ) (p : BigInteger)
    → IsWords p
    → (pw : ℕ) → value p < 2 ^ fuel
    → (d : ℕ) × (count_shifts fuel p pw ≡ pw + d) × HasBits d (value p)
unfolding count_shifts
count_shifts-bits zero p w pw h = (0, omega arith, record { below = h; above = inr refl })
count_shifts-bits (suc fuel) p w pw h = elim (Bool-cases (value p == 0)) [
  | inl e ↦ (
    0,
    shifts_stop fuel p pw (ground (arith, e)) ∙ omega arith,
    record { below = ground (arith, e); above = inr refl },
  )
  | inr e ↦
      let half = (rshift_bits 1 p).1 in
      let halved = (value-rshift_bits 1 (omega arith) (omega arith) w).0 in
      let rest =
        count_shifts-bits fuel half (halved-IsWords w) (pw + 1)
          (omega (arith, halved, h, pow_step 2 fuel)) in
      (
        suc rest.0,
        shifts_go fuel p pw (ground (arith, e))
            ∙ ap (λ q. count_shifts fuel q (pw + 1)) (shift_one p)
            ∙ rest.1
            ∙ omega arith,
        HasBits-step rest.0 (value p) (ground (arith, e)) (subst (HasBits rest.0) halved rest.2),
      )
]

-- `bi_log2` of a number above 0 is the position of its highest bit, for words below 2^64.
pub bi_log2-value :
    {n : BigInteger}
    → IsWords n
    → 0 < value n
    → (2 ^ bi_log2 n ≤ value n) × (value n < 2 ^ suc (bi_log2 n))
unfolding bi_log2 rshift bi_rshift_word
bi_log2-value {n = n} w h =
    let half = (rshift_bits 1 n).1 in
    let halved = (value-rshift_bits 1 (omega arith) (omega arith) w).0 in
    let bits =
      count_shifts-bits (64 * length n) half (halved-IsWords w) 0
        (omega (arith, halved, value-bound w, modulus-power n, words-power (length n))) in
    subst (λ d. (2 ^ d ≤ value n) × (value n < 2 ^ suc d)) (sym (bits.1 ∙ omega arith))
      (log_bounds bits.0 (value n) h (subst (HasBits bits.0) halved bits.2))

-- ===== src/Bits/Word.antt =====
-- 64-bit words (`bitCapIntOcl`) and the fields of a basis state's index.
use Prim.Native.Nat.{bit_xor}
use native.Mathlib.Nat.{mod-eq_of_lt, mod-lt, mul-le-mul_left}
use native.Mathlib.Omega.{pow_step}
use qrack.Prelude.{
  ℕ, suc, ◌+◌, ◌*◌, ◌-◌, ◌/◌, ◌%◌, ◌^◌, ◌<◌, ◌≤◌, ◌≡◌, ap, ◌∙◌, arith, ◌&&◌, if◌then◌else◌, ltb,
  leb,
}
use qrack.BigInteger.Words.{word_power}
use qrack.Bits.Power.{power_pos, power_add, power_congr}
use qrack.Bits.Test.{test, test_index, test-div, test-shift, test-mod, test-join, test_ones}

-- `a << s` and `a >> s`.
abbrev pub shl : ℕ → ℕ → ℕ
shl a s = a * 2 ^ s % word_power

abbrev pub shr : ℕ → ℕ → ℕ
shr a s = a / 2 ^ s

-- `~a`.
abbrev pub complement : ℕ → ℕ
complement a = bit_xor (word_power - 1) a

-- `pow2Ocl(p)` and `pow2MaskOcl(p)`.
unfoldable pub pow2 : ℕ → ℕ
pow2 p = shl 1 p

unfoldable pub pow2_mask : ℕ → ℕ
pow2_mask p = (shl 1 p + word_power - 1) % word_power

-- `bitRegMaskOcl(start, length)`.
unfoldable pub bit_reg_mask : ℕ → ℕ → ℕ
bit_reg_mask start length = shl (pow2_mask length) start

pub power_mono : (m n : ℕ) → m ≤ n → 2 ^ m ≤ 2 ^ n
power_mono m n h =
    let split : 2 ^ m * 2 ^ (n - m) ≡ 2 ^ n =
      power_add m (n - m) ∙ power_congr (m + (n - m)) n (omega arith) in
    grind (arith, split, power_pos (n - m), mul-le-mul_left {m = 1} {n = 2 ^ (n - m)} (2 ^ m))

pub power_below : (p : ℕ) → p < 64 → 2 ^ p < word_power
power_below p h = omega (arith, power_mono (suc p) 64 h, pow_step 2 p, power_pos p)

pub pow2-power : (p : ℕ) → p < 64 → pow2 p ≡ 2 ^ p
unfolding pow2
pow2-power p h = ap (λ a. a % word_power) (omega arith) ∙ mod-eq_of_lt (power_below p h)

pub pow2_mask-ones : (p : ℕ) → p < 64 → pow2_mask p ≡ 2 ^ p - 1
unfolding pow2_mask
pow2_mask-ones p h = omega (arith, power_below p h, power_pos p)

pub test-shl : (s a i : ℕ) → test (shl a s) i ≡ (ltb i 64 && (leb s i && test a (i - s)))
test-shl s a i = test-mod 64 (a * 2 ^ s) i ∙ ap (λ b. ltb i 64 && b) (test-shift s a i)

pub test-pow2_mask : (p i : ℕ) → p < 64 → test (pow2_mask p) i ≡ ltb i p
test-pow2_mask p i h = ap (λ a. test a i) (pow2_mask-ones p h) ∙ test_ones p i

-- The `l` bits of `i` from bit `s` on, as a number.
abbrev pub field : ℕ → ℕ → ℕ → ℕ
field s l i = i / 2 ^ s % 2 ^ l

-- `i` with these bits replaced by those of `x`, which has `l` bits.
abbrev pub with_field : ℕ → ℕ → ℕ → ℕ → ℕ
with_field s l x i = i % 2 ^ s + (x + i / 2 ^ (s + l) * 2 ^ l) * 2 ^ s

pub test-field : (s l i k : ℕ) → test (field s l i) k ≡ (ltb k l && test i (s + k))
test-field s l i k = test-mod l (i / 2 ^ s) k ∙ ap (λ b. ltb k l && b) (test-div s i k)

pub test-with_field :
    (s l x i k : ℕ)
    → x < 2 ^ l
    → test (with_field s l x i) k ≡ (if leb s k && ltb k (s + l) then test x (k - s) else test i k)
test-with_field s l x i k h =
    let low = mod-lt i (power_pos s) in
    test-join s (i % 2 ^ s) (x + i / 2 ^ (s + l) * 2 ^ l) k low
    ∙ ground (
      arith,
      test-mod s i k,
      test-join l x (i / 2 ^ (s + l)) (k - s) h,
      test-div (s + l) i (k - s - l),
      test_index i (s + l + (k - s - l)) k,
    )

-- ===== src/Bits/Test.antt =====
-- The bits of a number, and what each operation does to them.
use Prim.Native.Nat.{bit_and, bit_or, bit_xor, differ}
use native.Mathlib.Omega.{pow_step}
use native.Mathlib.Nat.{div-div-eq-div-mul, div-one, mod-lt}
use qrack.Prelude.{
  ℕ, zero, suc, ◌+◌, ◌*◌, ◌-◌, ◌/◌, ◌%◌, ◌^◌, ◌<◌, ◌≤◌, ◌≡◌, ◌==◌, refl, sym, ap, ◌∙◌, arith, Bool,
  false, ◌&&◌, ◌||◌, xor, ltb, leb, if◌then◌else◌, ◌⊎◌,
}
use qrack.Bits.Step.{bit_and_step, bit_or_step, bit_xor_step}
use qrack.Bits.Power.{power_pos, shift_low, shift_rest, mod_low, mod_rest}

-- Bit `i` of `a`.
abbrev pub test : ℕ → ℕ → Bool
test a zero = a % 2 == 1
test a (suc i) = test (a / 2) i

pub test-bit_and : (a b i : ℕ) → test (bit_and a b) i ≡ (test a i && test b i)
test-bit_and a b zero = ground (arith, bit_and_step a b)
test-bit_and a b (suc i) =
    ap (λ c. test c i) (omega (arith, bit_and_step a b)) ∙ test-bit_and (a / 2) (b / 2) i

pub test-bit_or : (a b i : ℕ) → test (bit_or a b) i ≡ (test a i || test b i)
test-bit_or a b zero = ground (arith, bit_or_step a b)
test-bit_or a b (suc i) =
    ap (λ c. test c i) (omega (arith, bit_or_step a b)) ∙ test-bit_or (a / 2) (b / 2) i

digit_cases : (a : ℕ) → (a % 2 ≡ 0) ⊎ (a % 2 ≡ 1)
digit_cases a = ground arith

differ_digit : (a b : ℕ) → a < 2 → b < 2 → (differ a b == 1) ≡ xor (a == 1) (b == 1)
differ_digit zero zero h k = refl
differ_digit zero (suc zero) h k = refl
differ_digit (suc zero) zero h k = refl
differ_digit (suc zero) (suc zero) h k = refl
differ_digit (suc (suc a)) b h k = absurd (omega arith)
differ_digit zero (suc (suc b)) h k = absurd (omega arith)
differ_digit (suc zero) (suc (suc b)) h k = absurd (omega arith)

differ_bound : (a b : ℕ) → a < 2 → b < 2 → differ a b < 2
differ_bound zero b h k = k
differ_bound (suc zero) zero h k = omega arith
differ_bound (suc zero) (suc b) h k = omega arith
differ_bound (suc (suc a)) b h k = absurd (omega arith)

pub test-bit_xor : (a b i : ℕ) → test (bit_xor a b) i ≡ xor (test a i) (test b i)
test-bit_xor a b zero =
    ap (λ c. c == 1)
      (omega (arith, bit_xor_step a b, differ_bound (a % 2) (b % 2) (omega arith) (omega arith)))
    ∙ differ_digit (a % 2) (b % 2) (omega arith) (omega arith)
test-bit_xor a b (suc i) =
    ap (λ c. test c i)
      (omega (arith, bit_xor_step a b, differ_bound (a % 2) (b % 2) (omega arith) (omega arith)))
    ∙ test-bit_xor (a / 2) (b / 2) i

pub test_index : (a i j : ℕ) → i ≡ j → test a i ≡ test a j
test_index a i j e = ap (test a) e

pub test-div : (s a i : ℕ) → test (a / 2 ^ s) i ≡ test a (s + i)
test-div zero a i = ap (λ c. test c i) (div-one a) ∙ test_index a i (zero + i) (omega arith)
test-div (suc s) a i =
    ap (λ c. test c i) (ap (λ p. a / p) (pow_step 2 s) ∙ sym (div-div-eq-div-mul a 2 (2 ^ s)))
    ∙ test-div s (a / 2) i
    ∙ test_index a (suc (s + i)) (suc s + i) (omega arith)

pub test-shift : (s a i : ℕ) → test (a * 2 ^ s) i ≡ (leb s i && test a (i - s))
test-shift zero a i = ground arith
test-shift (suc s) a zero = ground (arith, shift_low a s)
test-shift (suc s) a (suc i) = ap (λ c. test c i) (shift_rest a s) ∙ test-shift s a i ∙ ground arith

pub test-zero : (i : ℕ) → test 0 i ≡ false
test-zero zero = refl
test-zero (suc i) = ap (λ c. test c i) (omega arith) ∙ test-zero i

pub test-mod : (n a i : ℕ) → test (a % 2 ^ n) i ≡ (ltb i n && test a i)
test-mod zero a i = ap (λ c. test c i) (omega arith) ∙ test-zero i ∙ ground arith
test-mod (suc n) a zero = ground (arith, mod_low a n)
test-mod (suc n) a (suc i) = ap (λ c. test c i) (mod_rest a n) ∙ test-mod n (a / 2) i ∙ ground arith

pub test_ext : (n a b : ℕ) → a ≤ n → b ≤ n → ((i : ℕ) → test a i ≡ test b i) → a ≡ b
test_ext zero a b h k e = omega arith
test_ext (suc n) a b h k e =
    ground (arith, e 0, test_ext n (a / 2) (b / 2) (omega arith) (omega arith) (λ i. e (suc i)))

pub test_eq : (a b : ℕ) → ((i : ℕ) → test a i ≡ test b i) → a ≡ b
test_eq a b = test_ext (a + b) a b (omega arith) (omega arith)

pub test_beyond : (n a i : ℕ) → a < 2 ^ n → n ≤ i → test a i ≡ false
test_beyond zero a i h k = ap (λ c. test c i) (omega arith) ∙ test-zero i
test_beyond (suc n) a zero h k = absurd (omega arith)
test_beyond (suc n) a (suc i) h k =
    test_beyond n (a / 2) i (omega (arith, pow_step 2 n)) (omega arith)

-- The low bits of a sum are those of one number, the others those of the other.
pub test-join :
    (s a b i : ℕ)
    → a < 2 ^ s
    → test (a + b * 2 ^ s) i ≡ (if ltb i s then test a i else test b (i - s))
test-join zero a b i h = ap (λ c. test c i) {y = b} (omega arith) ∙ ground arith
test-join (suc s) a b zero h = ground (arith, shift_low b s)
test-join (suc s) a b (suc i) h =
    ap (λ c. test c i) {x = (a + b * 2 ^ suc s) / 2} {y = a / 2 + b * 2 ^ s}
      (omega (arith, shift_low b s, shift_rest b s))
    ∙ test-join s (a / 2) b i (omega (arith, pow_step 2 s))
    ∙ ground arith

pub test_ones : (n i : ℕ) → test (2 ^ n - 1) i ≡ ltb i n
test_ones zero i = test-zero i ∙ ground arith
test_ones (suc n) zero = ground (arith, pow_step 2 n, power_pos n)
test_ones (suc n) (suc i) =
    ap (λ c. test c i) {x = (2 ^ suc n - 1) / 2} {y = 2 ^ n - 1}
      (omega (arith, pow_step 2 n, power_pos n))
    ∙ test_ones n i
    ∙ ground arith

-- A number is below a power if it has no bit from there on.
pub test_bound : (n a : ℕ) → ((i : ℕ) → n ≤ i → test a i ≡ false) → a < 2 ^ n
test_bound n a h = omega (
  arith,
  test_eq a (a % 2 ^ n) (λ i. ground (arith, test-mod n a i, h i)),
  mod-lt a (power_pos n),
)

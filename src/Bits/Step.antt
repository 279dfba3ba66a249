-- ===== src/Bits/Step.antt =====
-- `&`, `|` and `^` of two numbers by those of their halves and of their lowest bits.
use Prim.Native.Nat.{
  ℕ, zero, suc, ◌+◌, ◌*◌, ◌-◌, ◌/◌, ◌%◌, ◌≤◌, min, max, differ, digits, bitwise, bit_and, bit_or,
  bit_xor, bit_and-bitwise, bit_or-bitwise, bit_xor-bitwise,
}
use mathlib.Core.Path.{◌≡◌, refl, sym, ap, ◌∙◌}
use native.Mathlib.Omega.{arith}

-- An operation that works bit by bit: on the lowest bits by `bit_op`, and on what is left of the second
-- number by `tail` when the first has no bits left.
module _ (op : ℕ → ℕ → ℕ) (tail : ℕ → ℕ) (bit_op : ℕ → ℕ → ℕ)
    (law : (a b : ℕ) → op a b ≡ bitwise tail bit_op a b) where
  -- A round beyond the first number's bits changes nothing.
  one_round_more :
      (rounds a b : ℕ)
      → a ≤ rounds
      → digits tail bit_op (suc rounds) a b ≡ digits tail bit_op rounds a b
  one_round_more zero zero b h = refl
  one_round_more zero (suc a) b h = absurd (omega arith)
  one_round_more (suc rounds) zero b h = refl
  one_round_more (suc rounds) (suc a) b h =
      ap (λ d. d * 2 + bit_op (suc a % 2) (b % 2))
        (one_round_more rounds (suc a / 2) (b / 2) (omega arith))

  more_rounds :
      (extra rounds all a b : ℕ)
      → all ≡ rounds + extra
      → a ≤ rounds
      → digits tail bit_op all a b ≡ digits tail bit_op rounds a b
  more_rounds zero rounds all a b e h = ap (λ n. digits tail bit_op n a b) (omega arith)
  more_rounds (suc extra) rounds zero a b e h = absurd (omega arith)
  more_rounds (suc extra) rounds (suc all) a b e h =
      one_round_more all a b (omega arith) ∙ more_rounds extra rounds all a b (omega arith) h

  bitwise_step :
      ((b : ℕ) → tail b ≡ tail (b / 2) * 2 + bit_op 0 (b % 2))
      → (a b : ℕ) → op a b ≡ op (a / 2) (b / 2) * 2 + bit_op (a % 2) (b % 2)
  bitwise_step halves zero b =
      law zero b ∙ halves b ∙ ap (λ d. d * 2 + bit_op 0 (b % 2)) (sym (law zero (b / 2)))
  bitwise_step halves (suc a) b =
      let half = suc a / 2 in
      law (suc a) b
      ∙ ap (λ d. d * 2 + bit_op (suc a % 2) (b % 2))
          (more_rounds (a - half) half a half (b / 2) (omega arith) (omega arith)
            ∙ sym (law half (b / 2)))

pub zero-bit_or : (b : ℕ) → bit_or 0 b ≡ b
zero-bit_or b = bit_or-bitwise 0 b

pub bit_and_step : (a b : ℕ) → bit_and a b ≡ bit_and (a / 2) (b / 2) * 2 + min (a % 2) (b % 2)
bit_and_step = bitwise_step bit_and (λ b. 0) min bit_and-bitwise (λ b. omega arith)

pub bit_or_step : (a b : ℕ) → bit_or a b ≡ bit_or (a / 2) (b / 2) * 2 + max (a % 2) (b % 2)
bit_or_step = bitwise_step bit_or (λ b. b) max bit_or-bitwise (λ b. omega arith)

halved : (b : ℕ) → b ≡ b / 2 * 2 + b % 2
halved b = omega arith

differ_low : (b : ℕ) → b ≡ b / 2 * 2 + differ 0 (b % 2)
differ_low b = halved b

pub bit_xor_step : (a b : ℕ) → bit_xor a b ≡ bit_xor (a / 2) (b / 2) * 2 + differ (a % 2) (b % 2)
bit_xor_step = bitwise_step bit_xor (λ b. b) differ bit_xor-bitwise differ_low

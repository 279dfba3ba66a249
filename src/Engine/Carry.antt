-- ===== src/Engine/Carry.antt =====
-- `INCDECC` as an addition with a carry out.
use Prim.Native.Nat.{bit_and, bit_or, bit_xor}
use native.Mathlib.Nat.{
  mod-lt, mod-eq_of_lt, div-eq_of_lt, div-eq-sub-div, div-add-mod, mod-eq-sub-mod, mod-one,
  zero-mul,
}
use qrack.Prelude.{
  ℕ, ◌+◌, ◌*◌, ◌-◌, ◌/◌, ◌%◌, ◌^◌, ◌<◌, ◌≤◌, ◌≡◌, ◌==◌, sym, ap, ap₂, ◌∙◌, arith, ◌||◌, ◌⊎◌, List,
  ltb, leb, if◌then◌else◌, if_split,
}
use qrack.BigInteger.Words.{word_power}
use qrack.Bits.Power.{power_pos, power_congr}
use qrack.Bits.Test.{test_eq, test-bit_or, test-zero}
use qrack.Bits.Word.{shl, shr, pow2, pow2_mask, field, with_field, pow2-power}
use qrack.Bits.Field.{field_bound}
use qrack.Ranges.{is_bad_bit_range}
use qrack.Engine.State.{Runtime, IsRuntime}
use qrack.Engine.Index.{and_mask, reg_value}
use qrack.Engine.Moves.{dense}
use qrack.Engine.Registers.{in_range}
use qrack.Engine.Adding.{added, double_below}
use qrack.Engine.Two.{put_two}
use qrack.Engine.Pair.{on_pair, on_pair-IsPairing, Pairs, loop-Pairs, passed}
use qrack.Engine.Targets.{carry_index}
use qrack.Engine.Arithmetic.{incdecc}

-- The carry out of the register.
abbrev pub carried : ℕ → ℕ → ℕ → ℕ
carried l a x = (x + a) / 2 ^ l

or_zero : (x r c : ℕ) → bit_or x r ≡ bit_or (bit_or x (shl 0 c)) r
or_zero x r c =
    let none : shl 0 c ≡ 0 = ap (λ a. a % word_power) (zero-mul (2 ^ c)) in
    test_eq _ _ (λ i.
      ground
        (arith, test-bit_or x r i, test-bit_or (bit_or x 0) r i, test-bit_or x 0 i, test-zero i))
    ∙ ap (λ z. bit_or (bit_or x z) r) (sym none)

or_swap : (x y r : ℕ) → bit_or (bit_or x r) y ≡ bit_or (bit_or x y) r
or_swap x y r = test_eq _ _ (λ i. ground (
  arith,
  test-bit_or (bit_or x r) y i,
  test-bit_or x r i,
  test-bit_or (bit_or x y) r i,
  test-bit_or x y i,
))

mod_once : (x m : ℕ) → m ≤ x → x < m + m → x % m ≡ x - m
mod_once x m h b = mod-eq-sub-mod h ∙ mod-eq_of_lt (omega arith)

div_once : (x m : ℕ) → 0 < m → m ≤ x → x < m + m → x / m ≡ 1
div_once x m p h b =
    div-eq-sub-div p h ∙ ap (λ q. q + 1) (div-eq_of_lt {n = x - m} {m = m} (omega arith))

carried_bound : (l a x : ℕ) → x < 2 ^ l → a < 2 ^ l → carried l a x < 2
carried_bound l a x b h =
    if_split (λ (t : ℕ). carried l a x < 2) (ltb (x + a) (2 ^ l)) 0 0
      (λ e. omega (arith, div-eq_of_lt {n = x + a} {m = 2 ^ l} (ground (arith, e))))
      (λ e. omega (arith, div_once (x + a) (2 ^ l) (power_pos l) (ground (arith, e)) (omega arith)))

sum_unique : (l a x y : ℕ) → added l a x ≡ added l a y → carried l a x ≡ carried l a y → x ≡ y
sum_unique l a x y e q =
    omega
      (arith, div-add-mod (x + a) (2 ^ l), div-add-mod (y + a) (2 ^ l), e, ap (λ d. 2 ^ l * d) q)

carry_index-on_pair :
    (n a s l c i : ℕ)
    → n < 64
    → s + l ≤ n
    → c < n
    → (s + l ≤ c) ⊎ (c + 1 ≤ s)
    → a < 2 ^ l
    → i < 2 ^ n
    → carry_index n a s l c i ≡ on_pair s l c 1 (added l a) (carried l a) i
unfolding carry_index pow2 pow2_mask
carry_index-on_pair n a s l c i small fits below apart bound b =
    let f = field s l i in
    let fb = field_bound s l i in
    let lp : pow2 l ≡ 2 ^ l = pow2-power l (omega arith) in
    let rest = bit_and i (bit_xor (pow2_mask n) (bit_or (shl (pow2_mask l) s) (pow2 c))) in
    let value : (shr (bit_and i (shl (pow2_mask l) s)) s + a) % word_power ≡ f + a =
      ap (λ x. (x + a) % word_power) (reg_value s l i (omega arith))
      ∙ mod-eq_of_lt (omega (arith, double_below l)) in
    let put : (x y : ℕ)
        → x < 2 ^ l
        → y < 2
        → bit_or (bit_or (shl x s) (shl y c)) rest ≡ with_field s l x (with_field c 1 y i) =
      λ x y bx by. put_two n s l c 1 x y i small fits (omega arith) apart bx by b in
    ap
      (λ out.
        if ltb out (pow2 l)
        then bit_or (shl out s) rest
        else bit_or (bit_or (shl (out - pow2 l) s) rest) (pow2 c))
      value
    ∙ if_split (λ z. z ≡ on_pair s l c 1 (added l a) (carried l a) i) (ltb (f + a) (pow2 l)) _ _
        (λ e.
          let small_sum : f + a < 2 ^ l = ground (arith, e, lp) in
          or_zero (shl (f + a) s) rest c
          ∙ put (f + a) 0 small_sum (omega arith)
          ∙ ap₂ (λ x y. with_field s l x (with_field c 1 y i)) (sym (mod-eq_of_lt small_sum))
              (sym (div-eq_of_lt small_sum)))
        (λ e.
          let large : 2 ^ l ≤ f + a = ground (arith, e, lp) in
          or_swap (shl (f + a - pow2 l) s) (pow2 c) rest
          ∙ put (f + a - pow2 l) 1 (omega (arith, lp)) (omega arith)
          ∙ ap₂ (λ x y. with_field s l x (with_field c 1 y i))
              (omega (arith, lp, mod_once (f + a) (2 ^ l) large (omega arith)))
              (sym (div_once (f + a) (2 ^ l) (power_pos l) large (omega arith))))

-- `INCDECC` of a register and a carry outside it, for a number that is not 0 modulo 2^length: the
-- amplitude of every index whose carry is 0 goes to the index whose register holds the sum modulo
-- 2^length and whose carry is the carry out; every other index gets the amplitude 0. This holds in
-- whatever order the loop runs. There are fewer than 64 qubits.
pub incdecc-Pairs :
    {A : Type 0} {rt : Runtime A}
    → IsRuntime rt
    → (n to_mod s l c : ℕ) (v : List A) → n < 64
    → s + l ≤ n
    → c < n
    → (s + l ≤ c) ⊎ (c + 1 ≤ s)
    → 0 < to_mod % 2 ^ l
    → Pairs rt n c 1
        (on_pair s l c 1 (added l (to_mod % 2 ^ l)) (carried l (to_mod % 2 ^ l)))
        v
        (incdecc rt to_mod s l c (dense n v))
unfolding incdecc
incdecc-Pairs {rt = rt} r n to_mod s l c v small fits below apart some =
    let a = to_mod % 2 ^ l in
    let masked : bit_and to_mod (pow2_mask l) ≡ a = and_mask to_mod l (omega arith) in
    let bound : a < 2 ^ l = mod-lt to_mod (power_pos l) in
    let g = on_pair s l c 1 (added l a) (carried l a) in
    passed (Pairs rt n c 1 g v) (is_bad_bit_range s l n || leb n c) (l == 0)
      (bit_and to_mod (pow2_mask l) == 0) _ _ (ground (arith, in_range s l n small fits))
      (ground (arith, some, power_congr l 0, mod-one to_mod)) (ground (arith, masked))
      (loop-Pairs r n c 1 small g (carry_index n (bit_and to_mod (pow2_mask l)) s l c) v
        (omega arith) (omega arith)
        (λ i b z.
          ap (λ a. carry_index n a s l c i) masked
          ∙ carry_index-on_pair n a s l c i small fits below apart bound b)
        (on_pair-IsPairing n s l c 1 (added l a) (carried l a) fits (omega arith) apart
          (λ x b. mod-lt (x + a) (power_pos l)) (λ x b. carried_bound l a x b bound)
          (λ x y b d e q. sum_unique l a x y e q)))

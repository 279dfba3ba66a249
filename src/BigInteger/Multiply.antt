-- ===== src/BigInteger/Multiply.antt =====
-- Products and quotients of a `BigInteger` (src/common/big_integer.cpp).
use Prim.Native.Nat.{bit_and, bit_or, Ordering}
use qrack.Prelude.{
  ℕ, zero, suc, ◌+◌, ◌*◌, ◌-◌, ◌/◌, ◌%◌, ◌^◌, [], ◌∷◌, ◌++◌, ◌==◌, ltb, if◌then◌else◌, get_or,
  length, take, drop, ◌&&◌, Bool,
}
use qrack.BigInteger.Words.{
  BigInteger, word_power, half_word_power, bi_compare_0, bi_compare, bi_add_ip, bi_sub_ip,
  bi_increment, bi_set_0, from_word,
}
use qrack.BigInteger.Shift.{lshift, bi_log2}

-- `operator*` by a half word: the two rounds for the halves of each word. `temp & MASK` and
-- `temp >> 32` are the remainder and the quotient by 2^32.
unfoldable pub times_half_from : ℕ → BigInteger → ℕ → BigInteger
times_half_from carry [] right = []
times_half_from carry (a ∷ left) right =
    let even = (right * (a % half_word_power) + carry) % word_power in
    let odd = (right * (a / half_word_power) + even / half_word_power) % word_power in
    bit_or (even % half_word_power) (half_word_power * (odd % half_word_power))
    ∷ times_half_from (odd / half_word_power) left right

unfoldable pub times_half : BigInteger → ℕ → BigInteger
times_half left right = times_half_from 0 left right

-- The loop of `operator*` from bit `i` of `left` on, for `count` rounds. The inner loop adds the
-- words of `partMul` from that of bit `i` on, each with its carry, as `bi_add_ip` does.
unfoldable pub times_from : ℕ → ℕ → BigInteger → BigInteger → BigInteger → BigInteger
times_from zero i left right result = result
times_from (suc count) i left right result =
    let part_mul = lshift right i in
    let word = i / 64 in
    let set_bit = bit_and 1 (get_or left word 0 / 2 ^ (i - word * 64)) == 1 in
    let sum = take word result ++ bi_add_ip (drop word result) (drop word part_mul) in
    let rest = times_from count (i + 1) left right (if set_bit then sum else result) in
    elim (bi_compare_0 part_mul) [ Ordering.eq ↦ result | _ ↦ rest ]

-- `operator*` for more than 80 bits.
unfoldable pub times : BigInteger → BigInteger → BigInteger
times left right =
    let right_log2 = bi_log2 right in
    if right_log2 == 0
    then left
    else times_from (64 * length left - right_log2) 0 left right (bi_set_0 left)

-- The loop of `bi_div_mod_small`, from the top half word down: the carry and the quotient.
unfoldable pub divide_small : BigInteger → ℕ → ℕ × BigInteger
divide_small [] right = (0, [])
divide_small (a ∷ left) right =
    let rest = divide_small left right in
    let odd = bit_or (half_word_power * rest.0 % word_power) (a / half_word_power) in
    let even = bit_or (half_word_power * (odd % right) % word_power) (a % half_word_power) in
    (even % right, bit_or (half_word_power * (odd / right) % word_power) (even / right) ∷ rest.1)

-- `bi_div_mod_small`: the quotient and the remainder.
unfoldable pub bi_div_mod_small : BigInteger → ℕ → BigInteger × ℕ
bi_div_mod_small left right = let d = divide_small left right in (d.1, d.0)

-- The loop of `bi_div_mod`, with fuel, on the quotient and the remainder.
unfoldable pub divide_rounds :
    ℕ → BigInteger → ℕ → BigInteger × BigInteger → BigInteger × BigInteger
divide_rounds zero right right_log2 s = s
divide_rounds (suc fuel) right right_log2 (quotient, rem) =
    let log_diff = bi_log2 rem - right_log2 in
    let one = from_word (length rem - 1) 1 in
    let next =
      if log_diff == 0
      then (bi_increment quotient 1, bi_sub_ip rem right)
      else (bi_add_ip quotient (lshift one log_diff), bi_sub_ip rem (lshift right log_diff)) in
    let rest = divide_rounds fuel right right_log2 next in
    elim (bi_compare rem right) [ Ordering.lt ↦ (quotient, rem) | _ ↦ rest ]

-- `right` fits a half word.
unfoldable pub is_half_word : BigInteger → Bool
is_half_word [] = ltb 0 1
is_half_word (a ∷ rest) =
    ltb a half_word_power && elim (bi_compare_0 rest) [ Ordering.eq ↦ ltb 0 1 | _ ↦ ltb 1 0 ]

-- The branch of `bi_div_mod` for a `right` of a half word.
unfoldable pub divide_by_half_word : BigInteger → BigInteger → BigInteger × BigInteger
divide_by_half_word left right =
    let d = bi_div_mod_small left (get_or right 0 0) in (d.0, from_word (length left - 1) d.1)

-- The branch for any other `right` below `left`.
unfoldable pub divide_by_words : ℕ → BigInteger → BigInteger → BigInteger × BigInteger
divide_by_words fuel left right =
    let log = bi_log2 right in
    let test = lshift (from_word (length left - 1) 1) log in
    let right_log2 : ℕ = elim (bi_compare right test) [ Ordering.lt ↦ log + 1 | _ ↦ log ] in
    divide_rounds fuel right right_log2 (bi_set_0 left, left)

-- `bi_div_mod` with a quotient and a remainder to write, at most `fuel` rounds of its loop.
unfoldable pub bi_div_mod : ℕ → BigInteger → BigInteger → BigInteger × BigInteger
bi_div_mod fuel left right = elim (bi_compare left right) [
  | Ordering.lt ↦ (bi_set_0 left, left)
  | Ordering.eq ↦ (from_word (length left - 1) 1, bi_set_0 left)
  | Ordering.gt ↦
      if is_half_word right then divide_by_half_word left right else divide_by_words fuel left right
]

-- ===== src/BigInteger/Shift.antt =====
-- Shifts of a `BigInteger` by words and by bits, and `bi_log2`.
use Prim.Native.Nat.{bit_and, bit_or, Ordering}
use qrack.Prelude.{
  ℕ, zero, suc, ◌+◌, ◌*◌, ◌-◌, ◌/◌, ◌%◌, ◌^◌, [], ◌∷◌, ◌++◌, ◌==◌, if◌then◌else◌, for_upto, set,
  ltb, get_or, length, take, drop, replicate,
}
use qrack.BigInteger.Words.{BigInteger, word_power, bi_compare_0}

-- `result.bits[i] = left.bits[i - rightMult]` for every `i` from `rightMult` on, over zeros.
unfoldable pub bi_lshift_word : BigInteger → ℕ → BigInteger
bi_lshift_word left right_mult =
    if right_mult == 0 then left else take (length left) (replicate right_mult 0 ++ left)

-- `result.bits[i - rightMult] = left.bits[i]` for every `i` from `rightMult` on, over zeros.
unfoldable pub bi_rshift_word : BigInteger → ℕ → BigInteger
bi_rshift_word left right_mult =
    if right_mult == 0
    then left
    else take (length left) (drop right_mult left ++ replicate (length left) 0)

-- In place the loop reads words that it has written. The source's second loop writes outside the
-- array if `rightMult` is above the number of words; the model does not.
unfoldable pub bi_lshift_word_ip : BigInteger → ℕ → BigInteger
bi_lshift_word_ip left right_mult =
    let k = bit_and right_mult 63 in
    let n = length left in
    if k == 0
    then left
    else for_upto k (λ i p. set p i 0) (for_upto (n - k) (λ d p. set p (k + d) (get_or p d 0)) left)

unfoldable pub bi_rshift_word_ip : BigInteger → ℕ → BigInteger
bi_rshift_word_ip left right_mult =
    let n = length left in
    if right_mult == 0
    then left
    else for_upto right_mult (λ i p. set p (n - 1 - i) 0)
        (for_upto (n - right_mult) (λ d p. set p d (get_or p (right_mult + d) 0)) left)

-- The loop with `carry` of a left shift by `k` bits, for `k` from 1 to 63.
unfoldable pub lshift_bits : ℕ → ℕ → BigInteger → BigInteger
lshift_bits k carry [] = []
lshift_bits k carry (a ∷ result) =
    bit_or carry (a * 2 ^ k % word_power) ∷ lshift_bits k (a / 2 ^ (64 - k)) result

-- The loop with `carry` of a right shift, from the top word down: the carry and the words.
unfoldable pub rshift_bits : ℕ → BigInteger → ℕ × BigInteger
rshift_bits k [] = (0, [])
rshift_bits k (a ∷ result) =
    let rest = rshift_bits k result in
    (a * 2 ^ (64 - k) % word_power, bit_or rest.0 (a / 2 ^ k) ∷ rest.1)

-- `right >> 6` as an `int` of 32 bits, and that as a word again.
abbrev pub shift_words : ℕ → ℕ
shift_words right =
    let r = right / 64 % 2 ^ 32 in if ltb r (2 ^ 31) then r else r + word_power - 2 ^ 32

-- `operator<<`. `rMod` is the rest by 64, as long as the `int` product `rShift64 << 6` does not overflow,
-- that is, for `right` below 2^31.
unfoldable pub lshift : BigInteger → ℕ → BigInteger
lshift left right =
    let result = bi_lshift_word left (shift_words right) in
    if right % 64 == 0 then result else lshift_bits (right % 64) 0 result

unfoldable pub bi_lshift_ip : BigInteger → ℕ → BigInteger
bi_lshift_ip left right =
    let result = bi_lshift_word_ip left (shift_words right) in
    if right % 64 == 0 then result else lshift_bits (right % 64) 0 result

-- `operator>>`.
unfoldable pub rshift : BigInteger → ℕ → BigInteger
rshift left right =
    let result = bi_rshift_word left (shift_words right) in
    if right % 64 == 0 then result else (rshift_bits (right % 64) result).1

unfoldable pub bi_rshift_ip : BigInteger → ℕ → BigInteger
bi_rshift_ip left right =
    let result = bi_rshift_word_ip left (shift_words right) in
    if right % 64 == 0 then result else (rshift_bits (right % 64) result).1

-- The loop of `bi_log2`, with fuel.
unfoldable pub count_shifts : ℕ → BigInteger → ℕ → ℕ
count_shifts zero p pw = pw
count_shifts (suc fuel) p pw =
    let rest = count_shifts fuel (bi_rshift_ip p 1) (pw + 1) in
    elim (bi_compare_0 p) [ Ordering.eq ↦ pw | _ ↦ rest ]

-- Every round of the loop halves `p`, so that it ends after as many rounds as there are bits.
unfoldable pub bi_log2 : BigInteger → ℕ
bi_log2 n = count_shifts (64 * length n) (rshift n 1) 0

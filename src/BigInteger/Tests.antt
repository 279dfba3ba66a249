-- ===== src/BigInteger/Tests.antt =====
-- The theorems about `BigInteger` at concrete numbers, and runs of the code.
use qrack.Prelude.{◌+◌, ◌*◌, ◌-◌, ◌/◌, ◌%◌, ◌^◌, ◌≡◌, ◌<◌, ◌≤◌, suc, refl, [], ◌∷◌, arith}
use qrack.BigInteger.Words.{
  BigInteger, bi_add_ip, bi_sub_ip, bi_increment, bi_compare, bi_compare_0, from_word, bi_set_0,
  carry_up, borrow_up,
}
use qrack.BigInteger.Value.{value, modulus, IsWords, done, step}
use qrack.BigInteger.Addition.{value-bi_add_ip, value-bi_sub_ip}
use qrack.BigInteger.Shift.{
  lshift, rshift, bi_log2, count_shifts, bi_lshift_word, bi_rshift_word, lshift_bits, rshift_bits,
  bi_rshift_ip, bi_rshift_word_ip,
}
use qrack.BigInteger.Log.{bi_log2-value}
use qrack.BigInteger.WordShift.{value-lshift, value-rshift}
use qrack.BigInteger.Multiply.{
  bi_div_mod_small, bi_div_mod, divide_by_words, divide_rounds, is_half_word,
}
use qrack.BigInteger.MultiplyValue.{bi_div_mod_small-value}

-- 2^64 + 2^64 - 1.
abbrev all_ones : BigInteger
all_ones = 18446744073709551615 ∷ 1 ∷ []

-- 2^64.
abbrev second_word : BigInteger
second_word = 0 ∷ 1 ∷ []

all_ones-IsWords : IsWords all_ones
all_ones-IsWords = step _ _ (omega arith) (step _ _ (omega arith) done)

second_word-IsWords : IsWords second_word
second_word-IsWords = step _ _ (omega arith) (step _ _ (omega arith) done)

value-bi_add_ip_example :
    value (bi_add_ip all_ones all_ones) ≡ (value all_ones + value all_ones) % modulus all_ones
value-bi_add_ip_example = value-bi_add_ip all_ones-IsWords all_ones all_ones-IsWords refl

value-bi_sub_ip_example :
    value (bi_sub_ip second_word all_ones)
    ≡ (value second_word + (modulus second_word - value all_ones)) % modulus second_word
value-bi_sub_ip_example = value-bi_sub_ip all_ones-IsWords second_word second_word-IsWords refl

value-lshift_example : value (lshift all_ones 65) ≡ 2 ^ 65 * value all_ones % modulus all_ones
value-lshift_example = value-lshift all_ones-IsWords 65 (omega arith)

value-rshift_example : value (rshift all_ones 65) ≡ value all_ones / 2 ^ 65
value-rshift_example = value-rshift all_ones-IsWords 65 (omega arith)

bi_div_mod_small-value_example :
    (value (bi_div_mod_small all_ones 10).0 ≡ value all_ones / 10)
    × ((bi_div_mod_small all_ones 10).1 ≡ value all_ones % 10)
bi_div_mod_small-value_example =
    bi_div_mod_small-value all_ones-IsWords 10 (omega arith) (omega arith)

bi_log2-value_example :
    (2 ^ bi_log2 all_ones ≤ value all_ones) × (value all_ones < 2 ^ suc (bi_log2 all_ones))
bi_log2-value_example = bi_log2-value all_ones-IsWords (omega arith)

-- The division of 2^33 by 2^32 + 1 goes below 0 in its first round, and ends with a quotient above
-- 2^95 in place of 1.
division_of_words :
    bi_div_mod 300 (8589934592 ∷ 0 ∷ []) (4294967297 ∷ 0 ∷ [])
    ≡ (4294967296 ∷ 4294967295 ∷ [], 4294967296 ∷ 0 ∷ [])
unfolding bi_div_mod divide_by_words divide_rounds is_half_word from_word bi_set_0 bi_compare
    bi_compare_0 bi_add_ip bi_sub_ip bi_increment carry_up borrow_up lshift rshift bi_log2
    count_shifts bi_lshift_word bi_rshift_word lshift_bits rshift_bits bi_rshift_ip
    bi_rshift_word_ip
division_of_words = refl

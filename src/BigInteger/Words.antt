-- ===== src/BigInteger/Words.antt =====
-- The words of a `BigInteger` and the operations that go over them once.
--
-- `bits[0]`, the lowest word, is the head of the list, and the list's length is
-- `BIG_INTEGER_WORD_SIZE`. A loop that counts up is recursion along the list with the loop's
-- variable carried down; one that counts down takes the rest of the list first.
use Prim.Native.Nat.{Ordering}
use qrack.Prelude.{ℕ, ◌+◌, ◌-◌, ◌%◌, List, [], ◌∷◌, ltb, leb, ◌==◌, if◌then◌else◌, replicate}

abbrev pub BigInteger : Type 0
BigInteger = List ℕ

-- 2^64, so that `% word_power` is the wrap-around of `BIG_INTEGER_WORD`.
abbrev pub word_power : ℕ
word_power = 18446744073709551616

-- 2^32.
abbrev pub half_word_power : ℕ
half_word_power = 4294967296

-- The constructor from a word, for `n + 1` words.
unfoldable pub from_word : ℕ → ℕ → BigInteger
from_word n val = val ∷ replicate n 0

unfoldable pub bi_set_0 : BigInteger → BigInteger
bi_set_0 [] = []
bi_set_0 (a ∷ p) = 0 ∷ bi_set_0 p

-- 1, -1 and 0 are `gt`, `lt` and `eq`.
unfoldable pub bi_compare : BigInteger → BigInteger → Ordering
bi_compare (a ∷ left) (b ∷ right) = elim (bi_compare left right) [
  | Ordering.eq ↦ if ltb b a then Ordering.gt else if ltb a b then Ordering.lt else Ordering.eq
  | c ↦ c
]
bi_compare left right = Ordering.eq

unfoldable pub bi_compare_0 : BigInteger → Ordering
bi_compare_0 [] = Ordering.eq
bi_compare_0 (a ∷ left) = let rest = bi_compare_0 left in if a == 0 then rest else Ordering.gt

-- The loop over the words above the lowest finds a word that is not 0, as `bi_compare_0` does.
unfoldable pub bi_compare_1 : BigInteger → Ordering
bi_compare_1 [] = Ordering.eq
bi_compare_1 (a ∷ left) = elim (bi_compare_0 left) [
  | Ordering.eq ↦ if ltb 1 a then Ordering.gt else if ltb a 1 then Ordering.lt else Ordering.eq
  | c ↦ Ordering.gt
]

-- `operator+` from a word on, where `result` is what the loop has left in that word. The top word
-- gets `right`'s word only.
unfoldable pub plus_from : ℕ → BigInteger → BigInteger → BigInteger
plus_from result (a ∷ []) (b ∷ right) = (result + b) % word_power ∷ []
plus_from result (a ∷ left) (b ∷ right) =
    let word = (result + (a + b)) % word_power in
    word ∷ plus_from (if ltb word a then 1 else 0) left right
plus_from result left right = []

-- `operator+`.
unfoldable pub plus : BigInteger → BigInteger → BigInteger
plus left right = plus_from 0 left right

-- `operator-`, likewise.
unfoldable pub minus_from : ℕ → BigInteger → BigInteger → BigInteger
minus_from result (a ∷ []) (b ∷ right) = (result + word_power - b) % word_power ∷ []
minus_from result (a ∷ left) (b ∷ right) =
    let word = (result + (a + word_power - b) % word_power) % word_power in
    word ∷ minus_from (if ltb a word then word_power - 1 else 0) left right
minus_from result left right = []

unfoldable pub minus : BigInteger → BigInteger → BigInteger
minus left right = minus_from 0 left right

-- `temp = left->bits[++j]++` while the sum is below `temp`, from the next word on.
unfoldable pub carry_up : BigInteger → BigInteger
carry_up [] = []
carry_up (a ∷ left) =
    let rest = carry_up left in
    let word = (a + 1) % word_power in word ∷ (if ltb word a then rest else left)

unfoldable pub borrow_up : BigInteger → BigInteger
borrow_up [] = []
borrow_up (a ∷ left) =
    let rest = borrow_up left in
    let word = (a + word_power - 1) % word_power in word ∷ (if ltb a word then rest else left)

-- `bi_add_ip`: a carry goes up as far as it reaches before the next word is added.
unfoldable pub bi_add_ip : BigInteger → BigInteger → BigInteger
bi_add_ip (a ∷ left) (b ∷ right) =
    let word = (a + b) % word_power in
    let with_carry = bi_add_ip (carry_up left) right in
    let without_carry = bi_add_ip left right in
    word ∷ (if ltb word a then with_carry else without_carry)
bi_add_ip left right = left

unfoldable pub bi_sub_ip : BigInteger → BigInteger → BigInteger
bi_sub_ip (a ∷ left) (b ∷ right) =
    let word = (a + word_power - b) % word_power in
    let with_borrow = bi_sub_ip (borrow_up left) right in
    let without_borrow = bi_sub_ip left right in
    word ∷ (if ltb a word then with_borrow else without_borrow)
bi_sub_ip left right = left

-- The loop over the words above the lowest is `carry_up`: it stops once a word does not wrap.
unfoldable pub bi_increment : BigInteger → ℕ → BigInteger
bi_increment [] value = []
bi_increment (a ∷ rest) value =
    let word = (a + value) % word_power in if leb a word then word ∷ rest else word ∷ carry_up rest

-- The loop of `bi_decrement` starts at the lowest word again.
unfoldable pub bi_decrement : BigInteger → ℕ → BigInteger
bi_decrement [] value = []
bi_decrement (a ∷ rest) value =
    let word = (a + word_power - value) % word_power in
    if leb word a then word ∷ rest else borrow_up (word ∷ rest)

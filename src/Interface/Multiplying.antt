-- ===== src/Interface/Multiplying.antt =====
-- `MULModNOut` for a modulus that is a power of two.
use Prim.Native.Nat.{bit_and}
use native.Mathlib.Nat.{
  mod-lt, mod-mod, add-mod-mod, add-mod, add-mul-mod_self_left, mul_assoc, mul_left_comm, mul-add,
}
use qrack.Prelude.{
  ℕ, zero, suc, ◌+◌, ◌-◌, ◌*◌, ◌/◌, ◌%◌, ◌^◌, ◌<◌, ◌≤◌, ◌≡◌, ◌==◌, sym, ap, ap₂, ◌∙◌, arith, Bool,
  true, false, ◌&&◌, List, [], ◌∷◌, ◌++◌, for_upto, sum, if◌then◌else◌, if_split, bool_val,
}
use qrack.BigInteger.Words.{word_power}
use qrack.Bits.Power.{power_pos, power_add, power_congr}
use qrack.Bits.Test.{
  test, test_eq, test-bit_and, test-zero, test_ones, test_index, test-join, test-mod, test-div,
}
use qrack.Bits.Word.{pow2, pow2-power, field, with_field}
use qrack.Integers.{is_power_of_two}
use qrack.Engine.Registers.{on_register}
use qrack.Engine.Adding.{added}
use qrack.Interface.Gates.{Gates}
use qrack.Interface.Basis.{all_set, IsLawful, IsWide, wide, wide-IsWide, test-power}
use qrack.Interface.Masks.{log2_ocl-power}
use qrack.Interface.Sums.{cinc}
use qrack.Interface.Modular.{output_length, part_mul, cmul_mod_n_out, mul_mod_n_out}
use qrack.Interface.Adding.{Acts, IsMoved, narrow}
use qrack.Interface.Controlled.{cinc-bound}
use qrack.Interface.Product.{mul-cmul, IsOutside-bare}
use qrack.Interface.Undo.{IsOutside}
use qrack.Interface.Parts.{parts, loop-parts}

power-is_power : (k : ℕ) → is_power_of_two (2 ^ k) ≡ true
unfolding is_power_of_two
power-is_power k =
    let none : bit_and (2 ^ k) (2 ^ k - 1) ≡ 0 = test_eq _ _ (λ j.
      ground
        (arith, test-bit_and (2 ^ k) (2 ^ k - 1) j, test-power k j, test_ones k j, test-zero j)) in
    ground (arith, none, power_pos k)

output_length-power : (k : ℕ) → k < 64 → output_length (2 ^ k) ≡ k
unfolding output_length
output_length-power k h = ground (arith, power-is_power k, log2_ocl-power k h)

word_mod : (o x : ℕ) → o ≤ 64 → x % word_power % 2 ^ o ≡ x % 2 ^ o
word_mod o x h =
    let w = word_power in
    let r = 2 ^ (64 - o) in
    let whole : 2 ^ o * r ≡ w =
      power_add o (64 - o) ∙ power_congr (o + (64 - o)) 64 (omega arith) in
    sym (
      ap (λ y. y % 2 ^ o) {y = x % w + w * (x / w)} (omega arith)
      ∙ ap (λ y. (x % w + y) % 2 ^ o)
          (ap (λ y. y * (x / w)) (sym whole) ∙ mul_assoc (2 ^ o) r (x / w))
      ∙ add-mul-mod_self_left (x % w) (2 ^ o) (r * (x / w)))

test-bool_val : (b : Bool) (k : ℕ) → test (bool_val b) k ≡ (b && k == 0)
test-bool_val true k = test-power 0 k ∙ ground arith
test-bool_val false k = test-zero k

field_next : (s n i : ℕ) → field s (suc n) i ≡ field s n i + bool_val (test i (s + n)) * 2 ^ n
field_next s n i =
    let v = i / 2 ^ s in
    let t = test i (s + n) in
    test_eq _ _ (λ k.
      test-mod (suc n) v k
      ∙ ground (
        arith,
        test-join n (v % 2 ^ n) (bool_val t) k (mod-lt v (power_pos n)),
        test-bool_val t (k - n),
        test-mod n v k,
        test-div s i k,
        test_index i (s + k) (s + n),
      ))

if_true : {S : Type 0} (b : Bool) (x y : S) → b ≡ true → (if b then x else y) ≡ x
if_true b x y e = ap (λ b. if b then x else y) e

-- The parts of the multiples of the powers of two.
parts-product :
    (c from o n i : ℕ) (a : ℕ → ℕ)
    → ((k : ℕ) → k < n → a k % 2 ^ o ≡ c * 2 ^ k % 2 ^ o)
    → parts from a n i % 2 ^ o ≡ c * field from n i % 2 ^ o
unfolding sum
parts-product c from o zero i a h = ap (λ y. y % 2 ^ o) {x = 0} (grind arith)
parts-product c from o (suc n) i a h =
    let m = 2 ^ o in
    let t = test i (from + n) in
    let f = field from n i in
    let x = if t then a n else 0 in
    add-mod (parts from a n i) x m
    ∙ ap₂ (λ p y. (p + y) % m) (parts-product c from o n i a (λ k b. h k (omega arith)))
        (if_split (λ y. y % m ≡ bool_val t * (c * 2 ^ n) % m) t (a n) 0
          (λ e.
            h n (omega arith)
            ∙ ap (λ y. y % m) {y = 1 * (c * 2 ^ n)} (omega arith)
            ∙ ap (λ b. bool_val b * (c * 2 ^ n) % m) {x = true} (sym e))
          (λ e.
            ap (λ y. y % m) {y = 0 * (c * 2 ^ n)} (omega arith)
            ∙ ap (λ b. bool_val b * (c * 2 ^ n) % m) {x = false} (sym e)))
    ∙ sym (add-mod (c * f) (bool_val t * (c * 2 ^ n)) m)
    ∙ ap (λ y. y % m)
        (ap (λ y. c * f + y) (mul_left_comm (bool_val t) c (2 ^ n))
          ∙ sym (mul-add c f (bool_val t * 2 ^ n)))
    ∙ ap (λ y. c * y % m) (sym (field_next from n i))

part-power : (c o k : ℕ) → o < 64 → k < 64 → part_mul c (2 ^ o) k ≡ c * 2 ^ k % 2 ^ o
unfolding part_mul
part-power c o k h b =
    word_mod o (c * pow2 k) (omega arith) ∙ ap (λ p. c * p % 2 ^ o) (pow2-power k b)

mul_wide :
    {qubit_count : ℕ} {S A : Type 0} (g : Gates S) (amp : S → ℕ → A)
    → IsWide qubit_count g amp
    → (cs : List ℕ) (c o from out l : ℕ) → o < 64
    → l < 64
    → ((k : ℕ) → k < l → IsOutside qubit_count out o (cs ++ (from + k) ∷ []))
    → Acts amp
        (cmul_mod_n_out g c (2 ^ o) from out l cs)
        (λ i. if all_set cs i then on_register out o (added o (c * field from l i)) i else i)
unfolding cmul_mod_n_out
mul_wide {S = S} g amp law cs c o from out l h b outside i s =
    let n = 2 ^ o in
    let a = part_mul c n in
    let b' : ℕ → ℕ = λ k. if a k == 0 then 0 else a k in
    let loop : ℕ → S = λ ol.
      for_upto l (λ k s. if a k == 0 then s else cinc g (a k) out ol (cs ++ (from + k) ∷ []) s) s in
    let whole : cmul_mod_n_out g c n from out l cs s ≡ loop o =
      if_true (is_power_of_two n) (loop (output_length n)) _ (power-is_power o)
      ∙ ap loop (output_length-power o h) in
    let sums : parts from b' l i % n ≡ c * field from l i % n =
      parts-product c from o l i b' (λ k m.
        ap (λ y. y % n) {x = b' k} {y = a k} (ground arith)
        ∙ ap (λ y. y % n) (part-power c o k h (omega arith))
        ∙ mod-mod (c * 2 ^ k) n) in
    let x = field out o i in
    let value : added o (c * field from l i) x ≡ added o (parts from b' l i) x =
      sym (add-mod-mod x (c * field from l i) n)
      ∙ ap (λ y. (x + y) % n) (sym sums)
      ∙ add-mod-mod x (parts from b' l i) n in
    ap₂ amp whole (ap (λ y. if all_set cs i then with_field out o y i else i) value)
    ∙ loop-parts g amp law cs from out o (λ k. a k == 0) a l outside i s

-- `CMULModNOut` and `MULModNOut`, for a modulus that is a power of two, 2^o with `o` below 64, on any
-- simulator of at most 64 qubits whose `X` and `MCInvert` are lawful: in the basis states in which every
-- control is set, or in all for `MULModNOut`, the output's value has the product of the number and the
-- input's value added, modulo 2^o, and the other basis states stay. The input has fewer than 64 qubits,
-- the output is within the simulator's qubits, and the controls and the input's qubits are different
-- ones outside the output.
pub mul-adds :
    {qubit_count : ℕ} {S A : Type 0} (g : Gates S) (amp : S → ℕ → A)
    → IsLawful qubit_count g amp
    → (cs : List ℕ) (c o from out l : ℕ) → o < 64
    → l < 64
    → out + o ≤ qubit_count
    → ((k : ℕ) → k < l → IsOutside qubit_count out o (cs ++ (from + k) ∷ []))
    → (i : ℕ) (s : S) → i < 2 ^ qubit_count
    → (let j = on_register out o (added o (c * field from l i)) i in
        IsMoved qubit_count amp
          (cmul_mod_n_out g c (2 ^ o) from out l cs)
          (if all_set cs i then j else i)
          i
          s
        × IsMoved qubit_count amp (mul_mod_n_out g c (2 ^ o) from out l) j i s)
mul-adds {qubit_count = n} g amp law cs c o from out l h b fits outside i s below =
    let f : ℕ → ℕ = λ i. on_register out o (added o (c * field from l i)) i in
    let acts : (ds : List ℕ)
        → ((k : ℕ) → k < l → IsOutside n out o (ds ++ (from + k) ∷ []))
        → IsMoved n amp (cmul_mod_n_out g c (2 ^ o) from out l ds) (if all_set ds i then f i else i)
            i s =
      λ ds p.
        narrow n amp (cmul_mod_n_out g c (2 ^ o) from out l ds)
          (λ i. if all_set ds i then f i else i)
          (mul_wide g (wide n amp) (wide-IsWide g amp law) ds c o from out l h b p)
          (λ i below. cinc-bound n (c * field from l i) out o ds fits i below) i s below in
    let bare = acts [] (λ k m. IsOutside-bare cs out o (from + k) (outside k m)) in
    (acts cs outside, (bare.0, ap (λ t. amp t (f i)) (mul-cmul g c (2 ^ o) from out l s) ∙ bare.1))

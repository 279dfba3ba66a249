-- ===== src/Engine/Adding.antt =====
-- `INC` and `DEC` as additions to the register's value.
use Prim.Native.Nat.{bit_and, bit_or, bit_xor}
use native.Mathlib.Nat.{mod-lt, mod-eq_of_lt, mod-add-mod, mod-one, add-mod-mod, add-mod_right}
use qrack.Prelude.{
  ℕ, ◌+◌, ◌-◌, ◌%◌, ◌^◌, ◌<◌, ◌≤◌, ◌≡◌, ◌==◌, sym, ap, ◌∙◌, arith, List, length, ==_iff, ok, ◌>>=◌,
}
use qrack.BigInteger.Words.{word_power}
use qrack.Bits.Power.{power_pos, power_congr}
use qrack.Bits.Word.{shl, pow2, pow2_mask, field, with_field, power_mono, power_below, pow2-power}
use qrack.Bits.Field.{field_bound, with_field-field, with_field-bound}
use qrack.Ranges.{is_bad_bit_range}
use qrack.Engine.State.{Runtime, IsRuntime}
use qrack.Engine.Index.{and_mask, reg_value, put_field}
use qrack.Engine.Moves.{IsMoved-back, Moves, dense, loop-Moves, same-Moves, guarded-Moves}
use qrack.Engine.Registers.{on_register, on_register_back, on_register-IsInjection, in_range}
use qrack.Engine.Targets.{inc_index}
use qrack.Engine.Arithmetic.{less, inc, dec}

-- The value of `l` bits with `a` added.
abbrev pub added : ℕ → ℕ → ℕ → ℕ
added l a x = (x + a) % 2 ^ l

pub added_back : (m a b x : ℕ) → a + b ≡ m → x < m → ((x + a) % m + b) % m ≡ x
added_back m a b x e h =
    mod-add-mod (x + a) m b ∙ ap (λ y. y % m) (omega arith) ∙ add-mod_right x m ∙ mod-eq_of_lt h

pub added_apart : (l a x y : ℕ) → x < 2 ^ l → y < 2 ^ l → added l a x ≡ added l a y → x ≡ y
added_apart l a x y b c e =
    let m = 2 ^ l in
    let r = a % m in
    let low : (z : ℕ) → added l a z ≡ (z + r) % m = λ z. sym (add-mod-mod z a m) in
    let bound = mod-lt a (power_pos l) in
    sym (added_back m r (m - r) x (omega arith) b)
    ∙ ap (λ z. (z + (m - r)) % m) (sym (low x) ∙ e ∙ low y)
    ∙ added_back m r (m - r) y (omega arith) c

added_none : (l a x : ℕ) → l ≡ 0 → x < 2 ^ l → added l a x ≡ x
added_none l a x e b =
    ap (λ l. (x + a) % 2 ^ l) e ∙ omega (arith, power_congr l 0 e, mod-one (x + a))

added_zero : (l a x : ℕ) → a ≡ 0 → x < 2 ^ l → added l a x ≡ x
added_zero l a x e b = ap (λ y. y % 2 ^ l) {y = x} (omega arith) ∙ mod-eq_of_lt b

pub double_below : (l : ℕ) → l < 64 → 2 ^ l + 2 ^ l ≤ word_power
double_below l h = omega (arith, power_below l h, power_mono l 63 (omega arith))

inc_index-on_register :
    (n a start l i : ℕ)
    → n < 64
    → start + l ≤ n
    → a < 2 ^ l
    → i < 2 ^ n
    → inc_index n a start l i ≡ on_register start l (added l a) i
unfolding inc_index
inc_index-on_register n a start l i small fits h b =
    let put : ℕ → ℕ =
      λ x. bit_or (shl x start) (bit_and i (bit_xor (pow2_mask n) (shl (pow2_mask l) start))) in
    let f = field start l i in
    let fb = field_bound start l i in
    ap (λ f. put (bit_and ((f + a) % word_power) (pow2_mask l))) (reg_value start l i (omega arith))
    ∙ ap put (
        and_mask ((f + a) % word_power) l (omega arith)
        ∙ ap (λ y. y % 2 ^ l) (mod-eq_of_lt (omega (arith, double_below l))))
    ∙ put_field n start l (added l a f) i fits small (mod-lt (f + a) (power_pos l)) b

-- `INC` of a register within the qubits: the amplitude of every index goes to the index whose register
-- holds the sum modulo 2^length, in whatever order the loop runs and whatever the new vector held
-- before. A vector has 2^n amplitudes, for n below 64.
pub inc-Moves :
    {A : Type 0} {rt : Runtime A}
    → IsRuntime rt
    → (n to_add start l : ℕ) (v : List A) → n < 64
    → length v ≡ 2 ^ n
    → start + l ≤ n
    → Moves rt n (on_register start l (added l to_add)) v (inc rt to_add start l (dense n v))
unfolding inc
inc-Moves {rt = rt} r n to_add start l v small e fits =
    let a = bit_and to_add (pow2_mask l) in
    let masked : a ≡ to_add % 2 ^ l = and_mask to_add l (omega arith) in
    let bound : a < 2 ^ l = omega (arith, masked, mod-lt to_add (power_pos l)) in
    let same : (x : ℕ) → added l a x ≡ added l to_add x =
      λ x. ap (λ y. (x + y) % 2 ^ l) masked ∙ add-mod-mod x to_add (2 ^ l) in
    let g = on_register start l (added l to_add) in
    let still : (i : ℕ) → added l to_add (field start l i) ≡ field start l i → g i ≡ i =
      λ i q. ap (λ x. with_field start l x i) q ∙ with_field-field start l i in
    guarded-Moves (is_bad_bit_range start l n) (l == 0) (a == 0) _ (in_range start l n small fits)
      (λ h. same-Moves rt n g v e (λ i b.
        still i (added_none l to_add (field start l i) ((==_iff l 0).0 h) (field_bound start l i))))
      (λ h. same-Moves rt n g v e (λ i b. still i (
        sym (same (field start l i))
        ∙ added_zero l a (field start l i) ((==_iff a 0).0 h) (field_bound start l i))))
      (λ h k.
        loop-Moves r n g (inc_index n a start l) v (rt.alloc (pow2 n)) small
          (r.allocated (pow2 n) ∙ pow2-power n small)
          (λ i b.
            inc_index-on_register n a start l i small fits bound b
            ∙ ap (λ x. with_field start l x i) (same (field start l i)))
          (on_register-IsInjection n start l (added l to_add) fits
            (λ x b. mod-lt (x + to_add) (power_pos l)) (added_apart l to_add)))

-- `DEC` takes back what `INC` added, for a number of at most 2^length.
pub inc-dec :
    {A : Type 0} {rt : Runtime A}
    → IsRuntime rt
    → (n a start l : ℕ) (v : List A) → n < 64
    → length v ≡ 2 ^ n
    → start + l ≤ n
    → a ≤ 2 ^ l
    → (inc rt a start l (dense n v) >>= dec rt a start l) ≡ ok (dense n v)
unfolding dec less
inc-dec {rt = rt} r n a start l v small e fits h =
    let b = less l a in
    let sum : a + b ≡ 2 ^ l =
      omega (arith, pow2-power l (omega arith), power_below l (omega arith)) in
    let (w, q, m) = inc-Moves r n a start l v small e fits in
    let (u, q', m') = inc-Moves r n b start l w small m.sized fits in
    ap (λ x. x >>= inc rt b start l) q
    ∙ q'
    ∙ ap (λ u. ok (dense n u))
        (IsMoved-back e m m' (λ i c. with_field-bound start l i n _ fits (mod-lt _ (power_pos l)) c)
          (λ i c.
            on_register_back start l (added l a) (added l b) i (mod-lt _ (power_pos l))
              (added_back (2 ^ l) a b (field start l i) sum (field_bound start l i))))

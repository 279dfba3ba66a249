-- ===== src/Engine/Registers.antt =====
-- `ROL`, `INC` and `DEC` as maps of the register's value.
use Prim.Native.Nat.{bit_and, bit_or, bit_xor}
use native.Mathlib.Nat.{mod-lt, zero-div, zero-mod}
use qrack.Prelude.{
  ℕ, ◌+◌, ◌*◌, ◌-◌, ◌/◌, ◌%◌, ◌^◌, ◌<◌, ◌≤◌, ◌≡◌, ◌==◌, sym, ap, ap₂, ◌∙◌, arith, false, ◌&&◌, ◌||◌,
  List, length, ltb, leb, if◌then◌else◌, ==_iff,
}
use qrack.Bits.Power.{power_congr}
use qrack.Bits.Test.{
  test, test_index, test-bit_and, test-bit_or, test-div, test-mod, test_eq, test_beyond, test-join,
  test_bound,
}
use qrack.Bits.Word.{
  shl, shr, pow2, pow2_mask, test-shl, test-pow2_mask, field, with_field, pow2-power,
}
use qrack.Bits.Field.{
  field_bound, field-with_field, with_field-field, with_field_twice, with_field-bound,
}
use qrack.Ranges.{is_bad_bit_range}
use qrack.Engine.State.{Runtime, IsRuntime}
use qrack.Engine.Index.{reg_value, put_field}
use qrack.Engine.Moves.{IsInjection, Moves, dense, loop-Moves, same-Moves, guarded-Moves}
use qrack.Engine.Targets.{rol_index}
use qrack.Engine.Arithmetic.{rol}

-- The index with the register's value mapped by `h`.
abbrev pub on_register : ℕ → ℕ → (ℕ → ℕ) → ℕ → ℕ
on_register start length h i = with_field start length (h (field start length i)) i

-- A map of the register's values that takes no two to the same is one of the indices.
pub on_register-IsInjection :
    (n start length : ℕ) (h : ℕ → ℕ)
    → start + length ≤ n
    → ((x : ℕ) → x < 2 ^ length → h x < 2 ^ length)
    → ((x y : ℕ) → x < 2 ^ length → y < 2 ^ length → h x ≡ h y → x ≡ y)
    → IsInjection n (on_register start length h)
on_register-IsInjection n start length h fits bound apart = record {
  within = λ i l. with_field-bound start length i n _ fits (bound _ (field_bound start length i)) l;
  apart = λ i j l m e.
      let x = field start length i in
      let y = field start length j in
      let fx = field_bound start length i in
      let fy = field_bound start length j in
      let same : x ≡ y = apart x y fx fy (
        sym (field-with_field start length i (h x) (bound x fx))
        ∙ ap (field start length) e
        ∙ field-with_field start length j (h y) (bound y fy)) in
      sym (with_field-field start length i)
      ∙ sym (with_field_twice start length i x (h x) fx (bound x fx))
      ∙ ap₂ (λ a b. with_field start length a b) same e
      ∙ with_field_twice start length j y (h y) fy (bound y fy)
      ∙ with_field-field start length j;
}

-- A second map of the register that undoes the first one.
pub on_register_back :
    (s l : ℕ) (h k : ℕ → ℕ) (i : ℕ)
    → h (field s l i) < 2 ^ l
    → k (h (field s l i)) ≡ field s l i
    → on_register s l k (on_register s l h i) ≡ i
on_register_back s l h k i b e =
    let x = field s l i in
    ap (λ y. with_field s l (k y) (on_register s l h i)) (field-with_field s l i (h x) b)
    ∙ ap (λ y. with_field s l y (on_register s l h i)) e
    ∙ with_field_twice s l i x (h x) (field_bound s l i) b
    ∙ with_field-field s l i

-- The value `f` of `l` bits with the top `s` bits moved to the bottom.
abbrev pub rotated : ℕ → ℕ → ℕ → ℕ
rotated l s f = f / 2 ^ (l - s) + f % 2 ^ (l - s) * 2 ^ s

high_part : (l s f : ℕ) → s ≤ l → f < 2 ^ l → f / 2 ^ (l - s) < 2 ^ s
high_part l s f h b =
    test_bound s _ (λ k m. ground (arith, test-div (l - s) f k, test_beyond l f (l - s + k) b))

test-rotated :
    (l s f k : ℕ)
    → s ≤ l
    → f < 2 ^ l
    → test (rotated l s f) k
      ≡ (if ltb k s then test f (l - s + k) else if ltb k l then test f (k - s) else false)
test-rotated l s f k h b =
    test-join s (f / 2 ^ (l - s)) (f % 2 ^ (l - s)) k (high_part l s f h b)
    ∙ ground (arith, test-div (l - s) f k, test-mod (l - s) f (k - s))

pub rotated-bound : (l s f : ℕ) → s ≤ l → f < 2 ^ l → rotated l s f < 2 ^ l
rotated-bound l s f h b =
    test_bound l _ (λ k m. ground (arith, test-rotated l s f k h b, test_beyond l f (l - s + k) b))

-- Rotating by the rest of the length undoes a rotation.
pub rotated_back : (l s f : ℕ) → s ≤ l → f < 2 ^ l → rotated l (l - s) (rotated l s f) ≡ f
rotated_back l s f h b = test_eq _ _ (λ k. ground (
  arith,
  test-rotated l (l - s) (rotated l s f) k (omega arith) (rotated-bound l s f h b),
  test-rotated l s f (l - (l - s) + k) h b,
  test-rotated l s f (k - (l - s)) h b,
  test_index f (l - s + (k - (l - s))) k,
  test_index f (l - (l - s) + k - s) k,
  test_beyond l f k b,
))

rol_bits :
    (l s f k : ℕ)
    → l < 64
    → test (bit_or (shr f (l - s)) (bit_and (shl f s) (pow2_mask l))) k
      ≡ (test f (l - s + k) || ((ltb k 64 && (leb s k && test f (k - s))) && ltb k l))
rol_bits l s f k small =
    test-bit_or (shr f (l - s)) (bit_and (shl f s) (pow2_mask l)) k
    ∙ ap₂ ◌||◌ (test-div (l - s) f k) (
        test-bit_and (shl f s) (pow2_mask l) k
        ∙ ap₂ ◌&&◌ (test-shl s f k) (test-pow2_mask l k small))

-- The code's rotation of a value.
rol_value :
    (l s f : ℕ)
    → l < 64
    → s ≤ l
    → f < 2 ^ l
    → bit_or (shr f (l - s)) (bit_and (shl f s) (pow2_mask l)) ≡ rotated l s f
rol_value l s f small h b = test_eq _ _ (λ k.
    rol_bits l s f k small
    ∙ ground (arith, test_beyond l f (l - s + k) b)
    ∙ sym (test-rotated l s f k h b))

rol_index-on_register :
    (n s start l i : ℕ)
    → n < 64
    → start + l ≤ n
    → s ≤ l
    → i < 2 ^ n
    → rol_index n s start l i ≡ on_register start l (rotated l s) i
unfolding rol_index
rol_index-on_register n s start l i small fits h b =
    ap
      (λ f.
        bit_or (shl (bit_or (shr f (l - s)) (bit_and (shl f s) (pow2_mask l))) start)
          (bit_and i (bit_xor (pow2_mask n) (shl (pow2_mask l) start))))
      (reg_value start l i (omega arith))
    ∙ ap (λ x. bit_or (shl x start) (bit_and i (bit_xor (pow2_mask n) (shl (pow2_mask l) start))))
        (rol_value l s (field start l i) (omega arith) h (field_bound start l i))
    ∙ put_field n start l _ i fits small (rotated-bound l s _ h (field_bound start l i)) b

pub in_range : (start l n : ℕ) → n < 64 → start + l ≤ n → is_bad_bit_range start l n ≡ false
unfolding is_bad_bit_range
in_range start l n small fits = ground arith

rotated_none : (l s f : ℕ) → l ≡ 0 → f < 2 ^ l → rotated l s f ≡ f
rotated_none l s f e b =
    let none : f ≡ 0 = omega (arith, power_congr l 0 e) in
    ap (rotated l s) none
    ∙ omega (arith, zero-div (2 ^ (l - s)), ap (λ y. y * 2 ^ s) (zero-mod (2 ^ (l - s))), none)

rotated_zero : (l s f : ℕ) → s ≡ 0 → f < 2 ^ l → rotated l s f ≡ f
rotated_zero l s f e b = test_eq _ _ (λ k.
    ground
      (arith, test-rotated l s f k (omega arith) b, test_beyond l f k b, test_index f (k - s) k))

-- `ROL` of a register within the qubits: the amplitude of every index goes to the index whose register
-- holds the rotated value, in whatever order the loop runs and whatever the new vector held before.
-- A vector has 2^n amplitudes, for n below 64.
pub rol-Moves :
    {A : Type 0} {rt : Runtime A}
    → IsRuntime rt
    → (n shift start l : ℕ) (v : List A) → n < 64
    → length v ≡ 2 ^ n
    → start + l ≤ n
    → Moves rt n (on_register start l (rotated l (shift % l))) v (rol rt shift start l (dense n v))
unfolding rol
rol-Moves {rt = rt} r n shift start l v small e fits =
    let by = shift % l in
    let g = on_register start l (rotated l by) in
    guarded-Moves (is_bad_bit_range start l n) (l == 0) (by == 0) _ (in_range start l n small fits)
      (λ h. same-Moves rt n g v e (λ i b.
        ap (λ x. with_field start l x i)
          (rotated_none l by (field start l i) ((==_iff l 0).0 h) (field_bound start l i))
        ∙ with_field-field start l i))
      (λ h. same-Moves rt n g v e (λ i b.
        ap (λ x. with_field start l x i)
          (rotated_zero l by (field start l i) ((==_iff by 0).0 h) (field_bound start l i))
        ∙ with_field-field start l i))
      (λ h k.
        let below : by < l = mod-lt shift (ground (arith, h)) in
        loop-Moves r n g (rol_index n by start l) v (rt.alloc (pow2 n)) small
          (r.allocated (pow2 n) ∙ pow2-power n small)
          (λ i b. rol_index-on_register n by start l i small fits (omega arith) b)
          (on_register-IsInjection n start l (rotated l by) fits
            (λ x b. rotated-bound l by x (omega arith) b)
            (λ x y b c q.
              sym (rotated_back l by x (omega arith) b)
              ∙ ap (rotated l (l - by)) q
              ∙ rotated_back l by y (omega arith) c)))

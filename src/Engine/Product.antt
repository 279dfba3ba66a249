-- ===== src/Engine/Product.antt =====
-- `MUL` and `DIV` as a multiplication into a register and a carry register, and back.
use Prim.Native.Nat.{bit_and, bit_or, bit_xor}
use native.Mathlib.Nat.{
  mod-lt, mod-eq_of_lt, div-add-mod, div-lt_iff_lt-mul, mul-lt-mul_of_pos_right, mul-le-mul_left,
}
use qrack.Prelude.{
  ℕ, ◌+◌, ◌*◌, ◌/◌, ◌%◌, ◌^◌, ◌<◌, ◌≤◌, ◌≡◌, ◌==◌, ◌≢◌, refl, sym, ap, ap₂, ◌∙◌, arith, Bool, true,
  false, ◌||◌, ◌⊎◌, inl, inr, List, length, set, get_or_ext, ltb, if◌then◌else◌, Bool-cases, ==_iff,
  Result, ok, err, invalid_argument, ◌>>=◌,
}
use qrack.BigInteger.Words.{word_power}
use qrack.Bits.Power.{power_pos, power_add}
use qrack.Bits.Word.{shl, shr, pow2, pow2_mask, field, power_below, pow2-power}
use qrack.Bits.Field.{field_bound}
use qrack.Ranges.{is_bad_bit_range}
use qrack.Parallel.Order.{par_for_skip}
use qrack.Engine.State.{Engine, Runtime, IsRuntime, Calls, read, cleared}
use qrack.Engine.Index.{and_mask, reg_value}
use qrack.Engine.Moves.{dense, get_or_beyond}
use qrack.Engine.Registers.{in_range}
use qrack.Engine.Two.{put_two}
use qrack.Engine.Pair.{
  on_pair, on_pair-IsPairing, IsPairing, par_for_skip-scatter, Pairs, loop-Pairs,
}
use qrack.Engine.Multiply.{mul_index, muldiv, mul, div}

-- The low and the high half of the product of the register's value and `t`.
abbrev pub low_product : ℕ → ℕ → ℕ → ℕ
low_product l t x = x * t % 2 ^ l

abbrev pub high_product : ℕ → ℕ → ℕ → ℕ
high_product l t x = x * t / 2 ^ l

product_bound : (l t x : ℕ) → t < 2 ^ l → x < 2 ^ l → x * t < 2 ^ l * 2 ^ l
product_bound l t x h b =
    let most : x * t ≤ x * 2 ^ l = mul-le-mul_left x (omega arith) in
    omega (arith, most, mul-lt-mul_of_pos_right b (power_pos l))

high_bound : (l t x : ℕ) → t < 2 ^ l → x < 2 ^ l → high_product l t x < 2 ^ l
high_bound l t x h b = (div-lt_iff_lt-mul (power_pos l)).1 (product_bound l t x h b)

product_apart :
    (l t x y : ℕ)
    → 0 < t
    → low_product l t x ≡ low_product l t y
    → high_product l t x ≡ high_product l t y
    → x ≡ y
product_apart l t x y pos e q =
    let same : x * t ≡ y * t =
      omega (
        arith,
        div-add-mod (x * t) (2 ^ l),
        div-add-mod (y * t) (2 ^ l),
        e,
        ap (λ d. 2 ^ l * d) q,
      ) in
    grind arith

third :
    {X : Type 0} (a b : Bool) (x y z : X)
    → a ≡ false
    → b ≡ false
    → (if a then x else if b then y else z) ≡ z
third true b x y z p q = absurd (ground (arith, p))
third false true x y z p q = absurd (ground (arith, q))
third false false x y z p q = refl

module _ (n t s c l : ℕ) (small : n < 64) (fs : s + l ≤ n) (fc : c + l ≤ n)
    (apart : (s + l ≤ c) ⊎ (c + l ≤ s)) (bound : t < 2 ^ l) (pos : 0 < t) where
  abbrev pub target : ℕ → ℕ
  target = on_pair s l c l (low_product l t) (high_product l t)

  mul_index-on_pair : (i : ℕ) → i < 2 ^ n → mul_index n t s c l i ≡ target i
  unfolding mul_index
  mul_index-on_pair i b =
      let f = field s l i in
      let fb = field_bound s l i in
      let mask = pow2_mask l in
      let rest = bit_and i (bit_xor (pow2_mask n) (bit_or (shl mask s) (shl mask c))) in
      let word : 2 ^ l * 2 ^ l < word_power =
        omega (arith, power_add l l, power_below (l + l) (omega arith)) in
      let whole : shr (bit_and i (shl mask s)) s * t % word_power ≡ f * t =
        ap (λ x. x * t % word_power) (reg_value s l i (omega arith))
        ∙ mod-eq_of_lt (omega (arith, product_bound l t f bound fb)) in
      let put : ℕ → ℕ = λ p.
        bit_or (bit_or (shl (bit_and p mask) s) (shl (shr (bit_and p (shl mask l)) l) c)) rest in
      ap put whole
      ∙ ap₂ (λ x y. bit_or (bit_or (shl x s) (shl y c)) rest) (and_mask (f * t) l (omega arith))
          (reg_value l l (f * t) (omega arith) ∙ mod-eq_of_lt (high_bound l t f bound fb))
      ∙ put_two n s l c l (low_product l t f) (high_product l t f) i small fs fc apart
          (mod-lt _ (power_pos l)) (high_bound l t f bound fb) b

  target-IsPairing : IsPairing n c l target
  target-IsPairing =
      on_pair-IsPairing n s l c l (low_product l t) (high_product l t) fs fc apart
        (λ x b. mod-lt _ (power_pos l)) (λ x b. high_bound l t x bound b)
        (λ x y b d e q. product_apart l t x y pos e q)

  -- What `MULDIV` does to a register and a carry register within the qubits.
  muldiv-loop :
      {A : Type 0} (rt : Runtime A) (calls : Calls A) (in_fn out_fn : ℕ → ℕ → ℕ) (v : List A)
      → muldiv rt calls in_fn out_fn t s c l (dense n v)
        ≡ ok (
            dense n (
              par_for_skip rt.order 0
                (pow2 n)
                (pow2 c)
                l
                (λ lcv nv.
                  set nv
                    (out_fn lcv (mul_index n t s c l lcv))
                    (read rt v (in_fn lcv (mul_index n t s c l lcv))))
                (cleared rt (pow2 n))))
  unfolding muldiv
  muldiv-loop rt calls in_fn out_fn v =
      let loop : ℕ → Engine _ = λ t. dense n (
        par_for_skip rt.order 0 (pow2 n) (pow2 c) l
          (λ lcv nv.
            set nv (out_fn lcv (mul_index n t s c l lcv))
              (read rt v (in_fn lcv (mul_index n t s c l lcv))))
          (cleared rt (pow2 n))) in
      let ranges : (is_bad_bit_range s l n || is_bad_bit_range c l n) ≡ false =
        ap₂ ◌||◌ (in_range s l n small fs) (in_range c l n small fc) in
      ap₂ (λ b t. if b then err invalid_argument else ok (loop t)) ranges
        (mod-eq_of_lt {n = t} (omega (arith, power_below l (omega arith))))

-- `MUL` of a register into itself and a carry register apart from it, by a number above 1 that fits in
-- the register: when the call that clears the carry register returns the state vector `v`, the
-- amplitude of every index of `v` whose carry register is 0 goes to the index that has the low half of
-- the product in the register and the high half in the carry register; every other index gets the
-- amplitude 0. This holds in whatever order the loop runs. There are fewer than 64 qubits.
pub mul-Pairs :
    {A : Type 0} {rt : Runtime A} (calls : Calls A)
    → IsRuntime rt
    → (n t s c l : ℕ) (small : n < 64) (fs : s + l ≤ n) (fc : c + l ≤ n)
      (apart : (s + l ≤ c) ⊎ (c + l ≤ s)) (bound : t < 2 ^ l) (many : 1 < t) (u v : List A)
    → calls.set_reg c l 0 (dense n u) ≡ ok (dense n v)
    → Pairs rt n c l
        (on_pair s l c l (low_product l t) (high_product l t))
        v
        (mul rt calls t s c l (dense n u))
unfolding mul
mul-Pairs {A = A} {rt = rt} calls r n t s c l small fs fc apart bound many u v call =
    let g = target n t s c l small fs fc apart bound (omega arith) in
    let rest : Engine A → Result (Engine A) = λ e.
      if t == 0
      then calls.set_reg s l 0 e
      else if t == 1
      then ok e
      else muldiv rt calls (λ orig mul. orig) (λ orig mul. mul) t s c l e in
    let (w, e, q) =
      loop-Pairs r n c l small g (mul_index n t s c l) v (omega arith) fc
        (λ i b z. mul_index-on_pair n t s c l small fs fc apart bound (omega arith) i b)
        (target-IsPairing n t s c l small fs fc apart bound (omega arith)) in
    (
      w,
      ap (λ x. x >>= rest) call
          ∙ third (t == 0) (t == 1) _ _ _ (ground arith) (ground arith)
          ∙ muldiv-loop n t s c l small fs fc apart bound (omega arith) rt calls (λ orig mul. orig)
              (λ orig mul. mul) v
          ∙ e,
      q,
    )

-- `DIV` takes back what `MUL` did by a number above 1 that fits in the register, which lies apart from
-- the carry register, for fewer than 64 qubits: the state vector is again the one that the call of `SetReg`
-- in `MUL` made of the first, if that has 2^n amplitudes, which are 0 where the carry register is not 0.
pub mul-div :
    {A : Type 0} {rt : Runtime A} (calls : Calls A)
    → IsRuntime rt
    → (n t s c l : ℕ) (v u : List A) → n < 64
    → s + l ≤ n
    → c + l ≤ n
    → (s + l ≤ c) ⊎ (c + l ≤ s)
    → t < 2 ^ l
    → 1 < t
    → length u ≡ 2 ^ n
    → ((i : ℕ) → i < 2 ^ n → field c l i ≢ 0 → read rt u i ≡ rt.zero_amp)
    → calls.set_reg c l 0 (dense n v) ≡ ok (dense n u)
    → (mul rt calls t s c l (dense n v) >>= div rt calls t s c l) ≡ ok (dense n u)
unfolding div
mul-div {A = A} {rt = rt} calls r n t s c l v u small fs fc apart bound many size clear call =
    let pos : 0 < t = omega arith in
    let g = target n t s c l small fs fc apart bound pos in
    let k = mul_index n t s c l in
    let (w, e, q) = mul-Pairs calls r n t s c l small fs fc apart bound many v u call in
    let loop : ℕ → ℕ → List A = λ a b.
      par_for_skip rt.order 0 a b l (λ lcv nv. set nv lcv (read rt w (k lcv))) (cleared rt a) in
    let d =
      par_for_skip-scatter r n c l k (λ i. i) w small fc
        (record { within = λ i b z. b; apart = λ i j b d z z' e. e }) in
    let same : (i : ℕ) → read rt (loop (2 ^ n) (2 ^ c)) i ≡ read rt u i = λ i.
      elim (Bool-cases (ltb i (2 ^ n))) [
        | inl b ↦
            let below : i < 2 ^ n = ground (arith, b) in
            elim (Bool-cases (field c l i == 0)) [
              | inl z ↦
                  let zero_field = (==_iff (field c l i) 0).0 z in
                  d.moved i below zero_field
                  ∙ ap (read rt w) (mul_index-on_pair n t s c l small fs fc apart bound pos i below)
                  ∙ q.moved i below zero_field
              | inr z ↦
                  d.empty i (λ j b' z' e. ground (arith, z, z', ap (field c l) e))
                  ∙ sym (clear i below (ground (arith, z)))
            ]
        | inr b ↦
            get_or_beyond rt.zero_amp (loop (2 ^ n) (2 ^ c)) i (ground (arith, b, d.sized))
            ∙ sym (get_or_beyond rt.zero_amp u i (ground (arith, b, size)))
      ] in
    ap (λ x. x >>= div rt calls t s c l) e
    ∙ third (t == 0) (t == 1) _ _ _ (ground arith) (ground arith)
    ∙ muldiv-loop n t s c l small fs fc apart bound pos rt calls (λ orig mul. mul)
        (λ orig mul. orig) w
    ∙ ap₂ (λ a b. ok (dense n (loop a b))) (pow2-power n small) (pow2-power c (omega arith))
    ∙ ap (λ u. ok (dense n u)) (get_or_ext rt.zero_amp _ u (d.sized ∙ sym size) same)

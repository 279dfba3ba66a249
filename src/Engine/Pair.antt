-- ===== src/Engine/Pair.antt =====
-- Operations that map a register into itself and a second field, which is 0 before.
use qrack.Prelude.{
  get_or-replicate, ℕ, ◌+◌, ◌^◌, ◌<◌, ◌≤◌, ◌≡◌, ◌≢◌, sym, ap, ap₂, ◌∙◌, arith, Bool, true, false,
  ◌⊎◌, inl, inr, List, length, set, if◌then◌else◌, length-replicate, Result, ok, err,
  invalid_argument,
}
use qrack.Bits.Power.{power_pos}
use qrack.Bits.Word.{pow2, field, with_field, pow2-power}
use qrack.Bits.Field.{
  field_bound, field-with_field, with_field-field, with_field_twice, with_field-bound, field_other,
  with_field_swap,
}
use qrack.Parallel.Order.{count, par_for_skip}
use qrack.Parallel.Skip.{par_for_skip-Runs}
use qrack.Engine.Moves.{dense}
use qrack.Engine.State.{Engine, Runtime, IsRuntime, read, cleared}
use qrack.Engine.Scatter.{visit_kept, visit_written, length-visit}

-- `w` has, for each index `i` whose `m` bits from bit `c` on are 0, the amplitude that `v` has at index
-- `f i` at index `g i`, and the amplitude 0 elsewhere.
pub record IsScattered {A : Type 0} (rt : Runtime A) (n c m : ℕ) (f g : ℕ → ℕ) (v w : List A)
    : Type 0 where
  pub sized : length w ≡ 2 ^ n
  pub moved : (i : ℕ) → i < 2 ^ n → field c m i ≡ 0 → read rt w (g i) ≡ read rt v (f i)
  pub empty :
      (k : ℕ) → ((i : ℕ) → i < 2 ^ n → field c m i ≡ 0 → g i ≢ k) → read rt w k ≡ rt.zero_amp

-- A map of these indices that takes no two to the same place.
pub record IsPairing (n c m : ℕ) (g : ℕ → ℕ) : Type 0 where
  pub within : (i : ℕ) → i < 2 ^ n → field c m i ≡ 0 → g i < 2 ^ n
  pub apart :
      (i j : ℕ) → i < 2 ^ n → j < 2 ^ n → field c m i ≡ 0 → field c m j ≡ 0 → g i ≡ g j → i ≡ j

module _ {A : Type 0} {rt : Runtime A} (r : IsRuntime rt) (n c m : ℕ) where
  -- The loop that hands index `f i` to `g i`, for the indices `i` that it runs.
  pub par_for_skip-scatter :
      (f g : ℕ → ℕ) (v : List A)
      → n < 64
      → c + m ≤ n
      → IsPairing n c m g
      → IsScattered rt n c m f g v (
          par_for_skip rt.order 0
            (2 ^ n)
            (2 ^ c)
            m
            (λ lcv nv. set nv (g lcv) (read rt v (f lcv)))
            (cleared rt (2 ^ n)))
  par_for_skip-scatter f g v small fits p =
      let N : ℕ = 2 ^ n in
      let fn : ℕ → List A → List A = λ lcv nv. set nv (g lcv) (read rt v (f lcv)) in
      let (js, run, cover) =
        par_for_skip-Runs rt.order n c m fn (cleared rt N) (λ k. r.ordered k) small fits in
      let among : (i : ℕ) → 0 < count i js → (i < N) × (field c m i ≡ 0) =
        λ i h. (ground (arith, cover i, h), ground (arith, cover i, h)) in
      rw run (record {
        sized = length-visit rt.zero_amp N f g v js (cleared rt N) ∙ length-replicate N rt.zero_amp;
        moved = λ i h z.
            visit_written rt.zero_amp N f g v js (cleared rt N) i (ground (arith, cover i, h, z))
              (omega (arith, p.within i h z, length-replicate N rt.zero_amp))
              (λ j q e. p.apart j i (among j q).0 h (among j q).1 z e);
        empty = λ k none.
            visit_kept rt.zero_amp N f g v js (cleared rt N) k
              (λ j q. none j (among j q).0 (among j q).1)
            ∙ get_or-replicate N k rt.zero_amp;
      })

-- The index with the register's value `x` and the field, which is 0, replaced by `h x` and `k x`.
abbrev pub on_pair : ℕ → ℕ → ℕ → ℕ → (ℕ → ℕ) → (ℕ → ℕ) → ℕ → ℕ
on_pair s l c m h k i = let x = field s l i in with_field s l (h x) (with_field c m (k x) i)

pub on_pair-IsPairing :
    (n s l c m : ℕ) (h k : ℕ → ℕ)
    → s + l ≤ n
    → c + m ≤ n
    → (s + l ≤ c) ⊎ (c + m ≤ s)
    → ((x : ℕ) → x < 2 ^ l → h x < 2 ^ l)
    → ((x : ℕ) → x < 2 ^ l → k x < 2 ^ m)
    → ((x y : ℕ) → x < 2 ^ l → y < 2 ^ l → h x ≡ h y → k x ≡ k y → x ≡ y)
    → IsPairing n c m (on_pair s l c m h k)
on_pair-IsPairing n s l c m h k fs fc apart bh bk inj =
    let x = field s l in
    let bx : (i : ℕ) → x i < 2 ^ l = λ i. field_bound s l i in
    let inner : ℕ → ℕ = λ i. with_field c m (k (x i)) i in
    let other : (c + m ≤ s) ⊎ (s + l ≤ c) = elim apart [ inl q ↦ inr q | inr q ↦ inl q ] in
    -- What can be read off the new index.
    let first : (i : ℕ) → field s l (on_pair s l c m h k i) ≡ h (x i) =
      λ i. field-with_field s l (inner i) (h (x i)) (bh _ (bx i)) in
    let second : (i : ℕ) → field c m (on_pair s l c m h k i) ≡ k (x i) = λ i.
      field_other c m s l (inner i) other (h (x i)) (bh _ (bx i))
      ∙ field-with_field c m i (k (x i)) (bk _ (bx i)) in
    -- Both fields put back.
    let restore : (i : ℕ)
        → field c m i ≡ 0
        → with_field c m 0 (with_field s l (x i) (on_pair s l c m h k i)) ≡ i =
      λ i z.
        ap (with_field c m 0) (with_field_twice s l (inner i) (x i) (h (x i)) (bx i) (bh _ (bx i)))
        ∙ with_field_swap c m s l (inner i) other 0 (x i) (power_pos m) (bx i)
        ∙ ap (with_field s l (x i)) (
            with_field_twice c m i 0 (k (x i)) (power_pos m) (bk _ (bx i))
            ∙ ap (λ y. with_field c m y i) (sym z)
            ∙ with_field-field c m i)
        ∙ with_field-field s l i in
    record {
      within = λ i b z.
          with_field-bound s l (inner i) n (h (x i)) fs (bh _ (bx i))
            (with_field-bound c m i n (k (x i)) fc (bk _ (bx i)) b);
      apart = λ i j b d z z' e.
          let same : x i ≡ x j =
            inj (x i) (x j) (bx i) (bx j) (sym (first i) ∙ ap (field s l) e ∙ first j)
              (sym (second i) ∙ ap (field c m) e ∙ second j) in
          sym (restore i z)
          ∙ ap₂ (λ y g. with_field c m 0 (with_field s l y g)) same e
          ∙ restore j z';
    }

-- A call that returns, with a vector that is `v` moved by `g`.
abbrev pub Pairs :
    {A : Type 0} → Runtime A → ℕ → ℕ → ℕ → (ℕ → ℕ) → List A → Result (Engine A) → Type 0
Pairs {A = A} rt n c m g v t =
    (w : List A) × (t ≡ ok (dense n w)) × IsScattered rt n c m (λ i. i) g v w

-- The code's loop, whose index function is `g` on the indices that it runs.
module _ {A : Type 0} {rt : Runtime A} (r : IsRuntime rt) (n c m : ℕ) (small : n < 64) where
  pub loop-Pairs :
      (g k : ℕ → ℕ) (v : List A)
      → c < 64
      → c + m ≤ n
      → ((i : ℕ) → i < 2 ^ n → field c m i ≡ 0 → k i ≡ g i)
      → IsPairing n c m g
      → Pairs rt n c m g v (
          ok (
            dense n (
              par_for_skip rt.order 0
                (pow2 n)
                (pow2 c)
                m
                (λ lcv nv. set nv (k lcv) (read rt v lcv))
                (cleared rt (pow2 n)))))
  loop-Pairs g k v sc fits same p =
      let loop : ℕ → ℕ → List A = λ a b.
        par_for_skip rt.order 0 a b m (λ lcv nv. set nv (k lcv) (read rt v lcv)) (cleared rt a) in
      let p' : IsPairing n c m k = record {
        within = λ i b z. omega (arith, same i b z, p.within i b z);
        apart = λ i j b d z z' e. p.apart i j b d z z' (omega (arith, same i b z, same j d z', e));
      } in
      let q = par_for_skip-scatter r n c m (λ i. i) k v small fits p' in
      (
        loop (2 ^ n) (2 ^ c),
        ap₂ (λ a b. ok (dense n (loop a b))) (pow2-power n small) (pow2-power c sc),
        record {
          sized = q.sized;
          moved = λ i b z. ap (read rt (loop (2 ^ n) (2 ^ c))) (sym (same i b z)) ∙ q.moved i b z;
          empty = λ j none. q.empty j (λ i b z e. none i b z (sym (same i b z) ∙ e));
        },
      )

-- The checks of an operation that do not end it.
pub passed :
    {A : Type 0} (P : Result (Engine A) → Type 0) (bad none_left nothing : Bool) (e rest : Engine A)
    → bad ≡ false
    → none_left ≡ false
    → nothing ≡ false
    → P (ok rest)
    → P (
        if bad
        then err invalid_argument
        else ok (if none_left then e else if nothing then e else rest))
passed P true b c e rest p q h t = absurd (ground (arith, p))
passed P false true c e rest p q h t = absurd (ground (arith, q))
passed P false false true e rest p q h t = absurd (ground (arith, h))
passed P false false false e rest p q h t = t

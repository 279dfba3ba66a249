-- ===== src/Engine/Flip.antt =====
-- `PhaseFlipIfLess` and `CPhaseFlipIfLess` as changes of sign in place.
use Prim.Native.Nat.{bit_and}
use native.Mathlib.Nat.{mod-eq_of_lt}
use qrack.Prelude.{
  ℕ, ◌+◌, ◌-◌, ◌%◌, ◌^◌, ◌<◌, ◌≤◌, ◌≡◌, ◌==◌, refl, ap, ap₂, ◌∙◌, arith, Bool, ◌&&◌, List, [], ◌∷◌,
  length, set, get_or-set, length-set, ltb, if◌then◌else◌, if_split, ==_iff, ==_refl, Bool-cases,
  inl, inr, ok, err, invalid_argument,
}
use qrack.BigInteger.Words.{word_power}
use qrack.Bits.Word.{shr, bit_reg_mask, field, pow2-power}
use qrack.Parallel.Order.{count, visit, par_for}
use qrack.Parallel.Skip.{par_for_inc-Runs}
use qrack.Engine.State.{Runtime, IsRuntime, read}
use qrack.Engine.Index.{reg_value}
use qrack.Engine.Moves.{dense}
use qrack.Engine.Registers.{in_range}
use qrack.Engine.FullAdd.{phase_flip_if_less}

module _ {A : Type 0} (rt : Runtime A) (p : ℕ → Bool) where
  abbrev flip_one : ℕ → List A → List A
  flip_one j v = if p j then set v j (rt.negate (read rt v j)) else v

  length-flip_one : (j : ℕ) (v : List A) → length (flip_one j v) ≡ length v
  length-flip_one j v = ground (arith, length-set v j (rt.negate (read rt v j)))

  read-flip_one :
      (j k : ℕ) (v : List A)
      → k < length v
      → read rt (flip_one j v) k ≡ (if j == k && p j then rt.negate (read rt v k) else read rt v k)
  read-flip_one j k v h =
      if_split (λ w. read rt w k ≡ (if j == k && p j then rt.negate (read rt v k) else read rt v k))
        (p j) _ _
        (λ e. get_or-set v j k (rt.negate (read rt v j)) rt.zero_amp ∙ elim (Bool-cases (j == k)) [
          | inl q ↦
              let at : read rt v j ≡ read rt v k = ap (read rt v) ((==_iff j k).0 q) in
              ground (arith, e, q, h, at, ap rt.negate at)
          | inr q ↦ ground (arith, e, q)
        ])
        (λ e. ground (arith, e))

  length-flips : (js : List ℕ) (v : List A) → length (visit js flip_one v) ≡ length v
  unfolding visit
  length-flips [] v = refl
  length-flips (j ∷ js) v = length-flips js (flip_one j v) ∙ length-flip_one j v

  read-flips :
      (js : List ℕ) (v : List A) (k : ℕ)
      → count k js ≤ 1
      → k < length v
      → read rt (visit js flip_one v) k
        ≡ (if ltb 0 (count k js) && p k then rt.negate (read rt v k) else read rt v k)
  unfolding visit
  read-flips [] v k c h = refl
  read-flips (j ∷ js) v k c h =
      read-flips js (flip_one j v) k (omega arith) (omega (arith, length-flip_one j v))
      ∙ elim (Bool-cases (j == k)) [
        | inl q ↦ ground (arith, q, c, read-flip_one j k v h, ap p ((==_iff j k).0 q))
        | inr q ↦
            let kept : read rt (flip_one j v) k ≡ read rt v k =
              ground (arith, q, read-flip_one j k v h) in
            ground (arith, q, kept, ap rt.negate kept)
      ]

-- `w` is `v` with the sign changed at the indices of the test.
pub record IsFlipped {A : Type 0} (rt : Runtime A) (n : ℕ) (p : ℕ → Bool) (v w : List A)
    : Type 0 where
  pub sized : length w ≡ 2 ^ n
  pub signed :
      (i : ℕ) → i < 2 ^ n → read rt w i ≡ (if p i then rt.negate (read rt v i) else read rt v i)

par_for-IsFlipped :
    {A : Type 0} {rt : Runtime A}
    → IsRuntime rt
    → (n : ℕ) (p : ℕ → Bool) (v : List A) → length v ≡ 2 ^ n
    → IsFlipped rt n p v (par_for rt.order 0 (2 ^ n) (flip_one rt p) v)
unfolding par_for
par_for-IsFlipped {rt = rt} r n p v e =
    let (js, run, cover) =
      par_for_inc-Runs rt.order (2 ^ n - 0) (λ i. i) (λ i. i) (λ i. i) (λ k. ltb k (2 ^ n))
        (flip_one rt p) v (λ m. r.ordered m) (λ j h. refl) (λ j h. refl)
        (λ k. ground (arith, ==_refl k)) in
    rw run (record {
      sized = length-flips rt p js v ∙ e;
      signed = λ i h.
          read-flips rt p js v i (ground (arith, cover i)) (omega (arith, e))
          ∙ ground (arith, cover i, h);
    })

-- `PhaseFlipIfLess` of a register within the qubits changes the sign of the amplitudes of exactly the
-- indices whose register holds less than the number given, in whatever order the loop runs, and leaves
-- the others. A vector has 2^n amplitudes, for n below 64, and the number is below 2^64.
pub phase_flip_if_less-IsFlipped :
    {A : Type 0} {rt : Runtime A}
    → IsRuntime rt
    → (n greater s l : ℕ) (v : List A) → n < 64
    → length v ≡ 2 ^ n
    → s + l ≤ n
    → greater < word_power
    → (w : List A) × (phase_flip_if_less rt greater s l (dense n v) ≡ ok (dense n w))
      × IsFlipped rt n (λ i. ltb (field s l i) greater) v w
unfolding phase_flip_if_less bit_reg_mask
phase_flip_if_less-IsFlipped {rt = rt} r n greater s l v small e fits bound =
    let code : ℕ → Bool = λ i. ltb (shr (bit_and i (bit_reg_mask s l)) s) (greater % word_power) in
    let same : (i : ℕ) → code i ≡ ltb (field s l i) greater =
      λ i. ap₂ ltb (reg_value s l i (omega arith)) (mod-eq_of_lt bound) in
    let loop : ℕ → List _ = λ m. par_for rt.order 0 m (flip_one rt code) v in
    let q = par_for-IsFlipped r n code v e in
    (
      loop (2 ^ n),
      ap₂ (λ b m. if b then err invalid_argument else ok (dense n (loop m)))
          (in_range s l n small fits) (pow2-power n small),
      record {
        sized = q.sized;
        signed = λ i h.
            q.signed i h ∙ ap (λ b. if b then rt.negate (read rt v i) else read rt v i) (same i);
      },
    )

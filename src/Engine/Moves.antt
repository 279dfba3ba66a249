-- ===== src/Engine/Moves.antt =====
-- A loop that moves the amplitude of every index to another one, each to a place of its own.
use qrack.Prelude.{
  ℕ, zero, suc, ◌+◌, ◌-◌, ◌^◌, ◌<◌, ◌≤◌, ◌≡◌, refl, sym, ap, ◌∙◌, arith, List, length, set, get_or,
  ltb, if◌then◌else◌, some, Result, ok, err, invalid_argument, Bool, true, false, Bool-cases, inl,
  inr, [], ◌∷◌, get_or_ext,
}
use qrack.Bits.Word.{pow2, pow2-power}
use qrack.Parallel.Order.{IsOrder, visit, par_for, par_for_inc}
use qrack.Engine.State.{Engine, Runtime, IsRuntime, read}
use qrack.Engine.Scatter.{visit_written, length-visit}

-- `w` is `v` with the amplitude of each index `i` below `2 ^ n` moved to index `g i`.
pub record IsMoved {A : Type 0} (rt : Runtime A) (n : ℕ) (g : ℕ → ℕ) (v w : List A) : Type 0 where
  pub sized : length w ≡ 2 ^ n
  pub moved : (i : ℕ) → i < 2 ^ n → read rt w (g i) ≡ read rt v i

-- A map of the indices below `2 ^ n` that takes no two to the same place.
pub record IsInjection (n : ℕ) (g : ℕ → ℕ) : Type 0 where
  pub within : (i : ℕ) → i < 2 ^ n → g i < 2 ^ n
  pub apart : (i j : ℕ) → i < 2 ^ n → j < 2 ^ n → g i ≡ g j → i ≡ j

-- The same for the iterations of any loop, which take the amplitude of index `f j` to index `g j`.
pub visit-moved :
    {A : Type 0} (rt : Runtime A) (f g : ℕ → ℕ) (v nv : List A) (items : ℕ) (js : List ℕ)
    → IsOrder items js
    → ((i j : ℕ) → i < items → j < items → g i ≡ g j → i ≡ j)
    → (j : ℕ) → j < items
    → g j < length nv
    → read rt (visit js (λ j nv. set nv (g j) (read rt v (f j))) nv) (g j) ≡ read rt v (f j)
visit-moved rt f g v nv items js ord apart j h l =
    visit_written rt.zero_amp items f g v js nv j (ground (arith, ord j)) l
      (λ i p e. apart i j (ground (arith, ord i)) h e)

pub par_for-IsMoved :
    {A : Type 0} {rt : Runtime A}
    → IsRuntime rt
    → (n : ℕ) (g : ℕ → ℕ) (v nv : List A) → IsInjection n g
    → length nv ≡ 2 ^ n
    → IsMoved rt n g v (par_for rt.order 0 (2 ^ n) (λ lcv nv. set nv (g lcv) (read rt v lcv)) nv)
unfolding par_for par_for_inc
par_for-IsMoved {rt = rt} r n g v nv inj e = record {
  sized =
      length-visit rt.zero_amp (2 ^ n) (λ j. 0 + j) (λ j. g (0 + j)) v (rt.order (2 ^ n - 0)) nv
      ∙ e;
  moved = λ i h.
      ap
        (λ k.
          read rt (visit (rt.order (2 ^ n - 0)) (λ j nv. set nv (g (0 + j)) (read rt v (0 + j))) nv)
            (g k))
        {x = i} {y = 0 + i} (omega arith)
      ∙ visit-moved rt (λ j. 0 + j) (λ j. g (0 + j)) v nv (2 ^ n - 0) (rt.order (2 ^ n - 0))
          (r.ordered (2 ^ n - 0))
          (λ i j p q e. omega (arith, inj.apart (0 + i) (0 + j) (omega arith) (omega arith) e)) i
          (omega arith) (omega (arith, inj.within (0 + i) (omega arith), e))
      ∙ ap (read rt v) (omega arith);
}

-- The engine of `n` qubits with the state vector `v`.
abbrev pub dense : {A : Type 0} → ℕ → List A → Engine A
dense n v = record { qubit_count = n; state_vec = some v }

-- A call that returns, with a state vector that is `v` moved by `g`.
abbrev pub Moves : {A : Type 0} → Runtime A → ℕ → (ℕ → ℕ) → List A → Result (Engine A) → Type 0
Moves {A = A} rt n g v r = (w : List A) × (r ≡ ok (dense n w)) × IsMoved rt n g v w

-- A call that changes nothing moves every index to itself.
pub same-Moves :
    {A : Type 0} (rt : Runtime A) (n : ℕ) (g : ℕ → ℕ) (v : List A)
    → length v ≡ 2 ^ n
    → ((i : ℕ) → i < 2 ^ n → g i ≡ i)
    → Moves rt n g v (ok (dense n v))
same-Moves rt n g v e h = (v, refl, record { sized = e; moved = λ i b. ap (read rt v) (h i b) })

-- A loop whose index function is `g` on the indices.
pub loop-Moves :
    {A : Type 0} {rt : Runtime A}
    → IsRuntime rt
    → (n : ℕ) (g k : ℕ → ℕ) (v nv : List A) → n < 64
    → length nv ≡ 2 ^ n
    → ((i : ℕ) → i < 2 ^ n → k i ≡ g i)
    → IsInjection n g
    → Moves rt n g v
        (ok (dense n (par_for rt.order 0 (pow2 n) (λ lcv nv. set nv (k lcv) (read rt v lcv)) nv)))
loop-Moves {A = A} {rt = rt} r n g k v nv small e same inj =
    let loop : ℕ → List A =
      λ m. par_for rt.order 0 m (λ lcv nv. set nv (k lcv) (read rt v lcv)) nv in
    let inj' : IsInjection n k = record {
      within = λ i h. omega (arith, same i h, inj.within i h);
      apart = λ i j h l q. inj.apart i j h l (omega (arith, same i h, same j l, q));
    } in
    let m = par_for-IsMoved r n k v nv inj' e in
    (
      loop (2 ^ n),
      ap (λ m. ok (dense n (loop m))) (pow2-power n small),
      record {
        sized = m.sized;
        moved = λ i h. ap (read rt (loop (2 ^ n))) (sym (same i h)) ∙ m.moved i h;
      },
    )

-- The checks that the operations on a register share: a range that is not bad, and two tests after
-- which nothing is left to do.
pub guarded-Moves :
    {A : Type 0} {rt : Runtime A} {n : ℕ} {g : ℕ → ℕ} {v : List A} (bad none_left nothing : Bool)
    (rest : Engine A)
    → bad ≡ false
    → (none_left ≡ true → Moves rt n g v (ok (dense n v)))
    → (nothing ≡ true → Moves rt n g v (ok (dense n v)))
    → (none_left ≡ false → nothing ≡ false → Moves rt n g v (ok rest))
    → Moves rt n g v (
        if bad
        then err invalid_argument
        else ok (if none_left then dense n v else if nothing then dense n v else rest))
guarded-Moves true b c rest e p q s = absurd (ground (arith, e))
guarded-Moves false true c rest e p q s = p refl
guarded-Moves false false true rest e p q s = q refl
guarded-Moves false false false rest e p q s = s refl refl

pub get_or_beyond : {A : Type 0} (d : A) (xs : List A) (i : ℕ) → length xs ≤ i → get_or xs i d ≡ d
get_or_beyond d [] i h = refl
get_or_beyond d (x ∷ xs) zero h = absurd (omega arith)
get_or_beyond d (x ∷ xs) (suc i) h = get_or_beyond d xs i (omega arith)

-- Moving every index and moving it back leaves the vector.
pub IsMoved-back :
    {A : Type 0} {rt : Runtime A} {n : ℕ} {g h : ℕ → ℕ} {v w u : List A}
    → length v ≡ 2 ^ n
    → IsMoved rt n g v w
    → IsMoved rt n h w u
    → ((i : ℕ) → i < 2 ^ n → g i < 2 ^ n)
    → ((i : ℕ) → i < 2 ^ n → h (g i) ≡ i)
    → u ≡ v
IsMoved-back {rt = rt} {n = n} {g = g} {h = h} {v = v} {w = w} {u = u} e p q within back =
    get_or_ext rt.zero_amp u v (q.sized ∙ sym e) (λ i. elim (Bool-cases (ltb i (2 ^ n))) [
      | inl b ↦
          let c : i < 2 ^ n = ground (arith, b) in
          ap (read rt u) (sym (back i c)) ∙ q.moved (g i) (within i c) ∙ p.moved i c
      | inr b ↦
          get_or_beyond rt.zero_amp u i (ground (arith, b, q.sized))
          ∙ sym (get_or_beyond rt.zero_amp v i (ground (arith, b, e)))
    ])

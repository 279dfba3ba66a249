-- ===== src/Parallel/Coverage.antt =====
-- What the threads of a loop have done together, by counting.
use qrack.Prelude.{
  ℕ, zero, suc, ◌+◌, ◌-◌, ◌*◌, ◌%◌, ◌<◌, ◌≤◌, ◌≡◌, ◌==◌, refl, ap, ◌∙◌, arith, false, ◌&&◌, List,
  [], ◌∷◌, ◌++◌, length, length-set, length-replicate, set, get_or, replicate, ltb, leb,
  if◌then◌else◌, Bool-cases, inl, inr,
}
use native.Mathlib.Nat.{mod-eq_of_lt, mul-le-mul_right}
use qrack.BigInteger.Words.{word_power}
use qrack.Parallel.Order.{count}
use qrack.Parallel.Threads.{
  Worker, idle, running, finished, Pool, start_pool, is_finished, claimed, act, advance, Reachable,
  begin, step,
}

-- The sum of `f` over the threads.
abbrev pub total : (Worker → ℕ) → List Worker → ℕ
total f [] = 0
total f (w ∷ ws) = f w + total f ws

total-set :
    (f : Worker → ℕ) (ws : List Worker) (w : ℕ) (x : Worker)
    → w < length ws
    → total f (set ws w x) + f (get_or ws w finished) ≡ total f ws + f x
total-set f [] w x h = absurd (omega arith)
total-set f (y ∷ ws) zero x h = omega arith
total-set f (y ∷ ws) (suc w) x h = omega (arith, total-set f ws w x (omega arith))

total-replicate : (f : Worker → ℕ) (n : ℕ) (w : Worker) → total f (replicate n w) ≡ n * f w
total-replicate f zero w = omega arith
total-replicate f (suc n) w = omega (arith, total-replicate f n w)

-- A thread that is not there is taken for one that has finished.
within : (ws : List Worker) (w : ℕ) → is_finished (get_or ws w finished) ≡ false → w < length ws
within [] w h = absurd (ground (arith, h))
within (y ∷ ws) zero h = omega arith
within (y ∷ ws) (suc w) h = omega (arith, within ws w h)

count-append :
    (j k : ℕ) (ks : List ℕ) → count j (ks ++ k ∷ []) ≡ count j ks + (if k == j then 1 else 0)
count-append j k [] = ground arith
count-append j k (i ∷ ks) = omega (arith, count-append j k ks)

-- Whether a thread has still to run iteration `j` of its stride.
abbrev pub pending : ℕ → Worker → ℕ
pending j idle = 0
pending j (running k top) = if leb k j && ltb j top then 1 else 0
pending j finished = 0

abbrev pub leaving : Worker → ℕ
leaving idle = 0
leaving (running k top) = 0
leaving finished = 1

-- The most steps that a thread takes before its next claim, and for that claim.
abbrev pub ahead : Worker → ℕ
ahead idle = 1
ahead (running k top) = (top - k) + 2
ahead finished = 0

leaving_one : (w : Worker) → leaving w ≤ 1
leaving_one idle = omega arith
leaving_one (running k top) = omega arith
leaving_one finished = omega arith

leaving_all : (ws : List Worker) → total leaving ws ≤ length ws
leaving_all [] = omega arith
leaving_all (w ∷ ws) = omega (arith, leaving_one w, leaving_all ws)

total_bound :
    (ws : List Worker) (w : ℕ)
    → is_finished (get_or ws w finished) ≡ false
    → total leaving ws < length ws
total_bound [] w h = absurd (ground (arith, h))
total_bound (idle ∷ ws) zero h = omega (arith, leaving_all ws)
total_bound (running k top ∷ ws) zero h = omega (arith, leaving_all ws)
total_bound (finished ∷ ws) zero h = absurd (ground (arith, h))
total_bound (y ∷ ws) (suc w) h = omega (arith, leaving_one y, total_bound ws w h)

module _ (item_count stride : ℕ) where
  -- Every iteration has been run, is part of a claimed stride or is unclaimed; the counter passes the
  -- last iteration by the threads that have left at most; and the steps that are left.
  pub record IsFair (threads n : ℕ) (p : Pool) : Type 0 where
    pub sized : length p.workers ≡ threads
    pub once :
        (j : ℕ)
        → count j p.trace
            + total (pending j) p.workers
            + (if leb (p.idx * stride) j && ltb j item_count then 1 else 0)
          ≡ (if ltb j item_count then 1 else 0)
    pub counter : p.idx * stride < item_count + stride + total leaving p.workers * stride
    pub left : 0 < total leaving p.workers → item_count ≤ p.idx * stride
    pub steps :
        n + total ahead p.workers + 3 * (item_count - p.idx * stride) ≤ 3 * item_count + threads

  begin-IsFair : (threads : ℕ) → 0 < stride → IsFair threads 0 (start_pool threads)
  begin-IsFair threads pos = record {
    sized = length-replicate threads idle;
    once = λ j. ground (arith, total-replicate (pending j) threads idle);
    counter = omega (arith, total-replicate leaving threads idle);
    left = λ h. absurd (omega (arith, total-replicate leaving threads idle));
    steps = omega (arith, total-replicate ahead threads idle);
  }

  -- A thread that claims.
  claim-IsFair :
      {threads n : ℕ} {p : Pool} (w : ℕ)
      → 0 < stride
      → item_count + threads * stride < word_power
      → get_or p.workers w finished ≡ idle
      → w < length p.workers
      → total leaving p.workers < length p.workers
      → IsFair threads n p
      → IsFair threads (n + 1) (act item_count stride p w idle)
  unfolding claimed act
  claim-IsFair {threads = threads} {n = n} {p = p} w pos small e h room fair =
      let x = claimed item_count stride p.idx in
      let ws = p.workers in
      let t = total leaving ws in
      let spread : (t + 1) * stride ≤ threads * stride =
        mul-le-mul_right stride (omega (arith, fair.sized)) in
      let whole : p.idx * stride % word_power ≡ p.idx * stride =
        mod-eq_of_lt (omega (arith, fair.counter, spread)) in
      record {
        sized = length-set p.workers w x ∙ fair.sized;
        once = λ j. ground (arith, fair.once j, total-set (pending j) p.workers w x h, e, whole);
        counter =
            grind (arith, fair.counter, fair.left, total-set leaving p.workers w x h, e, whole);
        left = λ q. ground (arith, fair.left, total-set leaving p.workers w x h, e, whole);
        steps = ground (arith, fair.steps, total-set ahead p.workers w x h, e, whole);
      }

  -- A thread inside its stride.
  work-IsFair :
      {threads n : ℕ} {p : Pool} (w k top : ℕ)
      → get_or p.workers w finished ≡ running k top
      → w < length p.workers
      → IsFair threads n p
      → IsFair threads (n + 1) (act item_count stride p w (running k top))
  unfolding act
  work-IsFair {p = p} w k top e h fair = elim (Bool-cases (ltb k top)) [
    | inl q ↦
        let x = running (k + 1) top in
        let ws = p.workers in
        rw q (record {
          sized = length-set ws w x ∙ fair.sized;
          once = λ j.
              ground (
                arith,
                fair.once j,
                total-set (pending j) ws w x h,
                count-append j k p.trace,
                e,
                q,
              );
          counter = ground (arith, fair.counter, total-set leaving ws w x h, e);
          left = λ r. ground (arith, fair.left, total-set leaving ws w x h, e);
          steps = ground (arith, fair.steps, total-set ahead ws w x h, e, q);
        })
    | inr q ↦
        let ws = p.workers in
        rw q (record {
          sized = length-set ws w idle ∙ fair.sized;
          once = λ j. ground (arith, fair.once j, total-set (pending j) ws w idle h, e, q);
          counter = ground (arith, fair.counter, total-set leaving ws w idle h, e);
          left = λ r. ground (arith, fair.left, total-set leaving ws w idle h, e);
          steps = ground (arith, fair.steps, total-set ahead ws w idle h, e, q);
        })
  ]

  act-IsFair :
      {threads n : ℕ} {p : Pool} (w : ℕ) (s : Worker)
      → 0 < stride
      → item_count + threads * stride < word_power
      → get_or p.workers w finished ≡ s
      → is_finished s ≡ false
      → IsFair threads n p
      → IsFair threads (n + 1) (act item_count stride p w s)
  act-IsFair {p = p} w idle pos small e h fair =
      let b = ap is_finished e ∙ h in
      claim-IsFair w pos small e (within p.workers w b) (total_bound p.workers w b) fair
  act-IsFair {p = p} w (running k top) pos small e h fair =
      work-IsFair w k top e (within p.workers w (ap is_finished e ∙ h)) fair
  act-IsFair w finished pos small e h fair = absurd (ground (arith, h))

  -- Every pool that the threads reach is fair.
  pub Reachable-IsFair :
      {threads n : ℕ} {p : Pool}
      → 0 < stride
      → item_count + threads * stride < word_power
      → Reachable item_count stride threads n p
      → IsFair threads n p
  unfolding advance
  Reachable-IsFair {threads = threads} pos small begin = begin-IsFair threads pos
  Reachable-IsFair pos small (step {p = p} r w h) =
      act-IsFair w (get_or p.workers w finished) pos small refl h (Reachable-IsFair pos small r)

-- ===== src/Parallel/Schedule.antt =====
-- The order of a loop's iterations under any scheduler of its threads.
use qrack.Prelude.{
  ℕ, zero, suc, ◌+◌, ◌*◌, ◌<◌, ◌≤◌, ◌≡◌, refl, arith, true, false, ◌&&◌, List, [], ◌∷◌, length,
  get_or, ltb, leb, if◌then◌else◌, ◌⊎◌, if_split, inl, inr,
}
use qrack.BigInteger.Words.{word_power}
use qrack.Parallel.Order.{count, IsOrder}
use qrack.Parallel.Coverage.{total, pending, leaving, Reachable-IsFair}
use qrack.Parallel.Threads.{
  Worker, idle, running, finished, Pool, is_finished, advance, Reachable, step, all_finished, run,
  from_to,
}

nothing_left :
    (f : Worker → ℕ) (ws : List Worker) → f finished ≡ 0 → all_finished ws ≡ true → total f ws ≡ 0
nothing_left f [] z h = refl
nothing_left f (idle ∷ ws) z h = absurd (ground (arith, h))
nothing_left f (running k top ∷ ws) z h = absurd (ground (arith, h))
nothing_left f (finished ∷ ws) z h = omega (arith, z, nothing_left f ws z h)

all_leaving : (ws : List Worker) → all_finished ws ≡ true → total leaving ws ≡ length ws
all_leaving [] h = refl
all_leaving (idle ∷ ws) h = absurd (ground (arith, h))
all_leaving (running k top ∷ ws) h = absurd (ground (arith, h))
all_leaving (finished ∷ ws) h = omega (arith, all_leaving ws h)

-- When the threads of a loop have all left it, whatever the interleaving, each of its iterations has
-- been run exactly once and nothing else has. There is a thread at least, the stride is not 0, and
-- the iterations and a stride for each thread fit in a word.
pub threads-IsOrder :
    {item_count stride threads n : ℕ} {p : Pool}
    → 0 < stride
    → 0 < threads
    → item_count + threads * stride < word_power
    → Reachable item_count stride threads n p
    → all_finished p.workers ≡ true
    → IsOrder item_count p.trace
threads-IsOrder {item_count = item_count} {stride = stride} {p = p} pos some small r h j =
    let fair = Reachable-IsFair item_count stride pos small r in
    ground (
      arith,
      fair.once j,
      fair.left (omega (arith, all_leaving p.workers h, fair.sized)),
      nothing_left (pending j) p.workers refl h,
    )

count-from_to : (k n j : ℕ) → count j (from_to k n) ≡ (if leb k j && ltb j (k + n) then 1 else 0)
unfolding from_to
count-from_to k zero j = ground arith
count-from_to k (suc n) j = ground (arith, count-from_to (k + 1) n j)

pub from_to-IsOrder : (n : ℕ) → IsOrder n (from_to 0 n)
from_to-IsOrder n j = ground (arith, count-from_to 0 n j)

-- A scheduler that picks a thread that has not left, as long as there is one.
abbrev pub IsScheduler : (Pool → ℕ) → Type 0
IsScheduler pick =
    (p : Pool)
    → all_finished p.workers ≡ false
    → is_finished (get_or p.workers (pick p) finished) ≡ false

-- A run is reachable, and uses its fuel up or ends with every thread out of the loop.
abbrev pub Ends : ℕ → ℕ → ℕ → ℕ → Pool → Type 0
Ends item_count stride threads bound p =
    (m : ℕ) × Reachable item_count stride threads m p
    × ((all_finished p.workers ≡ true) ⊎ (bound ≤ m))

pub run-Ends :
    {item_count stride threads : ℕ} {pick : Pool → ℕ}
    → IsScheduler pick
    → (fuel : ℕ) {n : ℕ} {p : Pool} → Reachable item_count stride threads n p
    → Ends item_count stride threads (n + fuel) (run item_count stride pick fuel p)
unfolding run
run-Ends fair zero {n = n} r = (n, r, inr (omega arith))
run-Ends {item_count = item_count} {stride = stride} {threads = threads} {pick = pick} fair
      (suc fuel) {n = n} {p = p} r =
    if_split (Ends item_count stride threads (n + suc fuel)) (all_finished p.workers) _ _
      (λ h. (n, r, inl h))
      (λ h.
        let (m, q, e) =
          run-Ends fair fuel {n = n + 1} {p = advance item_count stride (pick p) p}
            (step r (pick p) (fair p h)) in
        (m, q, elim e [ inl z ↦ inl z | inr z ↦ inr (omega arith) ]))

-- ===== src/Parallel/Threads.antt =====
-- The threads of `par_for_inc` (src/common/parallel_for.cpp): each claims a stride of the iterations
-- with one atomic increment, runs it, and claims the next.
use qrack.Prelude.{
  ℕ, zero, suc, ◌+◌, ◌-◌, ◌*◌, ◌/◌, ◌%◌, ◌^◌, ◌≡◌, Bool, true, false, ◌&&◌, List, [], ◌∷◌, set,
  get_or, replicate, map, ltb, leb, if◌then◌else◌, ◌++◌,
}
use qrack.BigInteger.Words.{word_power}

-- A thread before a claim, inside the claimed stride (its next iteration and the stride's end), or
-- after its loop.
pub data Worker : Type 0 where
  idle : Worker
  running : ℕ → ℕ → Worker
  finished : Worker

-- The shared counter `idx`, the threads, and the iterations that have been run so far.
pub record Pool : Type 0 where
  pub idx : ℕ
  pub workers : List Worker
  pub trace : List ℕ

-- The number of threads that share a loop, an `unsigned` of 32 bits; with one at most the caller runs
-- the loop itself.
unfoldable pub thread_count : ℕ → ℕ → ℕ → ℕ
thread_count item_count stride cores =
    let threads = item_count / stride % 2 ^ 32 in if ltb cores threads then cores else threads

abbrev pub start_pool : ℕ → Pool
start_pool threads = record { idx = 0; workers = replicate threads idle; trace = [] }

abbrev pub is_finished : Worker → Bool
is_finished idle = false
is_finished (running k top) = false
is_finished finished = true

abbrev pub all_finished : List Worker → Bool
all_finished [] = true
all_finished (w ∷ ws) = is_finished w && all_finished ws

-- The sequential loop, from iteration `k`.
unfoldable pub from_to : ℕ → ℕ → List ℕ
from_to k zero = []
from_to k (suc n) = k ∷ from_to (k + 1) n

module _ (item_count stride : ℕ) where
  -- What a thread that has claimed number `i` does next: it leaves its loop or starts its stride.
  unfoldable pub claimed : ℕ → Worker
  claimed i =
      let l = i * stride % word_power in
      if leb item_count l
      then finished
      else running l (l + (if ltb (l + stride) item_count then stride else item_count - l))

  -- One step of thread `w` in state `state`.
  unfoldable pub act : Pool → ℕ → Worker → Pool
  act p w idle = record {
    idx = p.idx + 1;
    workers = set p.workers w (claimed p.idx);
    trace = p.trace;
  }
  act p w (running k top) =
      if ltb k top
      then record {
        idx = p.idx;
        workers = set p.workers w (running (k + 1) top);
        trace = p.trace ++ k ∷ [];
      }
      else record { idx = p.idx; workers = set p.workers w idle; trace = p.trace }
  act p w finished = p

  unfoldable pub advance : ℕ → Pool → Pool
  advance w p = act p w (get_or p.workers w finished)

  -- The pools that `threads` threads reach in `n` steps, in any interleaving.
  pub data Reachable (threads : ℕ) : ℕ → Pool → Type 0 where
    begin : Reachable threads 0 (start_pool threads)
    step :
        {n : ℕ} {p : Pool}
        → Reachable threads n p
        → (w : ℕ) → is_finished (get_or p.workers w finished) ≡ false
        → Reachable threads (n + 1) (advance w p)

  -- A run in which `pick` chooses the thread that moves next, with fuel.
  unfoldable pub run : (Pool → ℕ) → ℕ → Pool → Pool
  run pick zero p = p
  run pick (suc fuel) p =
      let rest = run pick fuel (advance (pick p) p) in if all_finished p.workers then p else rest

-- The loop variables that `par_for_inc` hands to `inc`, in the order in which they are run: the caller's
-- loop ends at `begin + itemCount`, which may wrap, and a thread hands `begin + k` to `inc`.
unfoldable pub loop_order : (Pool → ℕ) → ℕ → ℕ → ℕ → ℕ → List ℕ
loop_order pick stride cores from item_count =
    let threads = thread_count item_count stride cores in
    let max_lcv = (from + item_count) % word_power in
    if leb threads 1
    then from_to from (max_lcv - from)
    else map (λ k. (from + k) % word_power)
        (run item_count stride pick (3 * item_count + threads + 1) (start_pool threads)).trace

-- ===== src/Parallel/Tests.antt =====
-- The theorems on the loops at concrete threads.
use qrack.Prelude.{ℕ, suc, ◌≡◌, refl, arith, true, false, ◌&&◌, List, [], ◌∷◌, get_or, ltb, ◌==◌}
use qrack.Parallel.Order.{IsOrder, par_for_skip}
use qrack.Parallel.Threads.{
  Worker, idle, running, finished, Pool, start_pool, is_finished, all_finished, claimed, act,
  advance, begin, run, from_to,
}
use qrack.Bits.Word.{field}
use qrack.Parallel.Skip.{Runs, par_for_skip-Runs}
use qrack.Parallel.Schedule.{IsScheduler, Ends, run-Ends, threads-IsOrder, from_to-IsOrder}

-- The first thread that has not left.
abbrev first_busy : List Worker → ℕ
first_busy [] = 0
first_busy (finished ∷ ws) = suc (first_busy ws)
first_busy (idle ∷ ws) = 0
first_busy (running k top ∷ ws) = 0

abbrev pick_first : Pool → ℕ
pick_first p = first_busy p.workers

first_busy-is_finished :
    (ws : List Worker)
    → all_finished ws ≡ false
    → is_finished (get_or ws (first_busy ws) finished) ≡ false
first_busy-is_finished [] h = absurd (ground (arith, h))
first_busy-is_finished (finished ∷ ws) h = first_busy-is_finished ws h
first_busy-is_finished (idle ∷ ws) h = refl
first_busy-is_finished (running k top ∷ ws) h = refl

pick_first-IsScheduler : IsScheduler pick_first
pick_first-IsScheduler p h = first_busy-is_finished p.workers h

abbrev end_pool : Pool
end_pool = run 5 2 pick_first 20 (start_pool 2)

end_pool-Ends : Ends 5 2 2 20 end_pool
end_pool-Ends = run-Ends pick_first-IsScheduler 20 begin

end_pool-all_finished : all_finished end_pool.workers ≡ true
unfolding run advance act claimed
end_pool-all_finished = refl

threads-IsOrder_example : IsOrder 5 end_pool.trace
threads-IsOrder_example =
    threads-IsOrder (omega arith) (omega arith) (omega arith) end_pool-Ends.1 end_pool-all_finished

par_for_skip-Runs_example :
    Runs
      (λ k. ltb k 8 && field 1 1 k == 0)
      (λ i trace. i ∷ trace)
      []
      (par_for_skip (from_to 0) 0 8 2 1 (λ i trace. i ∷ trace) [])
par_for_skip-Runs_example =
    par_for_skip-Runs (from_to 0) 3 1 1 (λ i trace. i ∷ trace) [] (λ m. from_to-IsOrder m)
      (omega arith) (omega arith)

-- ===== src/Tasks/Limit/Tests.antt =====
-- Calls with one task.
use task_pool_concurrency_im.Prelude.{
  ℕ, zero, suc, ◌*◌, ◌≤◌, ◌≡◌, refl, Option, some, List, [], ◌∷◌, arith,
}
use task_pool_concurrency_im.Tasks.Counter.{counter, counter-IsSemaphore}
use task_pool_concurrency_im.Tasks.{Stage, waiting, finished}
use task_pool_concurrency_im.Tasks.Stages.{Answers}
use task_pool_concurrency_im.Tasks.Limit.{
  Main, returned, spawning, awaiting, Run, run_with_limit, Step, advances, acquires, ends, Steps,
  start, then_step, advance, with_semaphore, advance_from,
}
use task_pool_concurrency_im.Tasks.Limit.Bounds.{running_count-limit}
use task_pool_concurrency_im.Tasks.Limit.Progress.{run_with_limit-Ended}
use task_pool_concurrency_im.Tasks.Limit.Zero.{run_with_limit-Unfinished, Unfinished, AllWait}

-- A task ends with twice its number.
abbrev Doubles : ℕ → Option ℕ → Type 0
Doubles task o = o ≡ some (2 * task)

abbrev at : ℕ → List (Stage ℕ ℕ) → Main ℕ ℕ → Run counter ℕ ℕ
at s hs m = record { semaphore = s; handles = hs; main = m }

abbrev begun : ℕ → Run counter ℕ ℕ
begun limit = at limit [] (spawning (3 ∷ []))

abbrev ended : Run counter ℕ ℕ
ended = at 1 (finished (some 6) ∷ []) (returned (6 ∷ []))

begins : (limit : ℕ) → run_with_limit counter (3 ∷ []) limit ≡ some (begun limit)
unfolding run_with_limit
begins limit = refl

moves :
    (r : Run counter ℕ ℕ) (r' : Run counter ℕ ℕ)
    → with_semaphore counter r.semaphore (advance_from counter r.main r.handles) ≡ some r'
    → Step counter Doubles r r'
unfolding advance
moves r r' e = advances r' e

full_run : Steps counter Doubles (begun 1) 6 ended
full_run =
    then_step
      (then_step
        (then_step
          (then_step
            (then_step
              (then_step start (moves (begun 1) (at 1 (waiting 3 ∷ []) (spawning [])) refl))
              (acquires 0 3 0 refl refl))
            (ends 0 3 (some 6) refl refl))
          (moves (at 1 (finished (some 6) ∷ []) (spawning []))
            (at 1 (finished (some 6) ∷ []) (awaiting [])) refl))
        (moves (at 1 (finished (some 6) ∷ []) (awaiting []))
          (at 1 (finished (some 6) ∷ []) (awaiting (6 ∷ []))) refl))
      (moves (at 1 (finished (some 6) ∷ []) (awaiting (6 ∷ []))) ended refl)

stands_still : (r : Run counter ℕ ℕ) → ¬ Step counter Doubles ended r
unfolding advance
stands_still r (advances _ e) = absurd (ground (arith, e))
stands_still _ (acquires zero task s e a) = absurd (ground (arith, e))
stands_still _ (acquires (suc i) task s e a) = absurd (ground (arith, e))
stands_still _ (ends zero task s e a) = absurd (ground (arith, e))
stands_still _ (ends (suc i) task s e a) = absurd (ground (arith, e))

running_count-limit_example : (0 ≤ 1) × (6 ≤ 6)
running_count-limit_example =
    running_count-limit counter 100 (λ n. n) counter-IsSemaphore Doubles (3 ∷ []) 1 6 (begun 1)
      ended (omega arith) (begins 1) full_run

run_with_limit-Ended_example : Answers Doubles (6 ∷ []) (3 ∷ [])
run_with_limit-Ended_example =
    run_with_limit-Ended counter 100 (λ n. n) counter-IsSemaphore Doubles (3 ∷ []) 1 6 (begun 1)
      ended (omega arith) (omega arith) (λ task. (some (2 * task), refl)) (begins 1) full_run
      stands_still

abbrev waits_for_ever : Run counter ℕ ℕ
waits_for_ever = at 0 (waiting 3 ∷ []) (awaiting [])

short_run : Steps counter Doubles (begun 0) 2 waits_for_ever
short_run =
    then_step (then_step start (moves (begun 0) (at 0 (waiting 3 ∷ []) (spawning [])) refl))
      (moves (at 0 (waiting 3 ∷ []) (spawning [])) (at 0 (waiting 3 ∷ []) (awaiting [])) refl)

run_with_limit-Unfinished_example : Unfinished waits_for_ever.main × AllWait waits_for_ever.handles
run_with_limit-Unfinished_example =
    run_with_limit-Unfinished counter 100 (λ n. n) counter-IsSemaphore Doubles (3 ∷ []) 2 (begun 0)
      waits_for_ever (omega arith) (begins 0) short_run

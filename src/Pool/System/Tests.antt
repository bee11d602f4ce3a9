-- ===== src/Pool/System/Tests.antt =====
-- Two threads and a pool with one frame: the first makes a page and gives it back, and the second starts
-- to write it back.
use task_pool_concurrency_im.Prelude.{ℕ, refl, List, Outcome, ok, IoError}
use task_pool_concurrency_im.Pool.Manager.Flush.{unpin_page, begin_flush}
use task_pool_concurrency_im.Pool.Manager.Create.{begin_new_page}
use task_pool_concurrency_im.Pool.System.{
  System, at_rest, after, begun_job, flushed_job, start, then_step, begins_new, unpins,
  begins_flush,
}
use task_pool_concurrency_im.Pool.System.Start.{unused, new-unused}
use task_pool_concurrency_im.Pool.System.Safety.{IsSafe, Reach-IsSafe}
use task_pool_concurrency_im.Pool.System.Stays.{Stays}
use task_pool_concurrency_im.Pool.System.Growth.{Reach-Stays}

abbrev takes : ℕ → List ℕ → Outcome IoError (Unit {0})
takes page_id bytes = ok tt

abbrev fresh : System
fresh = at_rest (unused 1)

abbrev made : System
made = after fresh 0 ((begin_new_page fresh.pool).0) (begun_job ((begin_new_page fresh.pool).1))

abbrev given_back : System
given_back = record made { pool = (unpin_page 0 made.pool).0 }

abbrev writing : System
writing =
    after given_back 1 ((begin_flush takes 0 given_back.pool).0)
      (flushed_job 0 ((begin_flush takes 0 given_back.pool).1))

Reach-IsSafe_example : IsSafe writing
Reach-IsSafe_example = Reach-IsSafe (ok tt) 1 (unused 1) writing (new-unused 1) (
    then_step (then_step (then_step start (begins_new 0 refl (λ u n. refl))) (unpins 0))
      (begins_flush takes 1 0 refl))

Reach-Stays_example : Stays given_back.pool writing.pool
Reach-Stays_example =
    Reach-Stays (ok tt) 1 (unused 1) given_back writing (new-unused 1)
      (then_step (then_step start (begins_new 0 refl (λ u n. refl))) (unpins 0))
      (begins_flush takes 1 0 refl)

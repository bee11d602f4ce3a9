-- ===== src/Pool/System/Steps.antt =====
-- Each section of each method keeps the pool consistent, and so do all that follow one another.
use task_pool_concurrency_im.Prelude.{
  ℕ, ◌≡◌, inl, inr, refl, Option, none, some, Outcome, ok, err, panic, IoError, arith, ◌∙◌, ap, sym,
  subst, ℕ_discrete, Option-cases,
}
use task_pool_concurrency_im.Pool.Metrics
use task_pool_concurrency_im.Pool.Manager
use task_pool_concurrency_im.Pool.Manager.{BufferPoolManager, BufferPoolError, Victim}
use task_pool_concurrency_im.Pool.Manager.Fetch.{
  Decision, resident_in, wait_for_frame, wait_for_load, load_into, evict,
}
use task_pool_concurrency_im.Pool.System.{
  Job, idle, new_of, update, System, Alone, Step, Reach, start, then_step, at_rest, after, decided,
  flushed_job, deleted_job, counts, decides, abandons, fills, publishes, keeps, commits, unpins,
  marks, begins_flush, finishes_flush, begins_delete, finishes_delete, begins_new, keeps_new,
  commits_new,
}
use task_pool_concurrency_im.Pool.System.Invariant.{vacant, IsSound}
use task_pool_concurrency_im.Pool.System.Steady.{recount-IsSound}
use task_pool_concurrency_im.Pool.System.Touch.{IsConsistent}
use task_pool_concurrency_im.Pool.System.Uses.{unpin_page-IsSound, mark_dirty_page-IsSound}
use task_pool_concurrency_im.Pool.System.Rounds.{decide-Goes}
use task_pool_concurrency_im.Pool.System.Fetches
use task_pool_concurrency_im.Pool.System.Flushes
use task_pool_concurrency_im.Pool.System.Deletes
use task_pool_concurrency_im.Pool.System.Creates
use task_pool_concurrency_im.Pool.System.Start.{new-ok, unused-IsSound}

-- At most one thread makes a page in place of another.
pub Single : System → Type 0
Single z = (t u n m : ℕ) → new_of (z.jobs t) ≡ some n → new_of (z.jobs u) ≡ some m → t ≡ u

others-Alone : (z : System) (t n : ℕ) → Single z → new_of (z.jobs t) ≡ some n → Alone z t
unfolding Single
others-Alone z t n single h u d = elim (Option-cases (new_of (z.jobs u))) [
  | inl e ↦ e
  | inr (m, e) ↦ absurd (d (single u t m n e h))
]

Single-other :
    (z : System) (t : ℕ) (s : BufferPoolManager) (j : Job)
    → new_of j ≡ none
    → Single z
    → Single (after z t s j)
unfolding Single
Single-other z t s j h single u w n m a b = single u w n m (kept_new u n a) (kept_new w m b)
  where
    kept_new : (u n : ℕ) → new_of (update z.jobs t j u) ≡ some n → new_of (z.jobs u) ≡ some n
    kept_new u n a = elim (ℕ_discrete t u) [ yes e ↦ absurd (ground arith) | no d ↦ ground arith ]

Single-first :
    (z : System) (t : ℕ) (s : BufferPoolManager) (j : Job) → Alone z t → Single (after z t s j)
unfolding Single
Single-first z t s j alone u w n m a b = sym (mine u n a) ∙ mine w m b
  where
    mine : (u n : ℕ) → new_of (update z.jobs t j u) ≡ some n → t ≡ u
    mine u n a = elim (ℕ_discrete t u) [
      | yes e ↦ e
      | no d ↦ let none_new = alone u (λ e. d (sym e)) in absurd (ground arith)
    ]

decided-new : (p : ℕ) (r : Outcome BufferPoolError Decision) → new_of (decided p r) ≡ none
decided-new p (ok (resident_in i)) = refl
decided-new p (ok wait_for_frame) = refl
decided-new p (ok wait_for_load) = refl
decided-new p (ok (load_into i)) = refl
decided-new p (ok (evict v)) = refl
decided-new p (err e) = refl
decided-new p panic = refl

flushed_job-new : (p : ℕ) (r : Outcome BufferPoolError (Option ℕ)) → new_of (flushed_job p r) ≡ none
flushed_job-new p (ok none) = refl
flushed_job-new p (ok (some i)) = refl
flushed_job-new p (err e) = refl
flushed_job-new p panic = refl

deleted_job-new : (p : ℕ) (r : Outcome BufferPoolError (Option ℕ)) → new_of (deleted_job p r) ≡ none
deleted_job-new p (ok none) = refl
deleted_job-new p (ok (some i)) = refl
deleted_job-new p (err e) = refl
deleted_job-new p panic = refl

abbrev pub Right : System → Type 0
Right z = IsConsistent z.pool z.jobs × Single z

Step-Right : (z x : System) → Right z → Step z x → Right x
Step-Right z x ((roles, v), single) counts = (
  (roles, recount-IsSound z.pool z.jobs roles (Metrics.record_fetch z.pool.metrics) v),
  unfold Single in single,
)
Step-Right z x (v, single) (decides t p b rests low) =
    (decide-Goes z.jobs t p rests z.pool b v low, Single-other z t _ _ (decided-new p _) single)
Step-Right z x (v, single) (abandons t p i job) =
    (Fetches.abandons z.pool z.jobs t p i v job, Single-other z t _ _ refl single)
Step-Right z x (v, single) (fills t p i buffer job sized) =
    (Fetches.fills z.pool z.jobs t p i buffer v job sized, Single-other z t _ _ refl single)
Step-Right z x (v, single) (publishes t p i job) =
    (Fetches.publishes z.pool z.jobs t p i v job, Single-other z t _ _ refl single)
Step-Right z x (v, single) (keeps t p w job) =
    (Fetches.keeps z.pool z.jobs t p w v job, Single-other z t _ _ refl single)
Step-Right z x (v, single) (commits t p w buffer job sized) =
    (Fetches.commits z.pool z.jobs t p w buffer v job sized, Single-other z t _ _ refl single)
Step-Right z x ((roles, v), single) (unpins p) =
    ((roles, unpin_page-IsSound z.pool z.jobs roles v p), unfold Single in single)
Step-Right z x ((roles, v), single) (marks p) =
    ((roles, mark_dirty_page-IsSound z.pool z.jobs roles v p), unfold Single in single)
Step-Right z x (v, single) (begins_flush write_page t p rests) = (
  Flushes.begins_flush write_page z.pool z.jobs t p v rests,
  Single-other z t _ _ (flushed_job-new p _) single,
)
Step-Right z x (v, single) (finishes_flush write_page t p i job total) = (
  Flushes.finishes_flush write_page z.pool z.jobs t p i v job total,
  Single-other z t _ _ refl single,
)
Step-Right z x (v, single) (begins_delete write_page t p rests) = (
  Deletes.begins_delete write_page z.pool z.jobs t p v rests,
  Single-other z t _ _ (deleted_job-new p _) single,
)
Step-Right z x (v, single) (finishes_delete write_page t p i job takes) = (
  Deletes.finishes_delete write_page z.pool z.jobs t p i v job takes,
  Single-other z t _ _ refl single,
)
Step-Right z x (v, single) (begins_new t rests alone) =
    (Creates.Begins-new z.pool z.jobs t v rests alone, Single-first z t _ _ alone)
Step-Right z x (v, single) (keeps_new t n w job) =
    (Creates.keeps_new z.pool z.jobs t n w v job, Single-other z t _ _ refl single)
Step-Right z x (v, single) (commits_new t n w job) = (
  Creates.commits_new z.pool z.jobs t n w v job (others-Alone z t n single (ap new_of job)),
  Single-other z t _ _ refl single,
)

pub Reach-Right : (z x : System) → Right z → Reach z x → Right x
Reach-Right z x v start = v
Reach-Right z x v (then_step {y} r step) = Step-Right y x (Reach-Right z y v r) step

pub at_rest-Right :
    (disk : Outcome IoError (Unit {0})) (pool_size : ℕ) (s : BufferPoolManager)
    → Manager.new disk pool_size ≡ ok s
    → Right (at_rest s)
at_rest-Right disk pool_size s h =
    let same = new-ok disk pool_size s h in
    (
      (
        (λ i. vacant),
        subst (λ (s : BufferPoolManager). IsSound s (λ t. idle) (λ i. vacant)) same
            (unused-IsSound pool_size),
      ),
      unfold Single in λ t u n m a b. absurd (ground arith),
    )

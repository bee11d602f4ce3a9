-- ===== src/Harness/Benchmark/Answer.antt =====
-- How `run_benchmark` ends.
use task_pool_concurrency_im.Prelude.{
  ℕ, ◌≤◌, ◌<◌, ◌≡◌, refl, ap, ◌∙◌, subst, Option, none, some, Bool, true, false, Outcome, ok, err,
  panic, IoError, arith, get_elem?, ltb, if◌then◌else◌, Option-cases, inl, inr,
}
use task_pool_concurrency_im.Tasks.{SemaphoreCalls, IsSemaphore, waiting, running, finished}
use task_pool_concurrency_im.Tasks.Stages.{running_count-pos}
use task_pool_concurrency_im.Harness.{AccessPattern}
use task_pool_concurrency_im.Harness.Benchmark.Reads.{read_all, Known, AllOwn-get_elem?}
use task_pool_concurrency_im.Harness.Benchmark.Total.{IsRun, Steps-IsRun, run_benchmark-IsRun}
use task_pool_concurrency_im.Harness.Benchmark.{
  BenchmarkResult, Main, spawning, summing, returned, failed, panicked, Read, Run, run_benchmark,
  spawn, result, add_bytes, goes_on, advance_from, advance, Step, advances, ends, Steps,
}

-- The call has ended as this loop of reads does.
abbrev pub Answered : (ℕ → BenchmarkResult) → Outcome IoError ℕ → Main → Type 0
Answered result sum (spawning operation) = ⊥
Answered result sum (summing next bytes) = ⊥
Answered result sum (returned r) = (bytes : ℕ) × (r ≡ result bytes) × (sum ≡ ok bytes)
Answered result sum (failed e) = sum ≡ err e
Answered result sum panicked = sum ≡ panic

module _ (calls : SemaphoreCalls) (max_permits : ℕ) (available : calls.Semaphore → ℕ)
    (counts : IsSemaphore calls max_permits available) (pattern : AccessPattern)
    (block_size queue_depth operations : ℕ) (outcome : ℕ → Outcome IoError ℕ)
    (some_permit : 0 < queue_depth) where
  abbrev IsRunOf : Run calls → Type 0
  IsRunOf =
      IsRun calls max_permits available counts pattern block_size queue_depth operations outcome

  abbrev Goes : Run calls → Type 0
  Goes r = (r' : Run calls) × Step calls pattern block_size queue_depth operations outcome r r'

  advance_some :
      (r r' : Run calls) (m : Main)
      → r.main ≡ m
      → advance_from calls pattern block_size queue_depth operations m r.semaphore r.handles
        ≡ some r'
      → Goes r
  unfolding advance
  advance_some r r' m e a = (
    r',
    advances r' (
        ap
          (λ n.
            advance_from calls pattern block_size queue_depth operations n r.semaphore r.handles)
          e
        ∙ a),
  )

  spawning-Goes :
      (r : Run calls) (operation : ℕ) (more : Bool) (o : Option calls.Semaphore)
      → r.main ≡ spawning operation
      → ltb operation operations ≡ more
      → calls.acquire r.semaphore ≡ o
      → IsRunOf r
      → Goes r
  spawning-Goes r operation false o m b a k = advance_some r _ (spawning operation) m (
      ap
        (λ t.
          if t
          then spawn calls pattern block_size queue_depth operations operation r.handles
              (calls.acquire r.semaphore)
          else goes_on calls pattern block_size queue_depth operations r.semaphore r.handles
              (some (summing 0 0)))
        b)
  spawning-Goes r operation true (some s) m b a k = advance_some r _ (spawning operation) m (
      ap
        (λ t.
          if t
          then spawn calls pattern block_size queue_depth operations operation r.handles
              (calls.acquire r.semaphore)
          else goes_on calls pattern block_size queue_depth operations r.semaphore r.handles
              (some (summing 0 0)))
        b
      ∙ ap (spawn calls pattern block_size queue_depth operations operation r.handles) a)
  spawning-Goes r operation true none m b a k = elim (running_count-pos r.handles) [
    | inl none_runs ↦
        absurd (omega (arith, counts.acquire_waits r.semaphore a, k.shared, none_runs, some_permit))
    | inr (i, t, e) ↦ (_, ends i t e)
  ]

  summing-Goes :
      (r : Run calls) (next bytes : ℕ) (o : Option Read)
      → r.main ≡ summing next bytes
      → get_elem? r.handles next ≡ o
      → IsRunOf r
      → Goes r
  summing-Goes r next bytes (some (running i)) m e k = (_, ends next i e)
  summing-Goes r next bytes (some (waiting i)) m e k = absurd (
      AllOwn-get_elem? calls pattern block_size queue_depth operations outcome 0 next r.handles next
        (waiting i) (omega arith) e k.own)
  summing-Goes r next bytes none m e k = advance_some r _ (summing next bytes) m (
      ap
        (λ h.
          goes_on calls pattern block_size queue_depth operations r.semaphore r.handles
            (add_bytes calls pattern block_size queue_depth operations next bytes h))
        e)
  summing-Goes r next bytes (some (finished o)) m e k =
      elim (Option-cases (
        add_bytes calls pattern block_size queue_depth operations next bytes (some (finished o)))) [
          | inl z ↦ absurd (ready o z)
          | inr (main, z) ↦ advance_some r _ (summing next bytes) m (
              ap
                (λ h.
                  goes_on calls pattern block_size queue_depth operations r.semaphore r.handles
                    (add_bytes calls pattern block_size queue_depth operations next bytes h))
                e
              ∙ ap (goes_on calls pattern block_size queue_depth operations r.semaphore r.handles)
                  z)
        ]
    where
      ready :
          (o : Option (Outcome IoError ℕ))
          → add_bytes calls pattern block_size queue_depth operations next bytes (some (finished o))
            ≡ none
          → ⊥
      ready none z = ground (arith, z)
      ready (some (ok n)) z = ground (arith, z)
      ready (some (err x)) z = ground (arith, z)
      ready (some panic) z = ground (arith, z)

  stuck-Answered :
      (r : Run calls) (m : Main)
      → r.main ≡ m
      → IsRunOf r
      → ((r' : Run calls) → ¬ Step calls pattern block_size queue_depth operations outcome r r')
      → Answered
          (result calls pattern block_size queue_depth operations)
          (read_all outcome operations 0 0)
          m
  stuck-Answered r (spawning operation) e k stuck =
      let (r', s) =
        spawning-Goes r operation (ltb operation operations) (calls.acquire r.semaphore) e refl refl
          k in
      absurd (stuck r' s)
  stuck-Answered r (summing next bytes) e k stuck =
      let (r', s) = summing-Goes r next bytes (get_elem? r.handles next) e refl k in
      absurd (stuck r' s)
  stuck-Answered r (returned x) e k stuck =
      subst (Known calls pattern block_size queue_depth operations outcome r.handles) e k.known
  stuck-Answered r (failed x) e k stuck =
      subst (Known calls pattern block_size queue_depth operations outcome r.handles) e k.known
  stuck-Answered r panicked e k stuck =
      subst (Known calls pattern block_size queue_depth operations outcome r.handles) e k.known

-- With a queue depth above 0, `run_benchmark` never comes to a standstill before it has ended, and however
-- the reads overlap it ends as a loop that reads one block after another does: with the sum of the bytes,
-- with the error of the first read that failed, or with a panic where the sum is no `u64`.
pub run_benchmark-read_all :
    (calls : SemaphoreCalls) (max_permits : ℕ) (available : calls.Semaphore → ℕ)
    → IsSemaphore calls max_permits available
    → (pattern : AccessPattern) (block_size queue_depth operations : ℕ)
      (outcome : ℕ → Outcome IoError ℕ) (n : ℕ) (r r' : Run calls)
    → 0 < queue_depth
    → queue_depth ≤ max_permits
    → run_benchmark calls pattern block_size queue_depth operations ≡ some r
    → Steps calls pattern block_size queue_depth operations outcome r n r'
    → ((x : Run calls) → ¬ Step calls pattern block_size queue_depth operations outcome r' x)
    → Answered
        (result calls pattern block_size queue_depth operations)
        (read_all outcome operations 0 0)
        r'.main
run_benchmark-read_all calls max_permits available counts pattern block_size queue_depth operations
      outcome n r r' p h e steps stuck =
    let (b, _) =
      run_benchmark-IsRun calls max_permits available counts pattern block_size queue_depth
        operations outcome r h e in
    let (a, _) =
      Steps-IsRun calls max_permits available counts pattern block_size queue_depth operations
        outcome r r' n steps b in
    stuck-Answered calls max_permits available counts pattern block_size queue_depth operations
      outcome p r' r'.main refl a stuck

-- ===== src/Harness/Benchmark/Total.antt =====
-- What holds at each step of `run_benchmark`, and how many steps it has left.
use task_pool_concurrency_im.Prelude.{
  ℕ, ◌+◌, ◌-◌, ◌*◌, ◌≤◌, ◌<◌, ◌≡◌, refl, ap, sym, ◌∙◌, subst, Option, none, some, List, [], ◌∷◌,
  ◌++◌, Bool, true, false, Outcome, IoError, arith, get_elem?, ltb, if◌then◌else◌, length-append,
  length-set, ltb→lt, ltb→ge,
}
use mathlib.Core.Option.{some-injective}
use task_pool_concurrency_im.Tasks.{SemaphoreCalls, IsSemaphore, running, finished}
use task_pool_concurrency_im.Tasks.Stages.{
  running_count, all_left, running_count-append, all_left-append, running_count-set, all_left-set,
}
use task_pool_concurrency_im.Harness.{AccessPattern}
use task_pool_concurrency_im.Harness.Benchmark.Reads.{
  read_all, AllOwn, Known, main_left, AllOwn-append, AllOwn-set, add_bytes-Known, length-Known,
}
use task_pool_concurrency_im.Harness.Benchmark.{
  Main, spawning, summing, returned, failed, panicked, Read, answer, Run, begin, run_benchmark,
  spawn, add_bytes, goes_on, advance_from, advance, Step, advances, ends, Steps, start, then_step,
}

module _ (calls : SemaphoreCalls) (max_permits : ℕ) (available : calls.Semaphore → ℕ)
    (counts : IsSemaphore calls max_permits available) (pattern : AccessPattern)
    (block_size queue_depth operations : ℕ) (outcome : ℕ → Outcome IoError ℕ) where
  abbrev pub KnownOf : List Read → Main → Type 0
  KnownOf = Known calls pattern block_size queue_depth operations outcome

  abbrev pub AllOwnOf : ℕ → List Read → Type 0
  AllOwnOf = AllOwn calls pattern block_size queue_depth operations outcome

  abbrev pub left_of : Main → ℕ
  left_of = main_left calls pattern block_size queue_depth operations outcome

  pub record IsRun (r : Run calls) : Type 0 where
    pub shared : available r.semaphore + running_count r.handles ≡ queue_depth
    pub own : AllOwnOf 0 r.handles
    pub known : KnownOf r.handles r.main

  abbrev pub run_left : Run calls → ℕ
  run_left r = left_of r.main + all_left r.handles

  spawned-IsRun :
      (r : Run calls) (operation : ℕ) (s : calls.Semaphore)
      → operation < operations
      → calls.acquire r.semaphore ≡ some s
      → r.main ≡ spawning operation
      → IsRun r
      → IsRun (record {
        semaphore = s;
        handles = r.handles ++ running operation ∷ [];
        main = spawning (operation + 1);
      })
  spawned-IsRun r operation s h a m k =
      let (l, _) = subst (KnownOf r.handles) m k.known in
      record {
        shared = omega (
          arith,
          counts.acquire_ok r.semaphore s a,
          running_count-append r.handles (running operation ∷ []),
          k.shared,
        );
        own =
            AllOwn-append calls pattern block_size queue_depth operations outcome 0 operation
              r.handles (omega (arith, l)) k.own;
        known =
            (omega (arith, l, length-append r.handles (running operation ∷ [])), omega (arith, h));
      }

  abbrev Advanced : Run calls → Run calls → Type 0
  Advanced r r' = IsRun r' × (run_left r' < run_left r)

  -- The loop that spawns: it takes a permit, or is done.
  spawning-Advanced :
      (r r' : Run calls) (operation : ℕ) (more : Bool) (o : Option calls.Semaphore)
      → ltb operation operations ≡ more
      → calls.acquire r.semaphore ≡ o
      → r.main ≡ spawning operation
      → (if more
          then spawn calls pattern block_size queue_depth operations operation r.handles o
          else goes_on calls pattern block_size queue_depth operations r.semaphore r.handles
              (some (summing 0 0)))
        ≡ some r'
      → IsRun r
      → Advanced r r'
  spawning-Advanced r r' operation true none b a m e k = absurd (ground (arith, e))
  spawning-Advanced r r' operation true (some s) b a m e k =
      let h = ltb→lt operation operations b in
      subst (Advanced r) (some-injective _ _ e) (
        spawned-IsRun r operation s h a m k,
        omega (arith, h, ap left_of m, all_left-append r.handles (running operation ∷ [])),
      )
  spawning-Advanced r r' operation false o b a m e k =
      let (l, h) = subst (KnownOf r.handles) m k.known in
      let g = ltb→ge operation operations b in
      let z : operations - 0 ≡ operations = omega arith in
      subst (Advanced r) (some-injective _ _ e) (
        record {
          shared = k.shared;
          own = k.own;
          known = (omega (arith, l, h, g), omega arith, ap (λ n. read_all outcome n 0 0) z);
        },
        omega (arith, h, ap left_of m),
      )

  -- The loop that awaits.
  summing-Advanced :
      (r r' : Run calls) (next bytes : ℕ) (o : Option Main)
      → add_bytes calls pattern block_size queue_depth operations next bytes
          (get_elem? r.handles next)
        ≡ o
      → r.main ≡ summing next bytes
      → goes_on calls pattern block_size queue_depth operations r.semaphore r.handles o ≡ some r'
      → IsRun r
      → Advanced r r'
  summing-Advanced r r' next bytes none a m e k = absurd (ground (arith, e))
  summing-Advanced r r' next bytes (some main) a m e k =
      let (n, l) =
        add_bytes-Known calls pattern block_size queue_depth operations outcome next bytes
          (get_elem? r.handles next) main r.handles a refl k.own
          (subst (KnownOf r.handles) m k.known) in
      subst (Advanced r) (some-injective _ _ e)
        (record { shared = k.shared; own = k.own; known = n }, omega (arith, l, ap left_of m))

  advance_from-Advanced :
      (r r' : Run calls) (m : Main)
      → r.main ≡ m
      → advance_from calls pattern block_size queue_depth operations m r.semaphore r.handles
        ≡ some r'
      → IsRun r
      → Advanced r r'
  advance_from-Advanced r r' (spawning operation) m e k =
      spawning-Advanced r r' operation (ltb operation operations) (calls.acquire r.semaphore) refl
        refl m e k
  advance_from-Advanced r r' (summing next bytes) m e k =
      summing-Advanced r r' next bytes _ refl m e k
  advance_from-Advanced r r' (returned x) m e k = absurd (ground (arith, e))
  advance_from-Advanced r r' (failed x) m e k = absurd (ground (arith, e))
  advance_from-Advanced r r' panicked m e k = absurd (ground (arith, e))

  Step-IsRun :
      (r r' : Run calls)
      → Step calls pattern block_size queue_depth operations outcome r r'
      → IsRun r
      → IsRun r' × (run_left r' < run_left r)
  unfolding advance
  Step-IsRun r r' (advances _ e) k = advance_from-Advanced r r' r.main refl e k
  Step-IsRun r _ (ends i operation e) k = (
    record {
      shared = omega (
        arith,
        counts.release_ok r.semaphore,
        running_count-set r.handles i (running operation) (finished (answer (outcome operation))) e,
        k.shared,
      );
      own =
          AllOwn-set calls pattern block_size queue_depth operations outcome 0 r.handles i operation
            e k.own;
      known =
          length-Known calls pattern block_size queue_depth operations outcome r.handles _ r.main
            (sym (length-set r.handles i _)) k.known;
    },
    omega (
      arith,
      all_left-set r.handles i (running operation) (finished (answer (outcome operation))) e,
    ),
  )

  pub Steps-IsRun :
      (r r' : Run calls) (n : ℕ)
      → Steps calls pattern block_size queue_depth operations outcome r n r'
      → IsRun r
      → IsRun r' × (n + run_left r' ≤ run_left r)
  Steps-IsRun r _ _ start k = (k, omega arith)
  Steps-IsRun r r' _ (then_step {n = n} {y = y} before step) k =
      let (b, l) = Steps-IsRun r y n before k in
      let (a, l') = Step-IsRun y r' step b in (a, omega arith)

  pub run_benchmark-IsRun :
      (r : Run calls)
      → queue_depth ≤ max_permits
      → run_benchmark calls pattern block_size queue_depth operations ≡ some r
      → IsRun r × (run_left r ≡ 3 * operations + 2)
  unfolding run_benchmark
  run_benchmark-IsRun r h e =
      let (s, n, a) = counts.new_ok queue_depth h in
      subst (λ q. IsRun q × (run_left q ≡ 3 * operations + 2))
        (some-injective _ _
          (sym (ap (begin calls pattern block_size queue_depth operations) n) ∙ e))
        (record { shared = omega (arith, a); own = tt; known = (refl, omega arith) }, omega arith)

-- `run_benchmark` never has more than `queue_depth` reads under way, in whatever order they end, where the
-- semaphore takes so many permits. It goes through at most three steps for each operation, and two more.
pub running_count-queue_depth :
    (calls : SemaphoreCalls) (max_permits : ℕ) (available : calls.Semaphore → ℕ)
    → IsSemaphore calls max_permits available
    → (pattern : AccessPattern) (block_size queue_depth operations : ℕ)
      (outcome : ℕ → Outcome IoError ℕ) (n : ℕ) (r r' : Run calls)
    → queue_depth ≤ max_permits
    → run_benchmark calls pattern block_size queue_depth operations ≡ some r
    → Steps calls pattern block_size queue_depth operations outcome r n r'
    → (running_count r'.handles ≤ queue_depth) × (n ≤ 3 * operations + 2)
running_count-queue_depth calls max_permits available counts pattern block_size queue_depth
      operations outcome n r r' h e steps =
    let (b, l) =
      run_benchmark-IsRun calls max_permits available counts pattern block_size queue_depth
        operations outcome r h e in
    let (a, l') =
      Steps-IsRun calls max_permits available counts pattern block_size queue_depth operations
        outcome r r' n steps b in
    (omega (arith, a.shared), omega (arith, l, l'))

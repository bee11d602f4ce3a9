-- ===== src/Harness/Benchmark.antt =====
-- src/bin/nvme_harness.rs: `run_benchmark`. One loop takes a permit for each operation and spawns its
-- read, the next one awaits the reads and adds up their bytes; the reads end on their own, in any order.
-- The number of operations is an argument.
pub mod Reads
pub mod Total
pub mod Answer
use task_pool_concurrency_im.Prelude.{
  ℕ, suc, ◌+◌, ◌*◌, ◌^◌, ◌≡◌, Option, none, some, List, [], ◌∷◌, ◌++◌, Bool, true, false, Outcome,
  ok, err, panic, IoError, other, length, get_elem?, set, ltb, if◌then◌else◌,
}
use task_pool_concurrency_im.Tasks.{SemaphoreCalls, Stage, waiting, running, finished}
use task_pool_concurrency_im.Harness.{AccessPattern}

-- The times of its start and end are left out.
pub record BenchmarkResult : Type 0 where
  pub pattern : AccessPattern
  pub block_size : ℕ
  pub queue_depth : ℕ
  pub operations : ℕ
  pub bytes : ℕ

-- The next operation to spawn; the next handle to await, and the bytes so far; and how the call ends.
pub data Main : Type 0 where
  spawning : ℕ → Main
  summing : ℕ → ℕ → Main
  returned : BenchmarkResult → Main
  failed : IoError → Main
  panicked : Main

-- A read by the operation's number, with the answer of `read_block`.
abbrev pub Read : Type 0
Read = Stage ℕ (Outcome IoError ℕ)

-- What the handle of a read holds: nothing where the read panicked.
abbrev pub answer : Outcome IoError ℕ → Option (Outcome IoError ℕ)
answer (ok n) = some (ok n)
answer (err e) = some (err e)
answer panic = none

module _ (calls : SemaphoreCalls) where
  pub record Run : Type 0 where
    pub semaphore : calls.Semaphore
    pub handles : List Read
    pub main : Main

module _ (calls : SemaphoreCalls) (pattern : AccessPattern)
    (block_size queue_depth operations : ℕ) where
  abbrev pub begin : Option calls.Semaphore → Option (Run calls)
  begin none = none
  begin (some s) = some (record { semaphore = s; handles = []; main = spawning 0 })

  -- The call, when it starts: nothing where `Semaphore::new` panics.
  unfoldable pub run_benchmark : Option (Run calls)
  run_benchmark = begin (calls.new queue_depth)

  -- `acquire_owned` and `spawn_blocking`: nothing while there is no permit.
  abbrev pub spawn : ℕ → List Read → Option calls.Semaphore → Option (Run calls)
  spawn operation handles none = none
  spawn operation handles (some s) = some (record {
    semaphore = s;
    handles = handles ++ running operation ∷ [];
    main = spawning (operation + 1);
  })

  abbrev pub result : ℕ → BenchmarkResult
  result bytes = record {
    pattern = pattern;
    block_size = block_size;
    queue_depth = queue_depth;
    operations = operations;
    bytes = bytes;
  }

  -- `bytes += task.await?? as u64`: a read that panicked is an error of the join, and nothing is
  -- answered while the read has not ended.
  abbrev pub add_bytes : ℕ → ℕ → Option Read → Option Main
  add_bytes next bytes none = some (returned (result bytes))
  add_bytes next bytes (some (waiting operation)) = none
  add_bytes next bytes (some (running operation)) = none
  add_bytes next bytes (some (finished none)) = some (failed other)
  add_bytes next bytes (some (finished (some (ok n)))) =
      some (if ltb (bytes + n) (2 ^ 64) then summing (next + 1) (bytes + n) else panicked)
  add_bytes next bytes (some (finished (some (err e)))) = some (failed e)
  add_bytes next bytes (some (finished (some panic))) = some (failed other)

  abbrev pub goes_on : calls.Semaphore → List Read → Option Main → Option (Run calls)
  goes_on s handles none = none
  goes_on s handles (some main) = some (record { semaphore = s; handles = handles; main = main })

  -- The next step of the call itself, when there is one.
  abbrev pub advance_from : Main → calls.Semaphore → List Read → Option (Run calls)
  advance_from (spawning operation) s handles =
      if ltb operation operations
      then spawn operation handles (calls.acquire s)
      else goes_on s handles (some (summing 0 0))
  advance_from (summing next bytes) s handles =
      goes_on s handles (add_bytes next bytes (get_elem? handles next))
  advance_from (returned r) s handles = none
  advance_from (failed e) s handles = none
  advance_from panicked s handles = none

  unfoldable pub advance : Run calls → Option (Run calls)
  advance r = advance_from r.main r.semaphore r.handles

  -- One step of the call or of one read, which drops its permit as it ends.
  pub data Step (outcome : ℕ → Outcome IoError ℕ) (r : Run calls) : Run calls → Type 0 where
    advances : (r' : Run calls) → advance r ≡ some r' → Step outcome r r'
    ends :
        (i operation : ℕ)
        → get_elem? r.handles i ≡ some (running operation)
        → Step outcome r (record {
          semaphore = calls.release r.semaphore;
          handles = set r.handles i (finished (answer (outcome operation)));
          main = r.main;
        })

  pub data Steps (outcome : ℕ → Outcome IoError ℕ) (r : Run calls) : ℕ → Run calls → Type 0 where
    start : Steps outcome r 0 r
    then_step :
        {n : ℕ} {y x : Run calls}
        → Steps outcome r n y
        → Step outcome y x
        → Steps outcome r (suc n) x

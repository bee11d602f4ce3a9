-- ===== src/Tasks/Limit.antt =====
-- src/foundations/task_pool.rs: `run_with_limit`. The call moves through its two loops, and the tasks that
-- it has spawned move on their own, in any order.
pub mod Bounds
pub mod Progress
pub mod Zero
mod Tests
use task_pool_concurrency_im.Prelude.{
  ℕ, suc, ◌≡◌, Option, none, some, List, [], ◌∷◌, ◌++◌, Bool, true, false, length, get_elem?, set,
  ◌==◌, if◌then◌else◌,
}
use task_pool_concurrency_im.Tasks.{SemaphoreCalls, Stage, waiting, running, finished}

-- The loop that spawns, with the tasks that are left; the loop that awaits, with the results so far; and
-- how the call ends, where `unwrap` panics on a task that did.
pub data Main (Task Value : Type 0) : Type 0 where
  spawning : List Task → Main Task Value
  awaiting : List Value → Main Task Value
  returned : List Value → Main Task Value
  panicked : Main Task Value

module _ (calls : SemaphoreCalls) (Task Value : Type 0) where
  pub record Run : Type 0 where
    pub semaphore : calls.Semaphore
    pub handles : List (Stage Task Value)
    pub main : Main Task Value

module _ (calls : SemaphoreCalls) {Task Value : Type 0} where
  abbrev pub begin : List Task → Option calls.Semaphore → Option (Run calls Task Value)
  begin tasks none = none
  begin tasks (some s) = some (record { semaphore = s; handles = []; main = spawning tasks })

  -- The call, when it starts: nothing where `Semaphore::new` panics.
  unfoldable pub run_with_limit : List Task → ℕ → Option (Run calls Task Value)
  run_with_limit tasks limit = begin tasks (calls.new limit)

  -- `handle.await.unwrap()`, of the handle after those that have been awaited: nothing while the task
  -- has not ended.
  abbrev pub join : List Value → Option (Stage Task Value) → Option (Main Task Value)
  join results none = some (returned results)
  join results (some (waiting task)) = none
  join results (some (running task)) = none
  join results (some (finished none)) = some panicked
  join results (some (finished (some value))) = some (awaiting (results ++ value ∷ []))

  abbrev pub with_handles :
      List (Stage Task Value)
      → Option (Main Task Value)
      → Option (List (Stage Task Value) × Main Task Value)
  with_handles handles none = none
  with_handles handles (some main) = some (handles, main)

  -- The next step of the call itself, when there is one.
  abbrev pub advance_from :
      Main Task Value → List (Stage Task Value) → Option (List (Stage Task Value) × Main Task Value)
  advance_from (spawning (task ∷ tasks)) handles =
      some (handles ++ waiting task ∷ [], spawning tasks)
  advance_from (spawning []) handles = some (handles, awaiting [])
  advance_from (awaiting results) handles =
      with_handles handles (join results (get_elem? handles (length results)))
  advance_from (returned results) handles = none
  advance_from panicked handles = none

  abbrev pub with_semaphore :
      calls.Semaphore
      → Option (List (Stage Task Value) × Main Task Value)
      → Option (Run calls Task Value)
  with_semaphore s none = none
  with_semaphore s (some (handles, main)) =
      some (record { semaphore = s; handles = handles; main = main })

  unfoldable pub advance : Run calls Task Value → Option (Run calls Task Value)
  advance r = with_semaphore r.semaphore (advance_from r.main r.handles)

  -- What a task may end with is a parameter: a value, or nothing where it panics.
  module _ (Ends : Task → Option Value → Type 0) where
    -- One step of the call or of one task. A task that is polled asks for its permit, and goes on once it
    -- has it; when it ends, it drops the permit.
    pub data Step (r : Run calls Task Value) : Run calls Task Value → Type 0 where
      advances : (r' : Run calls Task Value) → advance r ≡ some r' → Step r r'
      acquires :
          (i : ℕ) (task : Task) (permits : calls.Semaphore)
          → get_elem? r.handles i ≡ some (waiting task)
          → calls.acquire r.semaphore ≡ some permits
          → Step r (record {
            semaphore = permits;
            handles = set r.handles i (running task);
            main = r.main;
          })
      ends :
          (i : ℕ) (task : Task) (o : Option Value)
          → get_elem? r.handles i ≡ some (running task)
          → Ends task o
          → Step r (record {
            semaphore = calls.release r.semaphore;
            handles = set r.handles i (finished o);
            main = r.main;
          })

    -- A number of steps, one after another.
    pub data Steps (r : Run calls Task Value) : ℕ → Run calls Task Value → Type 0 where
      start : Steps r 0 r
      then_step : {n : ℕ} {y x : Run calls Task Value} → Steps r n y → Step y x → Steps r (suc n) x

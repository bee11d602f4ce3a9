-- ===== src/Tasks.antt =====
-- What src/foundations/task_pool.rs and src/bin/nvme_harness.rs share: tasks that tokio runs, and a
-- semaphore. Both are tokio's, which is not in the tree: the semaphore is a parameter, and the runtime is
-- the order of the steps, which is any.
pub mod Stages
pub mod Counter
pub mod Limit
use task_pool_concurrency_im.Prelude.{ℕ, suc, ◌≤◌, ◌≡◌, Option, none, some}

pub record SemaphoreCalls : Type 1 where
  pub Semaphore : Type 0
  -- Nothing where the call panics.
  pub new : ℕ → Option Semaphore
  -- With one permit less, or nothing where the caller waits.
  pub acquire : Semaphore → Option Semaphore
  -- A permit that is dropped.
  pub release : Semaphore → Semaphore

-- A semaphore counts its permits, as tokio documents it: `new` takes up to `MAX_PERMITS` of them, and who
-- asks for one waits only while there is none.
pub record IsSemaphore (calls : SemaphoreCalls) (max_permits : ℕ) (available : calls.Semaphore → ℕ)
    : Type 0 where
  pub new_ok :
      (n : ℕ) → n ≤ max_permits → (s : calls.Semaphore) × (calls.new n ≡ some s) × (available s ≡ n)
  pub acquire_ok :
      (s s' : calls.Semaphore) → calls.acquire s ≡ some s' → available s ≡ suc (available s')
  pub acquire_waits : (s : calls.Semaphore) → calls.acquire s ≡ none → available s ≡ 0
  pub release_ok : (s : calls.Semaphore) → available (calls.release s) ≡ suc (available s)

-- A spawned task: before it has a permit, while it has one, and once its handle is ready, with nothing
-- where the task panicked.
pub data Stage (Task Value : Type 0) : Type 0 where
  waiting : Task → Stage Task Value
  running : Task → Stage Task Value
  finished : Option Value → Stage Task Value

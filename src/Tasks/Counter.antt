-- ===== src/Tasks/Counter.antt =====
-- A semaphore that is the number of its permits.
use task_pool_concurrency_im.Prelude.{ℕ, zero, suc, ◌≡◌, refl, ap, arith, Option, none, some}
use mathlib.Core.Option.{some-injective}
use task_pool_concurrency_im.Tasks.{SemaphoreCalls, IsSemaphore}

abbrev take_one : ℕ → Option ℕ
take_one zero = none
take_one (suc n) = some n

abbrev pub counter : SemaphoreCalls
counter = record { Semaphore = ℕ; new = λ n. some n; acquire = take_one; release = λ n. suc n }

pub counter-IsSemaphore : IsSemaphore counter 100 (λ n. n)
counter-IsSemaphore = record {
  new_ok = λ n h. (n, refl, refl);
  acquire_ok = acquired;
  acquire_waits = waits;
  release_ok = λ n. refl;
}
  where
    acquired : (s s' : ℕ) → take_one s ≡ some s' → s ≡ suc s'
    acquired zero s' e = absurd (ground (arith, e))
    acquired (suc s) s' e = ap suc (some-injective _ _ e)

    waits : (s : ℕ) → take_one s ≡ none → s ≡ 0
    waits zero e = refl
    waits (suc s) e = absurd (ground (arith, e))

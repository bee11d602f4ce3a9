-- ===== src/Tasks/Limit/Progress.antt =====
-- How `run_with_limit` ends.
use task_pool_concurrency_im.Prelude.{
  ℕ, ◌≤◌, ◌<◌, ◌≡◌, refl, ap, ◌∙◌, subst, Option, none, some, List, [], ◌∷◌, ◌++◌, arith, length,
  get_elem?, Option-cases, inl, inr,
}
use task_pool_concurrency_im.Tasks.{SemaphoreCalls, IsSemaphore, Stage, waiting, running, finished}
use task_pool_concurrency_im.Tasks.Stages.{running_count-pos, Answers, Answers-Joined, Each-at}
use task_pool_concurrency_im.Tasks.Limit.{
  Main, spawning, awaiting, returned, panicked, Run, run_with_limit, join, with_handles,
  advance_from, with_semaphore, advance, Step, advances, acquires, ends, Steps,
}
use task_pool_concurrency_im.Tasks.Limit.Bounds.{IsRun, Known, Steps-IsRun, run_with_limit-IsRun}

-- How the call has ended: with what each task ended with, in order, or with a panic, where a task panicked.
abbrev pub Ended :
    {Task Value : Type 0} (Ends : Task → Option Value → Type 0)
    → List Task
    → Main Task Value
    → Type 0
Ended Ends tasks (spawning rest) = ⊥
Ended Ends tasks (awaiting results) = ⊥
Ended Ends tasks (returned results) = Answers Ends results tasks
Ended {Task = Task} Ends tasks panicked =
    (i : ℕ) × (task : Task) × (get_elem? tasks i ≡ some task) × Ends task none

module _ (calls : SemaphoreCalls) (max_permits : ℕ) (available : calls.Semaphore → ℕ)
    (counts : IsSemaphore calls max_permits available) {Task Value : Type 0}
    (Ends : Task → Option Value → Type 0) (tasks : List Task) (limit : ℕ) (some_permit : 0 < limit)
    (can_end : (task : Task) → (o : Option Value) × Ends task o) where
  abbrev IsRunOf : Run calls Task Value → Type 0
  IsRunOf = IsRun calls max_permits available counts Ends tasks limit

  -- While a task waits or runs, some task can go on.
  unfinished-Step :
      (r : Run calls Task Value) (i : ℕ) (task : Task)
      → IsRunOf r
      → get_elem? r.handles i ≡ some (waiting task)
      → (r' : Run calls Task Value) × Step calls Ends r r'
  unfinished-Step r i task k e = elim (running_count-pos r.handles) [
    | inr (j, t, e') ↦ let (o, h) = can_end t in (_, ends j t o e' h)
    | inl none_runs ↦ elim (Option-cases (calls.acquire r.semaphore)) [
      | inr (s, a) ↦ (_, acquires i task s e a)
      | inl a ↦ absurd (omega (arith, counts.acquire_waits r.semaphore a, k.shared, none_runs))
    ]
  ]

  advance_some :
      (r : Run calls Task Value) (hs : List (Stage Task Value)) (m : Main Task Value)
      → advance_from calls r.main r.handles ≡ some (hs, m)
      → (r' : Run calls Task Value) × Step calls Ends r r'
  unfolding advance
  advance_some r hs m e = (_, advances _ (ap (with_semaphore calls r.semaphore) e))

  joined-Step :
      (r : Run calls Task Value) (results : List Value) (h : Option (Stage Task Value))
      → r.main ≡ awaiting results
      → get_elem? r.handles (length results) ≡ h
      → IsRunOf r
      → (r' : Run calls Task Value) × Step calls Ends r r'
  joined-Step r results (some (waiting task)) m e k = unfinished-Step r (length results) task k e
  joined-Step r results (some (running task)) m e k =
      let (o, h) = can_end task in (_, ends (length results) task o e h)
  joined-Step r results none m e k = advance_some r r.handles (returned results) (
      ap (λ n. advance_from calls n r.handles) m
      ∙ ap (λ o. with_handles calls r.handles (join calls results o)) e)
  joined-Step r results (some (finished none)) m e k = advance_some r r.handles panicked (
      ap (λ n. advance_from calls n r.handles) m
      ∙ ap (λ o. with_handles calls r.handles (join calls results o)) e)
  joined-Step r results (some (finished (some x))) m e k =
      advance_some r r.handles (awaiting (results ++ x ∷ [])) (
        ap (λ n. advance_from calls n r.handles) m
        ∙ ap (λ o. with_handles calls r.handles (join calls results o)) e)

  stuck-Ended :
      (r : Run calls Task Value) (m : Main Task Value)
      → r.main ≡ m
      → IsRunOf r
      → ((r' : Run calls Task Value) → ¬ Step calls Ends r r')
      → Ended Ends tasks m
  stuck-Ended r (spawning []) e k stuck =
      let (r', s) =
        advance_some r r.handles (awaiting []) (ap (λ n. advance_from calls n r.handles) e) in
      absurd (stuck r' s)
  stuck-Ended r (spawning (task ∷ rest)) e k stuck =
      let (r', s) =
        advance_some r (r.handles ++ waiting task ∷ []) (spawning rest)
          (ap (λ n. advance_from calls n r.handles) e) in
      absurd (stuck r' s)
  stuck-Ended r (awaiting results) e k stuck =
      let (r', s) = joined-Step r results (get_elem? r.handles (length results)) e refl k in
      absurd (stuck r' s)
  stuck-Ended r (returned results) e k stuck =
      let (each, j, l) =
        subst (Known calls max_permits available counts Ends tasks limit r.handles) e k.known in
      Answers-Joined Ends results r.handles tasks j each l
  stuck-Ended r panicked e k stuck =
      let (each, (i, f)) =
        subst (Known calls max_permits available counts Ends tasks limit r.handles) e k.known in
      let (task, e', o) = Each-at Ends r.handles tasks i (finished none) f each in (i, task, e', o)

-- Where the limit is not 0 and every task can end, `run_with_limit` never comes to a standstill before it
-- has ended: when no step is possible, it has returned what each task ended with, in the order of the
-- tasks, or it has panicked, and then some task did.
pub run_with_limit-Ended :
    (calls : SemaphoreCalls) (max_permits : ℕ) (available : calls.Semaphore → ℕ)
    → IsSemaphore calls max_permits available
    → {Task Value : Type 0} (Ends : Task → Option Value → Type 0) (tasks : List Task) (limit n : ℕ)
      (r r' : Run calls Task Value)
    → 0 < limit
    → limit ≤ max_permits
    → ((task : Task) → (o : Option Value) × Ends task o)
    → run_with_limit calls tasks limit ≡ some r
    → Steps calls Ends r n r'
    → ((x : Run calls Task Value) → ¬ Step calls Ends r' x)
    → Ended Ends tasks r'.main
run_with_limit-Ended calls max_permits available counts Ends tasks limit n r r' p h can_end e steps
      stuck =
    let (b, _) = run_with_limit-IsRun calls max_permits available counts Ends tasks limit r h e in
    let (a, _) = Steps-IsRun calls max_permits available counts Ends tasks limit r r' n steps b in
    stuck-Ended calls max_permits available counts Ends tasks limit p can_end r' r'.main refl a
      stuck

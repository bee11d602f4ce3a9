-- ===== src/Tasks/Limit/Zero.antt =====
-- `run_with_limit` with no permit.
use task_pool_concurrency_im.Prelude.{
  ℕ, zero, suc, ◌<◌, ◌≡◌, refl, ap, sym, ◌∙◌, subst, Option, none, some, List, [], ◌∷◌, ◌++◌, arith,
  length, get_elem?,
}
use mathlib.Core.Option.{some-injective}
use task_pool_concurrency_im.Tasks.{SemaphoreCalls, IsSemaphore, Stage, waiting, running, finished}
use task_pool_concurrency_im.Tasks.Stages.{permits, left, Joined, length-Each}
use task_pool_concurrency_im.Tasks.Limit.{
  Main, spawning, awaiting, returned, panicked, Run, run_with_limit, join, with_handles,
  advance_from, with_semaphore, advance, Step, advances, acquires, ends, Steps, start, then_step,
  begin,
}
use task_pool_concurrency_im.Tasks.Limit.Bounds.{Known, Steps-IsRun, run_with_limit-IsRun}

-- A task that has not been given a permit.
abbrev pub Waits : {Task Value : Type 0} → Stage Task Value → Type 0
Waits h = left h ≡ 2

abbrev pub AllWait : {Task Value : Type 0} → List (Stage Task Value) → Type 0
AllWait [] = Unit
AllWait (h ∷ hs) = Waits h × AllWait hs

-- The call has not returned, nor panicked.
abbrev pub Unfinished : {Task Value : Type 0} → Main Task Value → Type 0
Unfinished (spawning rest) = Unit
Unfinished (awaiting results) = Unit
Unfinished (returned results) = ⊥
Unfinished panicked = ⊥

module _ {Task Value : Type 0} where
  AllWait-append :
      (hs : List (Stage Task Value)) (task : Task) → AllWait hs → AllWait (hs ++ waiting task ∷ [])
  AllWait-append [] task w = (refl, tt)
  AllWait-append (h ∷ hs) task (e, w) = (e, AllWait-append hs task w)

  AllWait-get_elem? :
      (hs : List (Stage Task Value)) (i : ℕ) (h : Stage Task Value)
      → get_elem? hs i ≡ some h
      → AllWait hs
      → Waits h
  AllWait-get_elem? [] i h e w = absurd (ground (arith, e))
  AllWait-get_elem? (k ∷ hs) zero h e (w, ws) = subst Waits (some-injective _ _ e) w
  AllWait-get_elem? (k ∷ hs) (suc i) h e (w, ws) = AllWait-get_elem? hs i h e ws

module _ (calls : SemaphoreCalls) (max_permits : ℕ) (available : calls.Semaphore → ℕ)
    (counts : IsSemaphore calls max_permits available) {Task Value : Type 0}
    (Ends : Task → Option Value → Type 0) where
  -- No permit, no task that has one, and no answer.
  record Stands (r : Run calls Task Value) : Type 0 where
    no_permit : available r.semaphore ≡ 0
    all_wait : AllWait r.handles

  begun-Stands :
      (r : Run calls Task Value) (tasks : List Task)
      → run_with_limit calls tasks 0 ≡ some r
      → Stands r
  unfolding run_with_limit
  begun-Stands r tasks e =
      let (s, n, a) = counts.new_ok 0 (omega arith) in
      subst Stands (some-injective _ _ (sym (ap (begin calls tasks) n) ∙ e))
        (record { no_permit = a; all_wait = tt })

  advanced-AllWait :
      (m m' : Main Task Value) (hs hs' : List (Stage Task Value))
      → advance_from calls m hs ≡ some (hs', m')
      → AllWait hs
      → AllWait hs'
  advanced-AllWait (spawning []) m' hs hs' e w = subst (λ q. AllWait (q.0)) (some-injective _ _ e) w
  advanced-AllWait (spawning (task ∷ rest)) m' hs hs' e w =
      subst (λ q. AllWait (q.0)) (some-injective _ _ e) (AllWait-append hs task w)
  advanced-AllWait (awaiting results) m' hs hs' e w =
      joined (join calls results (get_elem? hs (length results))) e
    where
      joined :
          (o : Option (Main Task Value)) → with_handles calls hs o ≡ some (hs', m') → AllWait hs'
      joined none e = absurd (ground (arith, e))
      joined (some m) e = subst (λ q. AllWait (q.0)) (some-injective _ _ e) w
  advanced-AllWait (returned results) m' hs hs' e w = absurd (ground (arith, e))
  advanced-AllWait panicked m' hs hs' e w = absurd (ground (arith, e))

  Step-Stands : (r r' : Run calls Task Value) → Step calls Ends r r' → Stands r → Stands r'
  unfolding advance
  Step-Stands r r' (advances _ e) k = advanced (advance_from calls r.main r.handles) refl e
    where
      advanced :
          (o : Option (List (Stage Task Value) × Main Task Value))
          → advance_from calls r.main r.handles ≡ o
          → with_semaphore calls r.semaphore o ≡ some r'
          → Stands r'
      advanced none j e = absurd (ground (arith, e))
      advanced (some (hs, m)) j e = subst Stands (some-injective _ _ e) (record {
        no_permit = k.no_permit;
        all_wait = advanced-AllWait r.main m r.handles hs j k.all_wait;
      })
  Step-Stands r _ (acquires i task permits e a) k =
      absurd (omega (arith, counts.acquire_ok r.semaphore permits a, k.no_permit))
  Step-Stands r _ (ends i task o e a) k =
      absurd (omega (arith, AllWait-get_elem? r.handles i (running task) e k.all_wait))

  Steps-Stands :
      (r r' : Run calls Task Value) (n : ℕ) → Steps calls Ends r n r' → Stands r → Stands r'
  Steps-Stands r _ _ start k = k
  Steps-Stands r r' _ (then_step {n = n} {y = y} before step) k =
      Step-Stands y r' step (Steps-Stands r y n before k)

  Joined-AllWait :
      (results : List Value) (hs : List (Stage Task Value))
      → Joined results hs
      → AllWait hs
      → results ≡ []
  Joined-AllWait [] hs j w = refl
  Joined-AllWait (x ∷ xs) [] j w = absurd j
  Joined-AllWait (x ∷ xs) (finished (some y) ∷ hs) j (w, ws) = absurd (omega (arith, w))
  Joined-AllWait (x ∷ xs) (finished none ∷ hs) j w = absurd j
  Joined-AllWait (x ∷ xs) (waiting task ∷ hs) j w = absurd j
  Joined-AllWait (x ∷ xs) (running task ∷ hs) j w = absurd j

  stands-Unfinished :
      (hs : List (Stage Task Value)) (m : Main Task Value) (tasks : List Task)
      → Known calls max_permits available counts Ends tasks 0 hs m
      → AllWait hs
      → 0 < length tasks
      → Unfinished m
  stands-Unfinished hs (spawning rest) tasks k w p = tt
  stands-Unfinished hs (awaiting results) tasks k w p = tt
  stands-Unfinished hs (returned results) tasks (each, j, l) w p = absurd (
      omega
        (arith, ap length (Joined-AllWait results hs j w), l, length-Each Ends hs tasks each, p))
  stands-Unfinished hs panicked tasks (each, (i, f)) w p =
      absurd (omega (arith, AllWait-get_elem? hs i (finished none) f w))

-- With a limit of 0 and at least one task, `run_with_limit` never ends: whatever steps are made, it has
-- neither returned nor panicked, and no task has been given a permit.
pub run_with_limit-Unfinished :
    (calls : SemaphoreCalls) (max_permits : ℕ) (available : calls.Semaphore → ℕ)
    → IsSemaphore calls max_permits available
    → {Task Value : Type 0} (Ends : Task → Option Value → Type 0) (tasks : List Task) (n : ℕ)
      (r r' : Run calls Task Value)
    → 0 < length tasks
    → run_with_limit calls tasks 0 ≡ some r
    → Steps calls Ends r n r'
    → Unfinished r'.main × AllWait r'.handles
run_with_limit-Unfinished calls max_permits available counts Ends tasks n r r' p e steps =
    let (b, _) =
      run_with_limit-IsRun calls max_permits available counts Ends tasks 0 r (omega arith) e in
    let (a, _) = Steps-IsRun calls max_permits available counts Ends tasks 0 r r' n steps b in
    let w =
      Steps-Stands calls max_permits available counts Ends r r' n steps
        (begun-Stands calls max_permits available counts Ends r tasks e) in
    (
      stands-Unfinished calls max_permits available counts Ends r'.handles r'.main tasks a.known
          w.all_wait p,
      w.all_wait,
    )

-- ===== src/Tasks/Limit/Bounds.antt =====
-- How many tasks of `run_with_limit` run at a time, and what it knows of them.
use task_pool_concurrency_im.Prelude.{
  ℕ, ◌+◌, ◌-◌, ◌*◌, ◌≤◌, ◌<◌, ◌≡◌, refl, ap, sym, ◌∙◌, subst, Option, none, some, List, [], ◌∷◌,
  ◌++◌, arith, length, get_elem?, set, append-nil, append_assoc, length-append, length-set,
  get_elem?-none, get_elem?-lt,
}
use mathlib.Core.Option.{some-injective}
use task_pool_concurrency_im.Tasks.{SemaphoreCalls, IsSemaphore, Stage, waiting, running, finished}
use task_pool_concurrency_im.Tasks.Stages.{
  permits, running_count, left, all_left, running_count-append, all_left-append, running_count-set,
  all_left-set, Joined, length-Joined, Joined-next, Joined-set, get_elem?-set-finished, Of, Each,
  Each-append, Each-set,
}
use task_pool_concurrency_im.Tasks.Limit.{
  Main, spawning, awaiting, returned, panicked, Run, begin, run_with_limit, join, with_handles,
  advance_from, with_semaphore, advance, Step, advances, acquires, ends, Steps, start, then_step,
}

module _ (calls : SemaphoreCalls) (max_permits : ℕ) (available : calls.Semaphore → ℕ)
    (counts : IsSemaphore calls max_permits available) {Task Value : Type 0}
    (Ends : Task → Option Value → Type 0) (tasks : List Task) (limit : ℕ) where
  -- The handles of the tasks that have been spawned, and where the call stands.
  abbrev pub Known : List (Stage Task Value) → Main Task Value → Type 0
  Known hs (spawning rest) = (done : List Task) × (tasks ≡ done ++ rest) × Each Ends hs done
  Known hs (awaiting results) = Each Ends hs tasks × Joined results hs
  Known hs (returned results) =
      Each Ends hs tasks × Joined results hs × (length results ≡ length hs)
  Known hs panicked = Each Ends hs tasks × ((i : ℕ) × (get_elem? hs i ≡ some (finished none)))

  -- A permit is free or held.
  pub record IsRun (r : Run calls Task Value) : Type 0 where
    pub shared : available r.semaphore + running_count r.handles ≡ limit
    pub known : Known r.handles r.main

  -- How many steps the call itself has left.
  abbrev pub main_left : List (Stage Task Value) → Main Task Value → ℕ
  main_left hs (spawning rest) = 4 * length rest + length hs + 2
  main_left hs (awaiting results) = (length hs - length results) + 1
  main_left hs (returned results) = 0
  main_left hs panicked = 0

  abbrev pub run_left : Run calls Task Value → ℕ
  run_left r = main_left r.handles r.main + all_left r.handles

  -- A step of the call keeps what is known, and leaves it one step less; it gives no task a permit.
  abbrev pub Advanced :
      List (Stage Task Value) → Main Task Value → List (Stage Task Value) → Main Task Value → Type 0
  Advanced hs m hs' m' =
      (running_count hs' ≡ running_count hs)
      × Known hs' m'
      × (main_left hs' m' + all_left hs' < main_left hs m + all_left hs)

  joined-Advanced :
      (hs : List (Stage Task Value)) (results : List Value) (m' : Main Task Value)
      (h : Option (Stage Task Value))
      → get_elem? hs (length results) ≡ h
      → join calls results h ≡ some m'
      → Known hs (awaiting results)
      → Advanced hs (awaiting results) hs m'
  joined-Advanced hs results m' none e a (each, j) =
      subst (Advanced hs (awaiting results) hs) (some-injective _ _ a) (
        refl,
        (each, j, omega (arith, get_elem?-none hs (length results) e, length-Joined results hs j)),
        omega arith,
      )
  joined-Advanced hs results m' (some (waiting t)) e a k = absurd (ground (arith, a))
  joined-Advanced hs results m' (some (running t)) e a k = absurd (ground (arith, a))
  joined-Advanced hs results m' (some (finished none)) e a (each, j) =
      subst (Advanced hs (awaiting results) hs) (some-injective _ _ a)
        (refl, (each, (length results, e)), omega arith)
  joined-Advanced hs results m' (some (finished (some x))) e a (each, j) =
      subst (Advanced hs (awaiting results) hs) (some-injective _ _ a) (
        refl,
        (each, Joined-next results hs x j e),
        omega (
          arith,
          get_elem?-lt hs (length results) (finished (some x)) e,
          length-append results (x ∷ []),
        ),
      )

  advance_from-Advanced :
      (hs hs' : List (Stage Task Value)) (m m' : Main Task Value)
      → advance_from calls m hs ≡ some (hs', m')
      → Known hs m
      → Advanced hs m hs' m'
  advance_from-Advanced hs hs' (spawning []) m' e (done, d, each) =
      subst (λ q. Advanced hs (spawning []) (q.0) (q.1)) (some-injective _ _ e)
        (refl, (subst (Each Ends hs) (sym (d ∙ append-nil done)) each, tt), omega arith)
  advance_from-Advanced hs hs' (spawning (task ∷ rest)) m' e (done, d, each) =
      subst (λ q. Advanced hs (spawning (task ∷ rest)) (q.0) (q.1)) (some-injective _ _ e)
        (
          omega (arith, running_count-append hs (waiting task ∷ [])),
          (
            done ++ task ∷ [],
            d ∙ sym (append_assoc done (task ∷ []) rest),
            Each-append Ends hs done (waiting task) task each refl,
          ),
          omega
              (arith, all_left-append hs (waiting task ∷ []), length-append hs (waiting task ∷ [])),
        )
  advance_from-Advanced hs hs' (awaiting results) m' e k =
      joined_from (join calls results (get_elem? hs (length results))) refl e
    where
      joined_from :
          (o : Option (Main Task Value))
          → join calls results (get_elem? hs (length results)) ≡ o
          → with_handles calls hs o ≡ some (hs', m')
          → Advanced hs (awaiting results) hs' m'
      joined_from none j e = absurd (ground (arith, e))
      joined_from (some main) j e =
          subst (λ q. Advanced hs (awaiting results) (q.0) (q.1)) (some-injective _ _ e)
            (joined-Advanced hs results main (get_elem? hs (length results)) refl j k)
  advance_from-Advanced hs hs' (returned results) m' e k = absurd (ground (arith, e))
  advance_from-Advanced hs hs' panicked m' e k = absurd (ground (arith, e))

  -- A task that goes on, or ends, keeps what is known of the handles.
  changed-Known :
      (hs : List (Stage Task Value)) (m : Main Task Value) (i : ℕ) (h g : Stage Task Value)
      → get_elem? hs i ≡ some h
      → 0 < left h
      → ((task : Task) → Of Ends h task → Of Ends g task)
      → Known hs m
      → Known (set hs i g) m
  changed-Known hs (spawning rest) i h g e p f (done, d, each) =
      (done, d, Each-set Ends hs done i h g e f each)
  changed-Known hs (awaiting results) i h g e p f (each, j) =
      (Each-set Ends hs tasks i h g e f each, Joined-set results hs i h g p e j)
  changed-Known hs (returned results) i h g e p f (each, j, l) = (
    Each-set Ends hs tasks i h g e f each,
    Joined-set results hs i h g p e j,
    l ∙ sym (length-set hs i g),
  )
  changed-Known hs panicked i h g e p f (each, (k, failed)) = (
    Each-set Ends hs tasks i h g e f each,
    (k, get_elem?-set-finished hs i k h g none e p failed),
  )

  main_left-set :
      (hs : List (Stage Task Value)) (m : Main Task Value) (i : ℕ) (g : Stage Task Value)
      → main_left (set hs i g) m ≡ main_left hs m
  main_left-set hs (spawning rest) i g = omega (arith, length-set hs i g)
  main_left-set hs (awaiting results) i g = omega (arith, length-set hs i g)
  main_left-set hs (returned results) i g = refl
  main_left-set hs panicked i g = refl

  -- Every step keeps what is known, and leaves fewer steps.
  pub Step-IsRun :
      (r r' : Run calls Task Value)
      → Step calls Ends r r'
      → IsRun r
      → IsRun r' × (run_left r' < run_left r)
  unfolding advance
  Step-IsRun r r' (advances _ e) k = advanced_from (advance_from calls r.main r.handles) refl e
    where
      advanced_from :
          (o : Option (List (Stage Task Value) × Main Task Value))
          → advance_from calls r.main r.handles ≡ o
          → with_semaphore calls r.semaphore o ≡ some r'
          → IsRun r' × (run_left r' < run_left r)
      advanced_from none j e = absurd (ground (arith, e))
      advanced_from (some (hs, m)) j e =
          let (c, kn, l) = advance_from-Advanced r.handles hs r.main m j k.known in
          subst (λ q. IsRun q × (run_left q < run_left r)) (some-injective _ _ e)
            (record { shared = omega (arith, c, k.shared); known = kn }, l)
  Step-IsRun r _ (acquires i task permits e a) k = (
    record {
      shared = omega (
        arith,
        counts.acquire_ok r.semaphore permits a,
        running_count-set r.handles i (waiting task) (running task) e,
        k.shared,
      );
      known =
          changed-Known r.handles r.main i (waiting task) (running task) e (omega arith) (λ t o. o)
            k.known;
    },
    omega (
      arith,
      all_left-set r.handles i (waiting task) (running task) e,
      main_left-set r.handles r.main i (running task),
    ),
  )
  Step-IsRun r _ (ends i task o e a) k = (
    record {
      shared = omega (
        arith,
        counts.release_ok r.semaphore,
        running_count-set r.handles i (running task) (finished o) e,
        k.shared,
      );
      known =
          changed-Known r.handles r.main i (running task) (finished o) e (omega arith)
            (λ t q. subst (λ u. Ends u o) q a) k.known;
    },
    omega (
      arith,
      all_left-set r.handles i (running task) (finished o) e,
      main_left-set r.handles r.main i (finished o),
    ),
  )

  pub Steps-IsRun :
      (r r' : Run calls Task Value) (n : ℕ)
      → Steps calls Ends r n r'
      → IsRun r
      → IsRun r' × (n + run_left r' ≤ run_left r)
  Steps-IsRun r _ _ start k = (k, omega arith)
  Steps-IsRun r r' _ (then_step {n = n} {y = y} before step) k =
      let (b, l) = Steps-IsRun r y n before k in
      let (a, l') = Step-IsRun y r' step b in (a, omega arith)

  -- What the call knows when it has just been made.
  pub run_with_limit-IsRun :
      (r : Run calls Task Value)
      → limit ≤ max_permits
      → run_with_limit calls tasks limit ≡ some r
      → IsRun r × (run_left r ≡ 4 * length tasks + 2)
  unfolding run_with_limit
  run_with_limit-IsRun r h e =
      let (s, n, a) = counts.new_ok limit h in
      subst (λ q. IsRun q × (run_left q ≡ 4 * length tasks + 2))
        (some-injective _ _ (sym (ap (begin calls tasks) n) ∙ e))
        (record { shared = omega (arith, a); known = ([], refl, tt) }, omega arith)

-- `run_with_limit` never has more than `limit` tasks running at a time, in whatever order the tasks are
-- polled, and however they end, where the semaphore takes so many permits. It goes through at most four
-- steps for each task, and two more.
pub running_count-limit :
    (calls : SemaphoreCalls) (max_permits : ℕ) (available : calls.Semaphore → ℕ)
    → IsSemaphore calls max_permits available
    → {Task Value : Type 0} (Ends : Task → Option Value → Type 0) (tasks : List Task) (limit n : ℕ)
      (r r' : Run calls Task Value)
    → limit ≤ max_permits
    → run_with_limit calls tasks limit ≡ some r
    → Steps calls Ends r n r'
    → (running_count r'.handles ≤ limit) × (n ≤ 4 * length tasks + 2)
running_count-limit calls max_permits available counts Ends tasks limit n r r' h e steps =
    let (b, l) = run_with_limit-IsRun calls max_permits available counts Ends tasks limit r h e in
    let (a, l') = Steps-IsRun calls max_permits available counts Ends tasks limit r r' n steps b in
    (omega (arith, a.shared), omega (arith, l, l'))

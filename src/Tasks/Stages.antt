-- ===== src/Tasks/Stages.antt =====
-- Spawned tasks, in the order of their handles: how many run, and which of them have been awaited.
use task_pool_concurrency_im.Prelude.{
  ℕ, zero, suc, ◌+◌, ◌≤◌, ◌<◌, ◌≡◌, refl, ap, sym, ◌∙◌, subst, Option, none, some, List, [], ◌∷◌,
  ◌++◌, arith, length, get_elem?, set, ◌⊎◌, inl, inr,
}
use mathlib.Core.Option.{some-injective}
use task_pool_concurrency_im.Tasks.{Stage, waiting, running, finished}

module _ {Task Value : Type 0} where
  abbrev pub permits : Stage Task Value → ℕ
  permits (waiting task) = 0
  permits (running task) = 1
  permits (finished o) = 0

  -- How many tasks hold a permit.
  abbrev pub running_count : List (Stage Task Value) → ℕ
  running_count [] = 0
  running_count (h ∷ hs) = permits h + running_count hs

  -- How many steps a task has left.
  abbrev pub left : Stage Task Value → ℕ
  left (waiting task) = 2
  left (running task) = 1
  left (finished o) = 0

  abbrev pub all_left : List (Stage Task Value) → ℕ
  all_left [] = 0
  all_left (h ∷ hs) = left h + all_left hs

  pub running_count-append :
      (hs gs : List (Stage Task Value))
      → running_count (hs ++ gs) ≡ running_count hs + running_count gs
  running_count-append [] gs = omega arith
  running_count-append (h ∷ hs) gs = omega (arith, running_count-append hs gs)

  pub all_left-append :
      (hs gs : List (Stage Task Value)) → all_left (hs ++ gs) ≡ all_left hs + all_left gs
  all_left-append [] gs = omega arith
  all_left-append (h ∷ hs) gs = omega (arith, all_left-append hs gs)

  pub running_count-set :
      (hs : List (Stage Task Value)) (i : ℕ) (h g : Stage Task Value)
      → get_elem? hs i ≡ some h
      → running_count (set hs i g) + permits h ≡ running_count hs + permits g
  running_count-set [] i h g e = absurd (ground (arith, e))
  running_count-set (k ∷ hs) zero h g e = ground (arith, e)
  running_count-set (k ∷ hs) (suc i) h g e = omega (arith, running_count-set hs i h g e)

  pub all_left-set :
      (hs : List (Stage Task Value)) (i : ℕ) (h g : Stage Task Value)
      → get_elem? hs i ≡ some h
      → all_left (set hs i g) + left h ≡ all_left hs + left g
  all_left-set [] i h g e = absurd (ground (arith, e))
  all_left-set (k ∷ hs) zero h g e = ground (arith, e)
  all_left-set (k ∷ hs) (suc i) h g e = omega (arith, all_left-set hs i h g e)

  -- Where a permit is held, a task runs.
  pub running_count-pos :
      (hs : List (Stage Task Value))
      → (running_count hs ≡ 0) ⊎ ((i : ℕ) × (task : Task) × (get_elem? hs i ≡ some (running task)))
  running_count-pos [] = inl refl
  running_count-pos (running task ∷ hs) = inr (0, task, refl)
  running_count-pos (waiting task ∷ hs) = elim (running_count-pos hs) [
    | inl e ↦ inl (omega arith)
    | inr (i, t, e) ↦ inr (suc i, t, e)
  ]
  running_count-pos (finished o ∷ hs) = elim (running_count-pos hs) [
    | inl e ↦ inl (omega arith)
    | inr (i, t, e) ↦ inr (suc i, t, e)
  ]

  -- The answers that have been awaited are those of the first handles.
  abbrev pub Joined : List Value → List (Stage Task Value) → Type 0
  Joined [] hs = Unit
  Joined (x ∷ xs) [] = ⊥
  Joined (x ∷ xs) (finished (some y) ∷ hs) = (x ≡ y) × Joined xs hs
  Joined (x ∷ xs) (h ∷ hs) = ⊥

  pub length-Joined :
      (xs : List Value) (hs : List (Stage Task Value)) → Joined xs hs → length xs ≤ length hs
  length-Joined [] hs j = omega arith
  length-Joined (x ∷ xs) [] j = absurd j
  length-Joined (x ∷ xs) (finished (some y) ∷ hs) (e, j) = omega (arith, length-Joined xs hs j)
  length-Joined (x ∷ xs) (finished none ∷ hs) j = absurd j
  length-Joined (x ∷ xs) (waiting task ∷ hs) j = absurd j
  length-Joined (x ∷ xs) (running task ∷ hs) j = absurd j

  -- The next handle that is awaited.
  pub Joined-next :
      (xs : List Value) (hs : List (Stage Task Value)) (x : Value)
      → Joined xs hs
      → get_elem? hs (length xs) ≡ some (finished (some x))
      → Joined (xs ++ x ∷ []) hs
  Joined-next [] [] x j e = absurd (ground (arith, e))
  Joined-next [] (finished (some y) ∷ hs) x j e = (ground (arith, e), tt)
  Joined-next [] (finished none ∷ hs) x j e = absurd (ground (arith, e))
  Joined-next [] (waiting task ∷ hs) x j e = absurd (ground (arith, e))
  Joined-next [] (running task ∷ hs) x j e = absurd (ground (arith, e))
  Joined-next (y ∷ xs) [] x j e = absurd j
  Joined-next (y ∷ xs) (finished (some z) ∷ hs) x (e', j) e = (e', Joined-next xs hs x j e)
  Joined-next (y ∷ xs) (finished none ∷ hs) x j e = absurd j
  Joined-next (y ∷ xs) (waiting task ∷ hs) x j e = absurd j
  Joined-next (y ∷ xs) (running task ∷ hs) x j e = absurd j

  -- A task that has not ended is not among them.
  pub Joined-set :
      (xs : List Value) (hs : List (Stage Task Value)) (i : ℕ) (h g : Stage Task Value)
      → 0 < left h
      → get_elem? hs i ≡ some h
      → Joined xs hs
      → Joined xs (set hs i g)
  Joined-set [] hs i h g p e j = tt
  Joined-set (x ∷ xs) [] i h g p e j = absurd j
  Joined-set (x ∷ xs) (finished (some y) ∷ hs) zero h g p e j = absurd (ground (arith, e))
  Joined-set (x ∷ xs) (finished (some y) ∷ hs) (suc i) h g p e (e', j) =
      (e', Joined-set xs hs i h g p e j)
  Joined-set (x ∷ xs) (finished none ∷ hs) i h g p e j = absurd j
  Joined-set (x ∷ xs) (waiting task ∷ hs) i h g p e j = absurd j
  Joined-set (x ∷ xs) (running task ∷ hs) i h g p e j = absurd j

  pub get_elem?-set-finished :
      (hs : List (Stage Task Value)) (i k : ℕ) (h g : Stage Task Value) (o : Option Value)
      → get_elem? hs i ≡ some h
      → 0 < left h
      → get_elem? hs k ≡ some (finished o)
      → get_elem? (set hs i g) k ≡ some (finished o)
  get_elem?-set-finished [] i k h g o e p f = f
  get_elem?-set-finished (l ∷ hs) zero zero h g o e p f =
      absurd (omega (arith, p, ap left (some-injective _ _ (sym e ∙ f))))
  get_elem?-set-finished (l ∷ hs) zero (suc k) h g o e p f = f
  get_elem?-set-finished (l ∷ hs) (suc i) zero h g o e p f = f
  get_elem?-set-finished (l ∷ hs) (suc i) (suc k) h g o e p f =
      get_elem?-set-finished hs i k h g o e p f

-- What the tasks may end with: a value, or a panic.
module _ {Task Value : Type 0} (Ends : Task → Option Value → Type 0) where
  -- The handle is that of the task.
  abbrev pub Of : Stage Task Value → Task → Type 0
  Of (waiting t) task = t ≡ task
  Of (running t) task = t ≡ task
  Of (finished o) task = Ends task o

  -- The handles are those of the tasks, in order.
  abbrev pub Each : List (Stage Task Value) → List Task → Type 0
  Each [] [] = Unit
  Each [] (task ∷ tasks) = ⊥
  Each (h ∷ hs) [] = ⊥
  Each (h ∷ hs) (task ∷ tasks) = Of h task × Each hs tasks

  -- The values are what the tasks end with, in order.
  abbrev pub Answers : List Value → List Task → Type 0
  Answers [] [] = Unit
  Answers [] (task ∷ tasks) = ⊥
  Answers (x ∷ xs) [] = ⊥
  Answers (x ∷ xs) (task ∷ tasks) = Ends task (some x) × Answers xs tasks

  pub Each-append :
      (hs : List (Stage Task Value)) (tasks : List Task) (h : Stage Task Value) (task : Task)
      → Each hs tasks
      → Of h task
      → Each (hs ++ h ∷ []) (tasks ++ task ∷ [])
  Each-append [] [] h task m o = (o, tt)
  Each-append [] (t ∷ tasks) h task m o = absurd m
  Each-append (g ∷ hs) [] h task m o = absurd m
  Each-append (g ∷ hs) (t ∷ tasks) h task (o', m) o = (o', Each-append hs tasks h task m o)

  pub Each-set :
      (hs : List (Stage Task Value)) (tasks : List Task) (i : ℕ) (h g : Stage Task Value)
      → get_elem? hs i ≡ some h
      → ((task : Task) → Of h task → Of g task)
      → Each hs tasks
      → Each (set hs i g) tasks
  Each-set [] tasks i h g e f m = m
  Each-set (k ∷ hs) [] i h g e f m = absurd m
  Each-set (k ∷ hs) (t ∷ tasks) zero h g e f (o, m) =
      (f t (subst (λ l. Of l t) (some-injective _ _ e) o), m)
  Each-set (k ∷ hs) (t ∷ tasks) (suc i) h g e f (o, m) = (o, Each-set hs tasks i h g e f m)

  pub length-Each :
      (hs : List (Stage Task Value)) (tasks : List Task) → Each hs tasks → length hs ≡ length tasks
  length-Each [] [] m = refl
  length-Each [] (t ∷ tasks) m = absurd m
  length-Each (h ∷ hs) [] m = absurd m
  length-Each (h ∷ hs) (t ∷ tasks) (o, m) = ap suc (length-Each hs tasks m)

  -- Once every handle has been awaited.
  pub Answers-Joined :
      (xs : List Value) (hs : List (Stage Task Value)) (tasks : List Task)
      → Joined xs hs
      → Each hs tasks
      → length xs ≡ length hs
      → Answers xs tasks
  Answers-Joined [] [] [] j m e = tt
  Answers-Joined [] [] (t ∷ tasks) j m e = absurd m
  Answers-Joined [] (h ∷ hs) tasks j m e = absurd (omega arith)
  Answers-Joined (x ∷ xs) [] tasks j m e = absurd j
  Answers-Joined (x ∷ xs) (h ∷ hs) [] j m e = absurd m
  Answers-Joined (x ∷ xs) (finished (some y) ∷ hs) (t ∷ tasks) (e', j) (o, m) e =
      (subst (λ z. Ends t (some z)) (sym e') o, Answers-Joined xs hs tasks j m (omega arith))
  Answers-Joined (x ∷ xs) (finished none ∷ hs) (t ∷ tasks) j m e = absurd j
  Answers-Joined (x ∷ xs) (waiting task ∷ hs) (t ∷ tasks) j m e = absurd j
  Answers-Joined (x ∷ xs) (running task ∷ hs) (t ∷ tasks) j m e = absurd j

  pub Each-at :
      (hs : List (Stage Task Value)) (tasks : List Task) (i : ℕ) (h : Stage Task Value)
      → get_elem? hs i ≡ some h
      → Each hs tasks
      → (task : Task) × (get_elem? tasks i ≡ some task) × Of h task
  Each-at [] tasks i h e m = absurd (ground (arith, e))
  Each-at (k ∷ hs) [] i h e m = absurd m
  Each-at (k ∷ hs) (t ∷ tasks) zero h e (o, m) =
      (t, refl, subst (λ l. Of l t) (some-injective _ _ e) o)
  Each-at (k ∷ hs) (t ∷ tasks) (suc i) h e (o, m) = Each-at hs tasks i h e m

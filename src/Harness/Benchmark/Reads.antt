-- ===== src/Harness/Benchmark/Reads.antt =====
-- The loop that reads one block after another, and what `run_benchmark` knows of its reads.
use task_pool_concurrency_im.Prelude.{
  ℕ, zero, suc, ◌+◌, ◌-◌, ◌*◌, ◌^◌, ◌≤◌, ◌<◌, ◌≡◌, refl, ap, sym, ◌∙◌, subst, subst₂, Option, none,
  some, List, [], ◌∷◌, ◌++◌, Bool, true, false, Outcome, ok, err, panic, IoError, other, arith,
  length, get_elem?, set, ltb, if◌then◌else◌, get_elem?-lt, get_elem?-none,
}
use mathlib.Core.Option.{some-injective}
use task_pool_concurrency_im.Tasks.{SemaphoreCalls, waiting, running, finished}
use task_pool_concurrency_im.Harness.{AccessPattern}
use task_pool_concurrency_im.Harness.Benchmark.{
  Main, spawning, summing, returned, failed, panicked, Read, answer, result, add_bytes,
}

-- A read, and what the loop does with its bytes.
abbrev pub round : ℕ → Outcome IoError ℕ → (ℕ → Outcome IoError ℕ) → Outcome IoError ℕ
round bytes (ok k) rest = if ltb (bytes + k) (2 ^ 64) then rest (bytes + k) else panic
round bytes (err e) rest = err e
round bytes panic rest = err other

-- The loop that reads one block after another and adds up the bytes, from operation `next` on, for `n`
-- operations.
abbrev pub read_all : (ℕ → Outcome IoError ℕ) → (n next bytes : ℕ) → Outcome IoError ℕ
read_all outcome zero next bytes = ok bytes
read_all outcome (suc n) next bytes = round bytes (outcome next) (read_all outcome n (next + 1))

module _ (calls : SemaphoreCalls) (pattern : AccessPattern) (block_size queue_depth operations : ℕ)
    (outcome : ℕ → Outcome IoError ℕ) where
  abbrev pub total : Outcome IoError ℕ
  total = read_all outcome operations 0 0

  -- The handle is that of the read with this number.
  abbrev pub Own : Read → ℕ → Type 0
  Own (waiting operation) i = ⊥
  Own (running operation) i = operation ≡ i
  Own (finished o) i = o ≡ answer (outcome i)

  -- From this number on.
  abbrev pub AllOwn : ℕ → List Read → Type 0
  AllOwn k [] = Unit
  AllOwn k (h ∷ hs) = Own h k × AllOwn (k + 1) hs

  abbrev pub Known : List Read → Main → Type 0
  Known hs (spawning operation) = (length hs ≡ operation) × (operation ≤ operations)
  Known hs (summing next bytes) =
      (length hs ≡ operations)
      × (next ≤ operations)
      × (read_all outcome (operations - next) next bytes ≡ total)
  Known hs (returned r) =
      (bytes : ℕ) × (r ≡ result calls pattern block_size queue_depth operations bytes)
      × (total ≡ ok bytes)
  Known hs (failed e) = total ≡ err e
  Known hs panicked = total ≡ panic

  abbrev pub main_left : Main → ℕ
  main_left (spawning operation) = 2 * (operations - operation) + operations + 2
  main_left (summing next bytes) = (operations - next) + 1
  main_left (returned r) = 0
  main_left (failed e) = 0
  main_left panicked = 0

  pub AllOwn-append :
      (k n : ℕ) (hs : List Read) → k + length hs ≡ n → AllOwn k hs → AllOwn k (hs ++ running n ∷ [])
  AllOwn-append k n [] e own = (omega (arith, e), tt)
  AllOwn-append k n (h ∷ hs) e (o, own) = (o, AllOwn-append (k + 1) n hs (omega (arith, e)) own)

  pub AllOwn-set :
      (k : ℕ) (hs : List Read) (i operation : ℕ)
      → get_elem? hs i ≡ some (running operation)
      → AllOwn k hs
      → AllOwn k (set hs i (finished (answer (outcome operation))))
  AllOwn-set k [] i operation e own = own
  AllOwn-set k (h ∷ hs) zero operation e (o, own) =
      (ap (λ x. answer (outcome x)) (subst (λ g. Own g k) (some-injective _ _ e) o), own)
  AllOwn-set k (h ∷ hs) (suc i) operation e (o, own) = (o, AllOwn-set (k + 1) hs i operation e own)

  pub AllOwn-get_elem? :
      (k n : ℕ) (hs : List Read) (i : ℕ) (h : Read)
      → k + i ≡ n
      → get_elem? hs i ≡ some h
      → AllOwn k hs
      → Own h n
  AllOwn-get_elem? k n [] i h p e own = absurd (ground (arith, e))
  AllOwn-get_elem? k n (g ∷ hs) zero h p e (o, own) =
      subst₂ Own (some-injective _ _ e) (omega (arith, p)) o
  AllOwn-get_elem? k n (g ∷ hs) (suc i) h p e (o, own) =
      AllOwn-get_elem? (k + 1) n hs i h (omega (arith, p)) e own

  -- What the read gave, from what its handle holds.
  answered : (r : Outcome IoError ℕ) (x : Outcome IoError ℕ) → some x ≡ answer r → r ≡ x
  answered (ok n) x e = some-injective _ _ (sym e)
  answered (err n) x e = some-injective _ _ (sym e)
  answered panic x e = absurd (ground (arith, e))

  answered_none : (r : Outcome IoError ℕ) → none ≡ answer r → r ≡ panic
  answered_none (ok n) e = absurd (ground (arith, e))
  answered_none (err n) e = absurd (ground (arith, e))
  answered_none panic e = refl

  -- A round of the reference, at an operation that is left.
  read_all-round :
      (next bytes : ℕ) (r : Outcome IoError ℕ)
      → next < operations
      → outcome next ≡ r
      → read_all outcome (operations - next) next bytes
        ≡ round bytes r (read_all outcome (operations - (next + 1)) (next + 1))
  read_all-round next bytes r h e =
      let m : operations - next ≡ suc (operations - (next + 1)) = omega (arith, h) in
      ap (λ n. read_all outcome n next bytes) m
      ∙ ap (λ x. round bytes x (read_all outcome (operations - (next + 1)) (next + 1))) e

  abbrev Awaited : ℕ → ℕ → List Read → Main → Type 0
  Awaited next bytes hs m = Known hs m × (main_left m < main_left (summing next bytes))

  round-total :
      (next bytes : ℕ) (h : Read) (r : Outcome IoError ℕ) (hs : List Read)
      → get_elem? hs next ≡ some h
      → outcome next ≡ r
      → Known hs (summing next bytes)
      → round bytes r (read_all outcome (operations - (next + 1)) (next + 1)) ≡ total
  round-total next bytes h r hs g e (l, _, k) =
      sym (read_all-round next bytes r (omega (arith, get_elem?-lt hs next h g, l)) e) ∙ k

  added :
      (next bytes n : ℕ) (hs : List Read)
      → get_elem? hs next ≡ some (finished (some (ok n)))
      → round bytes (ok n) (read_all outcome (operations - (next + 1)) (next + 1)) ≡ total
      → Known hs (summing next bytes)
      → Awaited next bytes hs
          (if ltb (bytes + n) (2 ^ 64) then summing (next + 1) (bytes + n) else panicked)
  added next bytes n hs g e (l, h, _) = by_test (ltb (bytes + n) (2 ^ 64)) e
    where
      by_test :
          (fits : Bool)
          → (if fits
              then read_all outcome (operations - (next + 1)) (next + 1) (bytes + n)
              else panic)
            ≡ total
          → Awaited next bytes hs (if fits then summing (next + 1) (bytes + n) else panicked)
      by_test true e =
          let i = get_elem?-lt hs next (finished (some (ok n))) g in
          ((l, omega (arith, i, l), e), omega (arith, i, l))
      by_test false e = (sym e, omega arith)

  -- A handle that is awaited.
  pub add_bytes-Known :
      (next bytes : ℕ) (o : Option Read) (m : Main) (hs : List Read)
      → add_bytes calls pattern block_size queue_depth operations next bytes o ≡ some m
      → get_elem? hs next ≡ o
      → AllOwn 0 hs
      → Known hs (summing next bytes)
      → Known hs m × (main_left m < main_left (summing next bytes))
  add_bytes-Known next bytes none m hs e g own (l, h, k) =
      let z : operations - next ≡ 0 = omega (arith, get_elem?-none hs next g, l) in
      subst (λ m. Known hs m × (main_left m < main_left (summing next bytes)))
        (some-injective _ _ e)
        ((bytes, refl, sym k ∙ ap (λ n. read_all outcome n next bytes) z), omega arith)
  add_bytes-Known next bytes (some (waiting i)) m hs e g own k = absurd (ground (arith, e))
  add_bytes-Known next bytes (some (running i)) m hs e g own k = absurd (ground (arith, e))
  add_bytes-Known next bytes (some (finished none)) m hs e g own k =
      let r =
        answered_none (outcome next)
          (AllOwn-get_elem? 0 next hs next (finished none) (omega arith) g own) in
      subst (Awaited next bytes hs) (some-injective _ _ e)
        (sym (round-total next bytes (finished none) panic hs g r k), omega arith)
  add_bytes-Known next bytes (some (finished (some (ok n)))) m hs e g own k =
      let h = finished (some (ok n)) in
      let r =
        answered (outcome next) (ok n) (AllOwn-get_elem? 0 next hs next h (omega arith) g own) in
      subst (Awaited next bytes hs) (some-injective _ _ e)
        (added next bytes n hs g (round-total next bytes h (ok n) hs g r k) k)
  add_bytes-Known next bytes (some (finished (some (err x)))) m hs e g own k =
      let h = finished (some (err x)) in
      let r =
        answered (outcome next) (err x) (AllOwn-get_elem? 0 next hs next h (omega arith) g own) in
      subst (Awaited next bytes hs) (some-injective _ _ e)
        (sym (round-total next bytes h (err x) hs g r k), omega arith)
  add_bytes-Known next bytes (some (finished (some panic))) m hs e g own k =
      let h = finished (some panic) in
      let r =
        answered (outcome next) panic (AllOwn-get_elem? 0 next hs next h (omega arith) g own) in
      subst (Awaited next bytes hs) (some-injective _ _ e)
        (sym (round-total next bytes h panic hs g r k), omega arith)

  -- Of the handles, it only knows how many there are.
  pub length-Known :
      (hs gs : List Read) (m : Main) → length hs ≡ length gs → Known hs m → Known gs m
  length-Known hs gs (spawning operation) e (l, h) = (sym e ∙ l, h)
  length-Known hs gs (summing next bytes) e (l, h, k) = (sym e ∙ l, h, k)
  length-Known hs gs (returned r) e k = k
  length-Known hs gs (failed x) e k = k
  length-Known hs gs panicked e k = k

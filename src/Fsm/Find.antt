-- ===== src/Fsm/Find.antt =====
-- Finding a page: the search answers a page with room exactly when there is one.
use task_pool_concurrency_im.Prelude.{
  ℕ, zero, suc, ◌+◌, ◌-◌, ◌*◌, ◌/◌, ◌%◌, ◌≤◌, ◌<◌, ◌≡◌, ◌⊎◌, inl, inr, refl, ap, sym, subst, subst₂,
  List, false, Option, none, some, Outcome, ok, err, arith, dec_lt, Returns, Returns-map,
  Returns-value, page_size, length, ltb, leb, if◌then◌else◌, lt→ltb, ltb→lt, ltb→ge, Bool-cases,
  ==-ne,
}
use task_pool_concurrency_im.Fsm.{
  FreeSpaceMap, FreeSpaceMapError, invalid_free_space, rank, larger, contains, leaf_page, or_next,
  find_page_recursive, find_page_excluding,
}
use task_pool_concurrency_im.Fsm.Bucket.{get_bucket_id_lem}
use task_pool_concurrency_im.Fsm.Tree.{at, bucket, node_at-at, IsTree}
use task_pool_concurrency_im.Fsm.Update.{leaf_of}

-- The node `j` lies below the node `i`, or is it.
pub data Under (i : ℕ) : ℕ → Type 0 where
  here : {j : ℕ} → j ≡ i → Under i j
  left : {j : ℕ} (k : ℕ) → Under i k → j ≡ 2 * k + 1 → Under i j
  right : {j : ℕ} (k : ℕ) → Under i k → j ≡ 2 * k + 2 → Under i j

-- Every node lies below the root.
pub Under-root : (fuel j : ℕ) → j < fuel → Under 0 j
Under-root zero j h = absurd (omega arith)
Under-root (suc fuel) zero h = here refl
Under-root (suc fuel) (suc j) h = elim (dec_lt (j % 2) 1) [
  | yes e ↦ left (j / 2) (Under-root fuel (j / 2) (omega arith)) (omega arith)
  | no e ↦ right (j / 2) (Under-root fuel (j / 2) (omega arith)) (omega arith)
]

Under-le : (i j : ℕ) → Under i j → i ≤ j
Under-le i j (here e) = omega arith
Under-le i j (left k u e) = omega (arith, Under-le i k u)
Under-le i j (right k u e) = omega (arith, Under-le i k u)

-- Below a node are the node and what lies below its children.
Under-cases : (i j : ℕ) → Under i j → (j ≡ i) ⊎ Under (2 * i + 1) j ⊎ Under (2 * i + 2) j
Under-cases i j (here e) = inl e
Under-cases i j (left k u e) = elim (Under-cases i k u) [
  | inl f ↦ inr (inl (here (omega arith)))
  | inr (inl v) ↦ inr (inl (left k v e))
  | inr (inr v) ↦ inr (inr (left k v e))
]
Under-cases i j (right k u e) = elim (Under-cases i k u) [
  | inl f ↦ inr (inr (here (omega arith)))
  | inr (inl v) ↦ inr (inl (right k v e))
  | inr (inr v) ↦ inr (inr (right k v e))
]

pub rank-larger : (a b : Option ℕ) → (rank a ≤ rank (larger a b)) × (rank b ≤ rank (larger a b))
unfolding larger
rank-larger a b = ground arith

-- No node below another has a larger bucket.
pub Under-bucket :
    (m : FreeSpaceMap) (i j : ℕ)
    → IsTree m
    → j < length m.nodes
    → Under i j
    → rank (bucket m.nodes j) ≤ rank (bucket m.nodes i)
Under-bucket m i j t h (here e) = rw e (omega arith)
Under-bucket m i j t h (left k u e) =
    let up = rank-larger (bucket m.nodes (2 * k + 1)) (bucket m.nodes (2 * k + 2)) in
    let top = ap rank (t.inner k (omega (arith, t.sized))) in
    rw e (omega (arith, up, top, Under-bucket m i k t (omega arith) u))
Under-bucket m i j t h (right k u e) =
    let up = rank-larger (bucket m.nodes (2 * k + 1)) (bucket m.nodes (2 * k + 2)) in
    let top = ap rank (t.inner k (omega (arith, t.sized))) in
    rw e (omega (arith, up, top, Under-bucket m i k t (omega arith) u))

-- A registered page of the bucket or a larger one that is not excluded.
pub record IsSuitable (m : FreeSpaceMap) (b : ℕ) (excluded : List ℕ) (p : ℕ) : Type 0 where
  pub in_range : p < m.capacity
  pub known : (leaf_of m p).page_id ≡ some p
  pub roomy : suc b ≤ rank (leaf_of m p).max_bucket
  pub allowed : contains excluded p ≡ false

-- The answer for the pages below node `i`.
abbrev Answer : FreeSpaceMap → ℕ → List ℕ → ℕ → Option ℕ → Type 0
Answer m b excluded i none = (p : ℕ) → Under i (m.capacity - 1 + p) → ¬ IsSuitable m b excluded p
Answer m b excluded i (some p) = IsSuitable m b excluded p

Answer-leaf :
    (m : FreeSpaceMap) (b : ℕ) (excluded : List ℕ) (p : ℕ)
    → IsTree m
    → p < m.capacity
    → suc b ≤ rank (leaf_of m p).max_bucket
    → Answer m b excluded (m.capacity - 1 + p) (leaf_page (leaf_of m p) excluded)
unfolding leaf_page
Answer-leaf m b excluded p t h r = elim (t.leaves p h) [
  | inl (k, e) ↦ absurd (ground arith)
  | inr (k, _) ↦ elim (Bool-cases (contains excluded p)) [
    | inl c ↦
        let answer : leaf_page (leaf_of m p) excluded ≡ none = ground (arith, k, c) in
        subst (Answer m b excluded (m.capacity - 1 + p)) (sym answer) (λ q u s.
          elim (Under-cases (m.capacity - 1 + p) (m.capacity - 1 + q) u) [
            | inl e ↦
                let same : q ≡ p = omega arith in cc (s.allowed, c, ap (contains excluded) same)
            | inr (inl v) ↦ omega (arith, Under-le _ _ v, s.in_range)
            | inr (inr v) ↦ omega (arith, Under-le _ _ v, s.in_range)
          ])
    | inr c ↦
        let answer : leaf_page (leaf_of m p) excluded ≡ some p = ground (arith, k, c) in
        subst (Answer m b excluded (m.capacity - 1 + p)) (sym answer)
          (record { in_range = h; known = k; roomy = r; allowed = c })
  ]
]

-- The answers for the two subtrees make the answer for the node.
Answer-both :
    (m : FreeSpaceMap) (b : ℕ) (excluded : List ℕ) (i : ℕ) (r s : Option ℕ)
    → i < m.capacity - 1
    → Answer m b excluded (2 * i + 1) r
    → Answer m b excluded (2 * i + 2) s
    → Returns (Answer m b excluded i) (or_next (ok r) (or_next (ok s) (ok none)))
Answer-both m b excluded i (some p) s h a c = a
Answer-both m b excluded i none (some p) h a c = c
Answer-both m b excluded i none none h a c = λ p u. elim (Under-cases i (m.capacity - 1 + p) u) [
  | inl e ↦ absurd (omega arith)
  | inr (inl v) ↦ a p v
  | inr (inr v) ↦ c p v
]

Answer-run :
    (m : FreeSpaceMap) (b : ℕ) (excluded : List ℕ) (i : ℕ) (r s : Option ℕ)
    (x y : Outcome FreeSpaceMapError (Option ℕ))
    → x ≡ ok r
    → y ≡ ok s
    → i < m.capacity - 1
    → Answer m b excluded (2 * i + 1) r
    → Answer m b excluded (2 * i + 2) s
    → Returns (Answer m b excluded i) (or_next x (or_next y (ok none)))
Answer-run m b excluded i r s x y e f h a c =
    subst₂ (λ x y. Returns (Answer m b excluded i) (or_next x (or_next y (ok none)))) (sym e)
      (sym f) (Answer-both m b excluded i r s h a c)

find_page_recursive-Answer :
    (fuel : ℕ) (m : FreeSpaceMap) (i b : ℕ) (excluded : List ℕ)
    → IsTree m
    → i < length m.nodes
    → length m.nodes ≤ i + fuel
    → Returns (Answer m b excluded i) (find_page_recursive fuel m i b excluded)
unfolding find_page_recursive
find_page_recursive-Answer zero m i b excluded t h f = absurd (omega arith)
find_page_recursive-Answer (suc fuel) m i b excluded t h f =
    elim (Bool-cases (ltb (rank (bucket m.nodes i)) (suc b))) [
      | inl small ↦
          rw (node_at-at m.nodes i h, small)
            (λ p u s. omega (
              arith,
              ltb→lt _ _ small,
              s.roomy,
              Under-bucket m i (m.capacity - 1 + p) t (omega (arith, t.sized, s.in_range)) u,
            ))
      | inr big ↦ elim (Bool-cases (leb (m.capacity - 1) i)) [
        | inl leaf ↦
            let e : m.capacity - 1 + (i - (m.capacity - 1)) ≡ i = ground arith in
            rw (node_at-at m.nodes i h, big, leaf)
              (subst (λ j. Answer m b excluded j (leaf_page (at m.nodes j) excluded)) e
                (Answer-leaf m b excluded (i - (m.capacity - 1)) t
                  (omega (arith, t.sized, t.positive))
                  (subst (λ j. suc b ≤ rank (bucket m.nodes j)) (sym e) (ltb→ge _ _ big))))
        | inr inner ↦
            let low : i < m.capacity - 1 = ground arith in
            let (r, run, a) =
              Returns-value (Answer m b excluded (2 * i + 1))
                (find_page_recursive fuel m (2 * i + 1) b excluded)
                (find_page_recursive-Answer fuel m (2 * i + 1) b excluded t (omega (arith, t.sized))
                  (omega arith)) in
            let (s, run', c) =
              Returns-value (Answer m b excluded (2 * i + 2))
                (find_page_recursive fuel m (2 * i + 2) b excluded)
                (find_page_recursive-Answer fuel m (2 * i + 2) b excluded t (omega (arith, t.sized))
                  (omega arith)) in
            let first : (if ltb (2 * i + 1) (length m.nodes)
                  then find_page_recursive fuel m (2 * i + 1) b excluded
                  else ok none)
                ≡ ok r =
              rw (lt→ltb (2 * i + 1) (length m.nodes) (omega (arith, t.sized))) run in
            let second : (if ltb (2 * i + 2) (length m.nodes)
                  then find_page_recursive fuel m (2 * i + 2) b excluded
                  else ok none)
                ≡ ok s =
              rw (lt→ltb (2 * i + 2) (length m.nodes) (omega (arith, t.sized))) run' in
            rw (node_at-at m.nodes i h, big, inner)
              (Answer-run m b excluded i r s _ _ first second low a c)
      ]
    ]

-- What `find_page_excluding` answers: a suitable page; or nothing, and there is none.
abbrev pub Finds : FreeSpaceMap → ℕ → List ℕ → Option ℕ → Type 0
Finds m b excluded none = (p : ℕ) → ¬ IsSuitable m b excluded p
Finds m b excluded (some p) = IsSuitable m b excluded p

whole :
    (m : FreeSpaceMap) (b : ℕ) (excluded : List ℕ)
    → IsTree m
    → (r : Option ℕ) → Answer m b excluded 0 r
    → Finds m b excluded r
whole m b excluded t none a =
    λ p s. a p (Under-root (suc (m.capacity - 1 + p)) (m.capacity - 1 + p) (omega arith)) s
whole m b excluded t (some p) a = a

-- In a tree, `find_page_excluding` refuses a required space of a page or more. Otherwise it returns, and
-- answers a registered page that is not excluded and whose bucket is at least that of the required
-- space; it answers nothing only when there is no such page.
pub find_page_excluding-Finds :
    (m : FreeSpaceMap) (required_space : ℕ) (excluded : List ℕ)
    → IsTree m
    → ((page_size ≤ required_space)
        × (find_page_excluding m required_space excluded ≡ err invalid_free_space))
      ⊎ ((required_space < page_size)
          × Returns
              (Finds m (required_space / 512) excluded)
              (find_page_excluding m required_space excluded))
unfolding find_page_excluding
find_page_excluding-Finds m required_space excluded t = elim (get_bucket_id_lem required_space) [
  | inr (big, e) ↦ inl (big, ground (arith, e))
  | inl (small, e, _) ↦
      let b = required_space / 512 in
      inr (
        small,
        rw (e, ==-ne (length m.nodes) 0 (omega (arith, t.sized, t.positive)))
            (Returns-map (Answer m b excluded 0) (Finds m b excluded)
              (find_page_recursive (length m.nodes) m 0 b excluded) (whole m b excluded t)
              (find_page_recursive-Answer (length m.nodes) m 0 b excluded t
                (omega (arith, t.sized, t.positive)) (omega arith))),
      )
]

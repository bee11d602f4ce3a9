-- ===== src/Heap/Insert.antt =====
-- `insert`: the loop ends, and a record is refused only when no page has room and none can be added.
use task_pool_concurrency_im.Prelude.{
  ℕ, zero, suc, ◌+◌, ◌/◌, ◌≤◌, ◌<◌, ◌≡◌, ◌⊎◌, inl, inr, refl, ap, ◌∙◌, sym, subst, List, [], ◌∷◌,
  ◌++◌, true, false, Option, none, some, Outcome, ok, err, arith, dec_lt, ℕ_discrete, length, set,
  if◌then◌else◌, Bool-cases, Returns-value, ge→ltb, lt→ltb,
}
use task_pool_concurrency_im.Page
use task_pool_concurrency_im.Page.{SlottedPage, slot_size, max_available_slotted_page_space}
use task_pool_concurrency_im.Page.Records.{gap, free_space-gap, IsPage-IsBounded, new-Holds}
use task_pool_concurrency_im.Fsm
use task_pool_concurrency_im.Fsm.{contains, rank}
use task_pool_concurrency_im.Fsm.Find.{IsSuitable, Finds, find_page_excluding-Finds}
use task_pool_concurrency_im.Heap
use task_pool_concurrency_im.Heap.{
  HeapFile, HeapFileError, heap_file_full, insufficient_page_space, create_page, insert_page,
  insert_loop, insert,
}
use task_pool_concurrency_im.Heap.State.{page_at, records_at, IsHeap, get_page_lem}
use task_pool_concurrency_im.Heap.Pages.{create_page_lem, insert_page-room, get_or-append}

-- How many of the first `n` pages are not excluded.
unexcluded : List ℕ → ℕ → ℕ
unexcluded e zero = 0
unexcluded e (suc n) = (if contains e n then 0 else 1) + unexcluded e n

unexcluded-le : (e : List ℕ) (n : ℕ) → unexcluded e n ≤ n
unfolding unexcluded
unexcluded-le e zero = omega arith
unexcluded-le e (suc n) = ground (arith, unexcluded-le e n)

unexcluded-cons-le : (e : List ℕ) (p n : ℕ) → unexcluded (p ∷ e) n ≤ unexcluded e n
unfolding unexcluded contains
unexcluded-cons-le e p zero = omega arith
unexcluded-cons-le e p (suc n) = ground (arith, unexcluded-cons-le e p n)

unexcluded-cons-lt :
    (e : List ℕ) (p n : ℕ) → p < n → contains e p ≡ false → unexcluded (p ∷ e) n < unexcluded e n
unfolding unexcluded contains
unexcluded-cons-lt e p zero h c = absurd (omega arith)
unexcluded-cons-lt e p (suc n) h c = elim (dec_lt p n) [
  | yes q ↦ ground (arith, unexcluded-cons-lt e p n q c)
  | no q ↦
      let same : n ≡ p = omega arith in
      ground (arith, unexcluded-cons-le e p n, ap (contains e) same, same)
]

set-append :
    (css : List (List (List ℕ))) (x y : List (List ℕ))
    → set (css ++ x ∷ []) (length css) y ≡ css ++ y ∷ []
set-append [] x y = refl
set-append (c ∷ css) x y = ap (λ (l : List (List (List ℕ))). c ∷ l) (set-append css x y)

-- No page of the file has room.
abbrev pub NoRoom : HeapFile → ℕ → Type 0
NoRoom h req = (i : ℕ) → i < length h.pages → gap (page_at h i) < req

-- How `insert` ends for a record that fits a page: the file is full and unchanged; the record comes after
-- those of a page that has room; or it comes alone on a new page, since no page has room.
abbrev pub Inserted :
    HeapFile → List (List (List ℕ)) → List ℕ → HeapFile × Outcome HeapFileError (Unit {0}) → Type 0
Inserted h css r result =
    ((length h.pages ≡ h.capacity)
      × NoRoom h (length r + slot_size)
      × (result ≡ (h, err heap_file_full)))
    ⊎ ((i : ℕ) × (h' : HeapFile) × (i < length h.pages)
        × (length r + slot_size ≤ gap (page_at h i))
        × (result ≡ (h', ok tt))
        × IsHeap h' (set css i (records_at css i ++ r ∷ [])))
    ⊎ ((h' : HeapFile) × (length h.pages < h.capacity)
        × NoRoom h (length r + slot_size)
        × (result ≡ (h', ok tt))
        × IsHeap h' (css ++ (r ∷ []) ∷ []))

module _ (h : HeapFile) (css : List (List (List ℕ))) (r : List ℕ) (v : IsHeap h css)
    (fits : length r + slot_size ≤ max_available_slotted_page_space) where
  abbrev req : ℕ
  req = length r + slot_size

  -- The case that a page is added.
  added :
      NoRoom h req
      → Inserted h css r (Heap.proceed (create_page h) (λ page_id. insert_page page_id r))
  added none_left = elim (create_page_lem h css v) [
    | inl (full, e) ↦ inl (omega (arith, v.bounded), none_left, rw e refl)
    | inr (more, (h1, e, v1, len1, page1)) ↦
        let n = length h.pages in
        let fresh : records_at (css ++ [] ∷ []) n ≡ [] =
          ground (arith, get_or-append css [] [] n, v.counted) in
        let free : gap (page_at h1 n) ≡ gap Page.new = ap gap page1 in
        let room : gap Page.new ≡ max_available_slotted_page_space =
          cc (free_space-gap Page.new (IsPage-IsBounded Page.new new-Holds.0.page), new-Holds.1) in
        let (h2, e2, v2, _) =
          insert_page-room h1 (css ++ [] ∷ []) n r v1 (omega (arith, len1))
            (omega (arith, free, room, fits)) in
        let whole : set (css ++ [] ∷ []) n (records_at (css ++ [] ∷ []) n ++ r ∷ [])
            ≡ css ++ (r ∷ []) ∷ [] =
          rw (fresh, sym v.counted) (set-append css [] (r ∷ [])) in
        inr (inr (h2, more, none_left, rw (e, e2) refl, subst (IsHeap h2) whole v2))
  ]

  -- A page that the map names is a page of the file, and its leaf tells its free space.
  suitable-page :
      (excluded : List ℕ) (p : ℕ) → IsSuitable h.fsm (req / 512) excluded p → p < length h.pages
  suitable-page excluded p s = elim (dec_lt p (length h.pages)) [
    | yes q ↦ q
    | no q ↦
        absurd
          (cc (s.known, v.unmapped p (omega arith) (omega (arith, s.in_range, v.same_capacity))))
  ]

  unsuitable-gap :
      (excluded : List ℕ) (i : ℕ)
      → i < length h.pages
      → contains excluded i ≡ false
      → ¬ IsSuitable h.fsm (req / 512) excluded i
      → gap (page_at h i) < req
  unsuitable-gap excluded i q c n = elim (dec_lt (gap (page_at h i)) req) [
    | yes k ↦ k
    | no k ↦ absurd (
        n (record {
          in_range = omega (arith, v.same_capacity, v.bounded);
          known = ap (λ x. x.page_id) (v.mapped i q);
          roomy = omega (arith, ap (λ x. rank x.max_bucket) (v.mapped i q));
          allowed = c;
        }))
  ]

  -- What is known of the excluded pages.
  abbrev AllFull : List ℕ → Type 0
  AllFull excluded =
      (i : ℕ) → i < length h.pages → contains excluded i ≡ true → gap (page_at h i) < req

  more_full :
      (p : ℕ) (excluded : List ℕ)
      → AllFull excluded
      → gap (page_at h p) < req
      → AllFull (p ∷ excluded)
  unfolding contains
  more_full p excluded full small i q c = elim (ℕ_discrete p i) [
    | yes e ↦ subst (λ j. gap (page_at h j) < req) e small
    | no n ↦ full i q (ground (arith, c, n))
  ]

  -- A round of the loop, by what the map answers.
  round :
      (fuel : ℕ) (excluded : List ℕ) (o : Option ℕ)
      → AllFull excluded
      → ((p : ℕ)
          → p < length h.pages
          → contains excluded p ≡ false
          → gap (page_at h p) < req
          → Inserted h css r (insert_loop fuel r req (p ∷ excluded) h))
      → Fsm.find_page_excluding h.fsm req excluded ≡ ok o
      → Finds h.fsm (req / 512) excluded o
      → Inserted h css r (insert_loop (suc fuel) r req excluded h)
  unfolding insert_loop
  round fuel excluded none full again e a =
      rw (e, insert_loop)
        (added (λ i q. elim (Bool-cases (contains excluded i)) [
          | inl c ↦ full i q c
          | inr c ↦ unsuitable-gap excluded i q c (a i)
        ]))
  round fuel excluded (some p) full again e a =
      let q = suitable-page excluded p a in
      let free = free_space-gap (page_at h p) (IsPage-IsBounded (page_at h p) (v.held p q).page) in
      elim (dec_lt (gap (page_at h p)) req) [
        | yes small ↦
            let next : insert_loop (suc fuel) r req excluded h
                ≡ insert_loop fuel r req (p ∷ excluded) h =
              ground (arith, e, get_page_lem h p q, free, small) in
            subst (Inserted h css r) (sym next) (again p q a.allowed small)
        | no big ↦
            let room : req ≤ gap (page_at h p) = omega arith in
            let (h', run, v', _) = insert_page-room h css p r v q room in
            let done : insert_loop (suc fuel) r req excluded h ≡ insert_page p r h =
              ground (arith, e, get_page_lem h p q, free, room) in
            inr (inl (p, h', q, room, done ∙ run, v'))
      ]

  -- The loop, with every excluded page known to be too full, ends within its fuel.
  insert_loop-Inserted :
      (fuel : ℕ) (excluded : List ℕ)
      → AllFull excluded
      → unexcluded excluded (length h.pages) < fuel
      → Inserted h css r (insert_loop fuel r req excluded h)
  insert_loop-Inserted zero excluded full f = absurd (omega arith)
  insert_loop-Inserted (suc fuel) excluded full f =
      elim (find_page_excluding-Finds h.fsm req excluded v.tree) [
        | inl (bad, _) ↦ absurd (omega arith)
        | inr (_, found) ↦
            let (o, e, a) =
              Returns-value (Finds h.fsm (req / 512) excluded)
                (Fsm.find_page_excluding h.fsm req excluded) found in
            round fuel excluded o full
              (λ p q c small.
                insert_loop-Inserted fuel (p ∷ excluded) (more_full p excluded full small)
                  (omega (arith, unexcluded-cons-lt excluded p (length h.pages) q c)))
              e a
      ]

-- Of a heap file whose capacity is at most 65536 and not below its number of pages, whose map is a tree
-- with a leaf for each page that tells its free space and no other page, and whose pages hold the given
-- records, each page as insertions and deletions leave it, never compacted: `insert` of a record too
-- long for any page is an error and changes nothing. Any other record: with a page that has room for it
-- and a slot, it comes after the records of such a page; with no such page it comes alone on a new page;
-- and it is refused, with nothing changed, exactly when no page has room and the file has as many pages
-- as its capacity. Either way the file is again as required. The loop always ends.
pub insert-Inserted :
    (h : HeapFile) (css : List (List (List ℕ))) (r : List ℕ)
    → IsHeap h css
    → ((max_available_slotted_page_space < length r + slot_size)
        × (insert r h ≡ (h, err insufficient_page_space)))
      ⊎ ((length r + slot_size ≤ max_available_slotted_page_space) × Inserted h css r (insert r h))
unfolding insert
insert-Inserted h css r v = elim (dec_lt max_available_slotted_page_space (length r + slot_size)) [
  | yes big ↦
      inl (big, rw (lt→ltb max_available_slotted_page_space (length r + slot_size) big) refl)
  | no small ↦
      let fits : length r + slot_size ≤ max_available_slotted_page_space = omega arith in
      inr (
        fits,
        rw (ge→ltb max_available_slotted_page_space (length r + slot_size) fits) (
            insert_loop-Inserted h css r v fits (length h.pages + 1) []
              (λ i q c. absurd (unfold contains in cc))
              (omega (arith, unexcluded-le [] (length h.pages)))),
      )
]

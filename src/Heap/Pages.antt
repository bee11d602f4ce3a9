-- ===== src/Heap/Pages.antt =====
-- `create_page` and `insert_page` keep the file and its map together.
use native.Mathlib.Nat.{mod-eq_of_lt}
use task_pool_concurrency_im.Prelude.{
  ℕ, zero, suc, ◌+◌, ◌%◌, ◌≤◌, ◌<◌, ◌≡◌, ◌≢◌, ◌⊎◌, inl, inr, refl, ap, ◌∙◌, sym, subst, subst₂, ap₂,
  List, [], ◌∷◌, ◌++◌, ok, err, arith, dec_lt, length, get_or, set, u16_mod, ℕ_discrete,
  length-append, length-set, get_or-set, if◌then◌else◌, ltb, ◌==◌, le→leb, lt→leb_false,
}
use task_pool_concurrency_im.Page
use task_pool_concurrency_im.Page.{SlottedPage, slot_size}
use task_pool_concurrency_im.Page.Records.{Holds, gap, free_space-gap, IsPage-IsBounded, new-Holds}
use task_pool_concurrency_im.Page.Insert.{insert-Holds}
use task_pool_concurrency_im.Fsm.{FreeSpaceMap}
use task_pool_concurrency_im.Fsm.Update.{leaf_of, Written}
use task_pool_concurrency_im.Fsm.Register.{registered, register_page_lem, update_page_lem}
use task_pool_concurrency_im.Heap.{HeapFile, heap_file_full, create_page, insert_page}
use task_pool_concurrency_im.Heap.State.{page_at, records_at, IsHeap, gap-lt, get_page_lem}

module _ {ℓ} {A : Type ℓ} where
  pub get_or-append :
      (xs : List A) (x d : A) (i : ℕ)
      → get_or (xs ++ x ∷ []) i d
        ≡ (if ltb i (length xs) then get_or xs i d else if i == length xs then x else d)
  get_or-append [] x d zero = ground arith
  get_or-append [] x d (suc i) = ground arith
  get_or-append (y ∷ xs) x d zero = ground arith
  get_or-append (y ∷ xs) x d (suc i) = ground (arith, get_or-append xs x d i)

-- Page `i` now holds `rs`, and the others what they held.
abbrev pub stored : List (List (List ℕ)) → ℕ → List (List ℕ) → List (List (List ℕ))
stored css i rs = set css i rs

module _ (h : HeapFile) (css : List (List (List ℕ))) (v : IsHeap h css) where
  -- The file with one more page.
  abbrev grown : FreeSpaceMap → HeapFile
  grown fsm = record { pages = h.pages ++ Page.new ∷ []; fsm = fsm; capacity = h.capacity }

  last : ℕ
  last = length h.pages

  grown-IsHeap :
      (fsm : FreeSpaceMap)
      → length h.pages < h.capacity
      → Written h.fsm (length h.pages) (registered (length h.pages) (gap Page.new)) fsm
      → IsHeap (grown fsm) (css ++ [] ∷ [])
  grown-IsHeap fsm q w = record {
    tree = w.tree;
    same_capacity = w.same_capacity ∙ v.same_capacity;
    bounded = omega (arith, length-append h.pages (Page.new ∷ []));
    addressable = v.addressable;
    counted =
        omega
          (arith, length-append h.pages (Page.new ∷ []), length-append css ([] ∷ []), v.counted);
    held = λ i k. elim (dec_lt i (length h.pages)) [
      | yes old ↦ subst₂ Holds (sym (page_old i old)) (sym (records_old i old)) (v.held i old)
      | no n ↦
          let e : i ≡ length h.pages = omega (arith, length-append h.pages (Page.new ∷ [])) in
          subst₂ Holds (sym (page_new i e)) (sym (records_new i e)) new-Holds.0
    ];
    mapped = λ i k. elim (dec_lt i (length h.pages)) [
      | yes old ↦
          w.others i (omega (arith, v.same_capacity)) (omega arith)
          ∙ v.mapped i old
          ∙ ap (λ (p : SlottedPage). registered i (gap p)) (sym (page_old i old))
      | no n ↦
          let e : i ≡ length h.pages = omega (arith, length-append h.pages (Page.new ∷ [])) in
          ap (leaf_of fsm) e
          ∙ w.written
          ∙ ap₂ (λ (j : ℕ) (p : SlottedPage). registered j (gap p)) (sym e) (sym (page_new i e))
    ];
    unmapped = λ i k l.
        let past : length h.pages < i = omega (arith, length-append h.pages (Page.new ∷ [])) in
        ap (λ x. x.page_id) (w.others i (omega (arith, v.same_capacity)) (omega arith))
        ∙ v.unmapped i (omega arith) l;
  }
    where
      page_old :
          (i : ℕ) → i < length h.pages → get_or (h.pages ++ Page.new ∷ []) i Page.new ≡ page_at h i
      page_old i k = ground (arith, get_or-append h.pages Page.new Page.new i, k)

      page_new :
          (i : ℕ) → i ≡ length h.pages → get_or (h.pages ++ Page.new ∷ []) i Page.new ≡ Page.new
      page_new i k = ground (arith, get_or-append h.pages Page.new Page.new i, k)

      records_old : (i : ℕ) → i < length h.pages → get_or (css ++ [] ∷ []) i [] ≡ records_at css i
      records_old i k = ground (arith, get_or-append css [] [] i, k, v.counted)

      records_new : (i : ℕ) → i ≡ length h.pages → get_or (css ++ [] ∷ []) i [] ≡ []
      records_new i k = ground (arith, get_or-append css [] [] i, k, v.counted)

-- `create_page` is an error exactly when the file is at its capacity, and then changes nothing.
-- Otherwise it returns the number of pages so far, and adds a page without records.
pub create_page_lem :
    (h : HeapFile) (css : List (List (List ℕ)))
    → IsHeap h css
    → ((h.capacity ≤ length h.pages) × (create_page h ≡ (h, err heap_file_full)))
      ⊎ ((length h.pages < h.capacity)
          × ((h' : HeapFile) × (create_page h ≡ (h', ok (length h.pages)))
              × IsHeap h' (css ++ [] ∷ [])
              × (length h'.pages ≡ suc (length h.pages))
              × (page_at h' (length h.pages) ≡ Page.new)))
unfolding create_page
create_page_lem h css v = elim (dec_lt (length h.pages) h.capacity) [
  | no full ↦ inl (omega arith, rw (le→leb h.capacity (length h.pages) (omega arith)) refl)
  | yes q ↦
      let free = free_space-gap Page.new (IsPage-IsBounded Page.new new-Holds.0.page) in
      let small : length h.pages % u16_mod ≡ length h.pages =
        mod-eq_of_lt (omega (arith, v.addressable)) in
      inr (
        q,
        elim (register_page_lem h.fsm (length h.pages) (gap Page.new) v.tree) [
          | inl (bad, _) ↦ absurd (omega (arith, v.same_capacity))
          | inr (inl (_, bad, _)) ↦ absurd (omega (arith, gap-lt Page.new [] new-Holds.0))
          | inr (inr (_, _, (fsm, run, w))) ↦ (
            grown h css v fsm,
            rw (lt→leb_false h.capacity (length h.pages) q, free, small, run) refl,
            grown-IsHeap h css v fsm q w,
            omega (arith, length-append h.pages (Page.new ∷ [])),
            ground (arith, get_or-append h.pages Page.new Page.new (length h.pages)),
          )
        ],
      )
]

module _ (h : HeapFile) (css : List (List (List ℕ))) (v : IsHeap h css) (i : ℕ) (p' : SlottedPage)
    (rs' : List (List ℕ)) (fsm : FreeSpaceMap) (q : i < length h.pages) (held' : Holds p' rs')
    (w : Written h.fsm i (registered i (gap p')) fsm) where
  -- The file with another page in the place of page `i`.
  abbrev rewritten : HeapFile
  rewritten = record { pages = set h.pages i p'; fsm = fsm; capacity = h.capacity }

  page_self : get_or (set h.pages i p') i Page.new ≡ p'
  page_self = ground (arith, get_or-set h.pages i i p' Page.new q)

  page_other : (j : ℕ) → j ≢ i → get_or (set h.pages i p') j Page.new ≡ page_at h j
  page_other j n = ground (arith, get_or-set h.pages i j p' Page.new q)

  records_self : get_or (set css i rs') i [] ≡ rs'
  records_self = ground (arith, get_or-set css i i rs' [], v.counted, q)

  records_other : (j : ℕ) → j ≢ i → get_or (set css i rs') j [] ≡ records_at css j
  records_other j n = ground (arith, get_or-set css i j rs' [], v.counted, q)

  rewritten-IsHeap : IsHeap rewritten (set css i rs')
  rewritten-IsHeap = record {
    tree = w.tree;
    same_capacity = w.same_capacity ∙ v.same_capacity;
    bounded = omega (arith, length-set h.pages i p', v.bounded);
    addressable = v.addressable;
    counted = length-set css i rs' ∙ v.counted ∙ sym (length-set h.pages i p');
    held = λ j k. elim (ℕ_discrete j i) [
      | yes e ↦
          subst (λ x. Holds (get_or (set h.pages i p') x Page.new) (get_or (set css i rs') x []))
            (sym e) (subst₂ Holds (sym page_self) (sym records_self) held')
      | no e ↦
          subst₂ Holds (sym (page_other j e)) (sym (records_other j e))
            (v.held j (omega (arith, length-set h.pages i p')))
    ];
    mapped = λ j k. elim (ℕ_discrete j i) [
      | yes e ↦
          subst (λ x. leaf_of fsm x ≡ registered x (gap (get_or (set h.pages i p') x Page.new)))
            (sym e) (w.written ∙ ap (λ (p : SlottedPage). registered i (gap p)) (sym page_self))
      | no e ↦
          w.others j (omega (arith, v.same_capacity, v.bounded, length-set h.pages i p')) e
          ∙ v.mapped j (omega (arith, length-set h.pages i p'))
          ∙ ap (λ (p : SlottedPage). registered j (gap p)) (sym (page_other j e))
    ];
    unmapped = λ j k l.
        ap (λ x. x.page_id)
          (w.others j (omega (arith, v.same_capacity)) (omega (arith, length-set h.pages i p')))
        ∙ v.unmapped j (omega (arith, length-set h.pages i p')) l;
  }

-- `insert_page` to a page of the file with room for the record and a slot appends the record to that
-- page's, and leaves the other pages' records alone; the map is up to date again.
pub insert_page-room :
    (h : HeapFile) (css : List (List (List ℕ))) (i : ℕ) (r : List ℕ)
    → IsHeap h css
    → i < length h.pages
    → length r + slot_size ≤ gap (page_at h i)
    → (h' : HeapFile) × (insert_page i r h ≡ (h', ok tt))
      × IsHeap h' (set css i (records_at css i ++ r ∷ []))
      × (length h'.pages ≡ length h.pages)
unfolding insert_page
insert_page-room h css i r v q room =
    elim (insert-Holds (page_at h i) (records_at css i) r (v.held i q)) [
      | inl (bad, _) ↦ absurd (omega arith)
      | inr (_, (p', run, held', less)) ↦ elim (update_page_lem h.fsm i (gap p') v.tree) [
        | inl (bad, _) ↦ absurd (omega (arith, v.same_capacity, v.bounded))
        | inr (inl (_, bad, _)) ↦
            absurd (omega (arith, gap-lt p' (records_at css i ++ r ∷ []) held'))
        | inr (inr (inl (_, _, bad, _))) ↦ absurd (ground (arith, v.mapped i q))
        | inr (inr (inr (_, _, _, (fsm, run', w)))) ↦ (
          rewritten h css v i p' (records_at css i ++ r ∷ []) fsm q held' w,
          rw (get_page_lem h i q, run, free_space-gap p' (IsPage-IsBounded p' held'.page), run')
              refl,
          rewritten-IsHeap h css v i p' (records_at css i ++ r ∷ []) fsm q held' w,
          length-set h.pages i p',
        )
      ]
    ]

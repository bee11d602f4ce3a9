-- ===== src/Heap/Scan/Order.antt =====
-- A scan answers the records that are not empty, in order of page and slot.
use task_pool_concurrency_im.Prelude.{
  ℕ, zero, suc, ◌+◌, ◌≤◌, ◌<◌, ◌≡◌, ◌⊎◌, inl, inr, ◌∙◌, refl, ap, sym, List, [], ◌∷◌, Option, none,
  some, arith, length, get_or, Outcome, ok, IoError, dec_lt, u16_mod, page_size,
}
use task_pool_concurrency_im.Page
use task_pool_concurrency_im.Page.Records.{get-Holds}
use task_pool_concurrency_im.Heap.{HeapFile, HeapFileError, get_page}
use task_pool_concurrency_im.Heap.State.{page_at, records_at, IsHeap, get_page_lem}
use task_pool_concurrency_im.Heap.Scan.{HeapFileScan, next, collect, new}
use task_pool_concurrency_im.Heap.Scan.Rest.{
  all_live, remaining, work, before, all_live-remaining, remaining_past, remaining_next_page,
  remaining_next_slot, work_next_page, work_next_slot,
}

abbrev pub rest : List (List (List ℕ)) → HeapFileScan → List (List ℕ)
rest css s = remaining css s.page_id s.slot_id

-- `next` answers the first of the records that remain, and the others remain; or none remains.
abbrev pub Next :
    List (List (List ℕ)) → HeapFileScan → Outcome IoError (Option (List ℕ) × HeapFileScan) → Type 0
Next css s result =
    ((rest css s ≡ []) × ((s' : HeapFileScan) × (result ≡ ok (none, s'))))
    ⊎ ((r : List ℕ) × (s' : HeapFileScan) × (rest css s ≡ r ∷ rest css s')
        × (result ≡ ok (some r, s'))
        × (work css s'.page_id s'.slot_id < work css s.page_id s.slot_id))

module _ (h : HeapFile) (css : List (List (List ℕ))) (v : IsHeap h css)
    (small : length h.pages < u16_mod) where
  -- What `next` reads of the page under the scan.
  page_facts :
      (s : HeapFileScan)
      → s.page_id < length h.pages
      → ((get_page s.page_id h).1 ≡ ok (page_at h s.page_id))
        × (Page.get_slot_count (page_at h s.page_id) ≡ length (records_at css s.page_id))
        × (length (records_at css s.page_id) < page_size)
  page_facts s p =
      let held = v.held s.page_id p in
      (
        ap (λ (x : HeapFile × Outcome HeapFileError Page.SlottedPage). x.1)
            (get_page_lem h s.page_id p),
        held.counted,
        omega (arith, held.counted, held.page.directory, held.page.ended),
      )

  -- In page `s.page_id`, the slot's record and what the loop does with it.
  slot_run :
      (fuel : ℕ) (s : HeapFileScan) (r : List ℕ)
      → s.page_id < length h.pages
      → s.slot_id < length (records_at css s.page_id)
      → r ≡ get_or (records_at css s.page_id) s.slot_id []
      → next (suc fuel) h s ≡ (elim r [
        | [] ↦ next fuel h (record s { slot_id = s.slot_id + 1 })
        | b ∷ bs ↦ ok (some (b ∷ bs), record s { slot_id = s.slot_id + 1 })
      ])
  unfolding next
  slot_run fuel s r p q e =
      let (found, counted, few) = page_facts s p in
      let got =
        get-Holds (page_at h s.page_id) (records_at css s.page_id) s.slot_id (v.held s.page_id p)
          q in
      ground (arith, found, counted, few, got, e)

  page_run :
      (fuel : ℕ) (s : HeapFileScan)
      → s.page_id < length h.pages
      → length (records_at css s.page_id) ≤ s.slot_id
      → next (suc fuel) h s ≡ next fuel h (record { page_id = s.page_id + 1; slot_id = 0 })
  unfolding next
  page_run fuel s p q =
      let (found, counted, few) = page_facts s p in ground (arith, found, counted, small)

  past_run :
      (fuel : ℕ) (s : HeapFileScan)
      → length h.pages ≤ s.page_id
      → next (suc fuel) h s ≡ ok (none, s)
  unfolding next
  past_run fuel s p = ground arith

  -- The scan after one slot.
  abbrev advanced : HeapFileScan → HeapFileScan
  advanced s = record s { slot_id = s.slot_id + 1 }

  abbrev turned : HeapFileScan → HeapFileScan
  turned s = record { page_id = s.page_id + 1; slot_id = 0 }

  one_more : (n : ℕ) → n + 1 ≡ suc n
  one_more n = omega arith

  rest-advanced :
      (s : HeapFileScan)
      → s.slot_id < length (records_at css s.page_id)
      → (rest css s
          ≡ before (get_or (records_at css s.page_id) s.slot_id []) (rest css (advanced s)))
        × (work css s.page_id (s.slot_id + 1) < work css s.page_id s.slot_id)
  rest-advanced s q =
      rw (one_more s.slot_id)
        (remaining_next_slot css s.page_id s.slot_id q, work_next_slot css s.page_id s.slot_id q)

  rest-turned :
      (s : HeapFileScan)
      → s.page_id < length h.pages
      → length (records_at css s.page_id) ≤ s.slot_id
      → (rest css s ≡ rest css (turned s))
        × (work css (s.page_id + 1) 0 < work css s.page_id s.slot_id)
  rest-turned s p q =
      let inside : s.page_id < length css = omega (arith, v.counted) in
      rw (one_more s.page_id) (
        remaining_next_page css s.page_id s.slot_id q inside,
        work_next_page css s.page_id s.slot_id inside,
      )

  Next-later :
      (s s' : HeapFileScan) (result : Outcome IoError (Option (List ℕ) × HeapFileScan))
      → rest css s ≡ rest css s'
      → work css s'.page_id s'.slot_id < work css s.page_id s.slot_id
      → Next css s' result
      → Next css s result
  Next-later s s' result e w (inl (a, b)) = inl (e ∙ a, b)
  Next-later s s' result e w (inr (r, t, a, b, c)) = inr (r, t, e ∙ a, b, omega arith)

  slot-Next :
      (fuel : ℕ) (s : HeapFileScan) (r : List ℕ)
      → s.page_id < length h.pages
      → s.slot_id < length (records_at css s.page_id)
      → r ≡ get_or (records_at css s.page_id) s.slot_id []
      → Next css (advanced s) (next fuel h (advanced s))
      → Next css s (next (suc fuel) h s)
  slot-Next fuel s [] p q e again =
      let (a, w) = rest-advanced s q in
      let same : rest css s ≡ rest css (advanced s) =
        a ∙ ap (λ (x : List ℕ). before x (rest css (advanced s))) (sym e) in
      rw (slot_run fuel s [] p q e)
        (Next-later s (advanced s) (next fuel h (advanced s)) same w again)
  slot-Next fuel s (b ∷ bs) p q e again =
      let (a, w) = rest-advanced s q in
      let split : rest css s ≡ (b ∷ bs) ∷ rest css (advanced s) =
        a ∙ ap (λ (x : List ℕ). before x (rest css (advanced s))) (sym e) in
      inr (b ∷ bs, advanced s, split, slot_run fuel s (b ∷ bs) p q e, w)

  -- With enough fuel `next` answers, and answers the first of the records that remain.
  pub next-Next :
      (fuel : ℕ) (s : HeapFileScan)
      → work css s.page_id s.slot_id < fuel
      → Next css s (next fuel h s)
  next-Next zero s w = absurd (omega arith)
  next-Next (suc fuel) s w = elim (dec_lt s.page_id (length h.pages)) [
    | no p ↦ inl (
      remaining_past css s.page_id s.slot_id (omega (arith, v.counted)),
      (s, past_run fuel s (omega arith)),
    )
    | yes p ↦ elim (dec_lt s.slot_id (length (records_at css s.page_id))) [
      | no q ↦
          let (e, less) = rest-turned s p (omega arith) in
          rw (page_run fuel s p (omega arith)) (
            Next-later s (turned s) (next fuel h (turned s)) e less
              (next-Next fuel (turned s) (omega arith)))
      | yes q ↦
          let (e, less) = rest-advanced s q in
          slot-Next fuel s (get_or (records_at css s.page_id) s.slot_id []) p q refl
            (next-Next fuel (advanced s) (omega arith))
    ]
  ]

  collect-rest :
      (fuel rounds : ℕ) (s : HeapFileScan)
      → length (rest css s) < fuel
      → work css s.page_id s.slot_id < rounds
      → collect fuel rounds h s ≡ ok (rest css s)
  unfolding collect
  collect-rest zero rounds s l w = absurd (omega arith)
  collect-rest (suc fuel) rounds s l w = elim (next-Next rounds s w) [
    | inl (e, (t, n)) ↦ ground (arith, n, e)
    | inr (r, t, e, n, less) ↦
        let shorter = ap length e in
        let tail = collect-rest fuel rounds t (omega arith) (omega arith) in
        ground (arith, n, e, tail)
  ]

  -- A scan of a heap file that `IsHeap` describes, with fewer than 65536 pages, answers the records that
  -- are not empty, in order of page and slot, and ends, given fuel for one round more than there are
  -- pages and records, and for one answer more than there are records.
  pub collect-all_live :
      (fuel rounds : ℕ)
      → length (all_live css) < fuel
      → work css 0 0 < rounds
      → collect fuel rounds h new ≡ ok (all_live css)
  unfolding new
  collect-all_live fuel rounds l w =
      let same = all_live-remaining css in
      collect-rest fuel rounds (record { page_id = 0; slot_id = 0 }) (omega (arith, ap length same))
        w
      ∙ ap ok same

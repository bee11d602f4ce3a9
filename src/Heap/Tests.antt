-- ===== src/Heap/Tests.antt =====
-- A heap file without pages, with a capacity of two.
use task_pool_concurrency_im.Prelude.{
  ℕ, zero, suc, ◌+◌, ◌<◌, ◌≤◌, ◌≡◌, ◌⊎◌, inl, inr, refl, List, [], ◌∷◌, none, ok, err, arith,
  length,
}
use task_pool_concurrency_im.Page.{slot_size, max_available_slotted_page_space}
use task_pool_concurrency_im.Fsm.{FreeSpaceMap, empty_node, larger}
use task_pool_concurrency_im.Fsm.Tree.{at, IsMax, IsLeaf}
use task_pool_concurrency_im.Fsm.Update.{leaf_of}
use task_pool_concurrency_im.Heap.{HeapFile, insert, insufficient_page_space}
use task_pool_concurrency_im.Heap.State.{IsHeap}
use task_pool_concurrency_im.Heap.Insert.{Inserted, insert-Inserted}
use task_pool_concurrency_im.Heap.Scan
use task_pool_concurrency_im.Heap.Scan.{collect}
use task_pool_concurrency_im.Heap.Scan.Rest.{live, all_live, work}
use task_pool_concurrency_im.Heap.Scan.Order.{collect-all_live}

abbrev no_pages : FreeSpaceMap
no_pages = record { nodes = empty_node ∷ empty_node ∷ empty_node ∷ []; capacity = 2 }

abbrev empty_file : HeapFile
empty_file = record { pages = []; fsm = no_pages; capacity = 2 }

no_pages-inner : (i : ℕ) → i < 1 → IsMax no_pages.nodes i
unfolding larger
no_pages-inner zero h = refl
no_pages-inner (suc i) h = absurd (omega arith)

no_pages-leaves : (p : ℕ) → p < 2 → IsLeaf (at no_pages.nodes (1 + p)) p
no_pages-leaves zero h = inl (refl, refl)
no_pages-leaves (suc zero) h = inl (refl, refl)
no_pages-leaves (suc (suc p)) h = absurd (omega arith)

no_pages-free : (p : ℕ) → p < 2 → (leaf_of no_pages p).page_id ≡ none
no_pages-free zero h = refl
no_pages-free (suc zero) h = refl
no_pages-free (suc (suc p)) h = absurd (omega arith)

empty_file-IsHeap : IsHeap empty_file []
empty_file-IsHeap = record {
  tree = record {
    positive = omega arith;
    sized = refl;
    inner = no_pages-inner;
    leaves = no_pages-leaves;
  };
  same_capacity = refl;
  bounded = omega arith;
  addressable = omega arith;
  counted = refl;
  held = λ i h. absurd (omega arith);
  mapped = λ i h. absurd (omega arith);
  unmapped = λ i h k. no_pages-free i k;
}

abbrev a_record : List ℕ
a_record = 5 ∷ 6 ∷ 7 ∷ []

insert-Inserted_example :
    ((max_available_slotted_page_space < length a_record + slot_size)
      × (insert a_record empty_file ≡ (empty_file, err insufficient_page_space)))
    ⊎ ((length a_record + slot_size ≤ max_available_slotted_page_space)
        × Inserted empty_file [] a_record (insert a_record empty_file))
insert-Inserted_example = insert-Inserted empty_file [] a_record empty_file-IsHeap

-- The file after one insertion.
one_record : (h : HeapFile) × IsHeap h ((a_record ∷ []) ∷ [])
one_record =
    let run = insert-Inserted empty_file [] a_record empty_file-IsHeap in
    elim run [
      | inl (p, e) ↦ absurd (omega arith)
      | inr (p, inl (full, no_room, e)) ↦ absurd (omega arith)
      | inr (p, inr (inl (i, h, near, fits, done, v))) ↦ absurd (omega arith)
      | inr (p, inr (inr (h, room, no_room, e, v))) ↦ (h, v)
    ]

collect-all_live_example : collect 2 4 one_record.0 Scan.new ≡ ok (a_record ∷ [])
unfolding live all_live work
collect-all_live_example =
    collect-all_live one_record.0 ((a_record ∷ []) ∷ []) one_record.1
      (omega (arith, one_record.1.counted)) 2 4 (omega arith) (omega arith)

-- ===== src/Heap/State.antt =====
-- The heap file and the lists of records that its pages hold.
use task_pool_concurrency_im.Prelude.{
  ℕ, ◌≤◌, ◌<◌, ◌≡◌, List, [], none, ok, arith, length, get_or, u16_mod, page_size, get_elem?-get_or,
}
use task_pool_concurrency_im.Page
use task_pool_concurrency_im.Page.{SlottedPage, slot_size}
use task_pool_concurrency_im.Page.Records.{Holds, gap}
use task_pool_concurrency_im.Fsm.Tree.{IsTree}
use task_pool_concurrency_im.Fsm.Update.{leaf_of}
use task_pool_concurrency_im.Fsm.Register.{registered}
use task_pool_concurrency_im.Heap.{HeapFile, get_page}

abbrev pub page_at : HeapFile → ℕ → SlottedPage
page_at h i = get_or h.pages i Page.new

abbrev pub records_at : List (List (List ℕ)) → ℕ → List (List ℕ)
records_at css i = get_or css i []

-- The file holds the records `css`, by page and slot, and its map knows every page's free space.
pub record IsHeap (h : HeapFile) (css : List (List (List ℕ))) : Type 0 where
  pub tree : IsTree h.fsm
  pub same_capacity : h.fsm.capacity ≡ h.capacity
  pub bounded : length h.pages ≤ h.capacity
  pub addressable : h.capacity ≤ u16_mod
  pub counted : length css ≡ length h.pages
  pub held : (i : ℕ) → i < length h.pages → Holds (page_at h i) (records_at css i)
  pub mapped : (i : ℕ) → i < length h.pages → leaf_of h.fsm i ≡ registered i (gap (page_at h i))
  pub unmapped : (i : ℕ) → length h.pages ≤ i → i < h.capacity → (leaf_of h.fsm i).page_id ≡ none

pub gap-lt : (p : SlottedPage) (rs : List (List ℕ)) → Holds p rs → gap p < page_size
gap-lt p rs v = omega (arith, v.page.ended, v.page.directory)

pub get_page_lem :
    (h : HeapFile) (i : ℕ) → i < length h.pages → get_page i h ≡ (h, ok (page_at h i))
unfolding get_page
get_page_lem h i q = ground (arith, get_elem?-get_or h.pages i Page.new q)

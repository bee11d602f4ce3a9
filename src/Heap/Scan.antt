-- ===== src/Heap/Scan.antt =====
-- src/storage/heap/scan.rs and src/storage/access/owned.rs: the scan of a heap file, record by record.
-- The file that the scan borrows is an argument. Fuel counts the rounds of the loop in `next`, and the
-- calls of `next` that collect its answers; without it left the call would still be running.
pub mod Rest
pub mod Order
use task_pool_concurrency_im.Prelude.{
  ℕ, zero, suc, ◌+◌, List, [], ◌∷◌, Bool, true, false, Option, none, some, Outcome, ok, err, panic,
  IoError, ◌>>=◌, ◌>>◌, assert, ltb, leb, if◌then◌else◌, length, u16_mod,
}
use task_pool_concurrency_im.Page
use task_pool_concurrency_im.Heap.{HeapFile, get_page}

pub record HeapFileScan : Type 0 where
  pub page_id : ℕ
  pub slot_id : ℕ

unfoldable pub new : HeapFileScan
new = record { page_id = 0; slot_id = 0 }

unfoldable pub next : ℕ → HeapFile → HeapFileScan → Outcome IoError (Option (List ℕ) × HeapFileScan)
next zero h s = panic
next (suc fuel) h s =
    if leb (length h.pages) s.page_id then ok (none, s) else elim ((get_page s.page_id h).1) [
      | err e ↦ ok (none, s)
      | panic ↦ panic
      | ok page ↦ elim (leb (Page.get_slot_count page) s.slot_id) [
        | true ↦
            assert (ltb (s.page_id + 1) u16_mod)
            >> next fuel h (record { page_id = s.page_id + 1; slot_id = 0 })
        | false ↦
            assert (ltb (s.slot_id + 1) u16_mod)
            >> (Page.get page s.slot_id >>= elim [
              | [] ↦ next fuel h (record s { slot_id = s.slot_id + 1 })
              | b ∷ bs ↦ ok (some (b ∷ bs), record s { slot_id = s.slot_id + 1 })
            ])
      ]
    ]

-- `OwnedAdapter` hands on copies of the answers, and `collect` takes them until there is none.
unfoldable pub collect : ℕ → ℕ → HeapFile → HeapFileScan → Outcome IoError (List (List ℕ))
collect zero rounds h s = panic
collect (suc fuel) rounds h s = elim (next rounds h s) [
  | err e ↦ err e
  | panic ↦ panic
  | ok (none, s') ↦ ok []
  | ok (some r, s') ↦ collect fuel rounds h s' >>= λ rs. ok (r ∷ rs)
]

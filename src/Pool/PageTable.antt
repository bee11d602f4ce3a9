-- ===== src/Pool/PageTable.antt =====
-- src/storage/buffer_pool/page_table.rs: the map from pages to frames, behind a lock. An operation
-- that changes the table returns the new one.
pub mod Laws
mod Tests
use task_pool_concurrency_im.Prelude.{
  ℕ, List, [], ◌∷◌, Bool, true, false, not, Option, none, some, Outcome, ok, err, ◌==◌,
  if◌then◌else◌, ◌>>=◌, Lock, acquire, length,
}
use task_pool_concurrency_im.Prelude.Maps.{find, insert, remove, contains_key, keys}

pub data PageTableError : Type 0 where
  lock_poisoned poisoned_mapping old_page_missing page_already_exist : PageTableError

abbrev pub PageTable : Type 0
PageTable = Lock (List (ℕ × ℕ))

unfoldable pub new : PageTable
new = record { poisoned = false; guarded = [] }

-- Under the write lock, with a new content of the table.
abbrev store : PageTable → List (ℕ × ℕ) → PageTable
store t m = record t { guarded = m }

unfoldable pub put : PageTable → ℕ → ℕ → Outcome PageTableError PageTable
put t page_id frame_id = do
  table ← acquire t lock_poisoned
  ok (store t (insert table page_id frame_id))

unfoldable pub replace : PageTable → ℕ → ℕ → ℕ → Outcome PageTableError PageTable
replace t old_page_id new_page_id frame_id = do
  table ← acquire t lock_poisoned
  elim (find table old_page_id) [
    | none ↦ err old_page_missing
    | some old_map ↦
        if old_map == frame_id
        then (if not (contains_key table new_page_id)
            then ok (store t (insert (remove table old_page_id) new_page_id frame_id))
            else err page_already_exist)
        else err poisoned_mapping
  ]

unfoldable pub get_frame_id : PageTable → ℕ → Outcome PageTableError (Option ℕ)
get_frame_id t page_id = do table ← acquire t lock_poisoned; ok (find table page_id)

unfoldable pub get_resident_ids : PageTable → Outcome PageTableError (List ℕ)
get_resident_ids t = do table ← acquire t lock_poisoned; ok (keys table)

unfoldable pub contains : PageTable → ℕ → Outcome PageTableError Bool
contains t page_id = do table ← acquire t lock_poisoned; ok (contains_key table page_id)

unfoldable pub remove_page : PageTable → ℕ → Outcome PageTableError PageTable
remove_page t page_id = do table ← acquire t lock_poisoned; ok (store t (remove table page_id))

unfoldable pub len : PageTable → Outcome PageTableError ℕ
len t = do table ← acquire t lock_poisoned; ok (length table)

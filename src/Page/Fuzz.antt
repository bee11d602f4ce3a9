-- ===== src/Page/Fuzz.antt =====
-- fuzz/fuzz_targets/slotted_page.rs: bytes that say which operations to make on a page, with checks after
-- each of them. The page is the one of src/storage/page/slotted_page.rs.
pub mod Verdicts
use task_pool_concurrency_im.Prelude.{
  ℕ, zero, suc, ◌+◌, ◌-◌, ◌*◌, ◌%◌, min, List, [], ◌∷◌, Bool, not, Outcome, ok, err, panic, IoError,
  ◌>>=◌, ◌>>◌, assert, ltb, leb, ◌==◌, if◌then◌else◌, length, get_or, page_size,
}
use task_pool_concurrency_im.Page.{
  SlottedPage, slice, get_slot_count, free_end, free_space, get, insert, delete, compact,
  header_size, slot_size, new,
}

abbrev pub max_record_size : ℕ
max_record_size = 128

-- `for slot in 0..slot_count`, for the `n` slots from `slot` on: each can be read.
unfoldable pub check_slots : ℕ → ℕ → SlottedPage → Outcome IoError (Unit {0})
check_slots zero slot page = ok tt
check_slots (suc n) slot page = do
  record_bytes ← get page slot
  if length record_bytes == 0 then ok tt else assert (not (length record_bytes == 0))
  check_slots n (slot + 1) page

unfoldable pub check_invariants : SlottedPage → Outcome IoError (Unit {0})
check_invariants page = do
  let slot_count = get_slot_count page
  free ← free_space page
  let slot_directory_end = header_size + slot_count * slot_size
  assert (leb slot_directory_end page_size)
  assert (leb (free_end page) page_size)
  assert (leb slot_directory_end (free_end page))
  assert (free == free_end page - slot_directory_end)
  check_slots slot_count 0 page

-- An operation: the cursor and the page after it, the `break` of the loop, a panic in `compact`, or one
-- elsewhere.
pub data Turn : Type 0 where
  goes_on : ℕ → SlottedPage → Turn
  breaks : Turn
  compact_fails : SlottedPage → Turn
  fails : Turn

-- The results of `insert` and `delete` are dropped; an error leaves the page as it is.
abbrev pub inserted : ℕ → SlottedPage → Outcome IoError (ℕ × SlottedPage) → Turn
inserted cursor page (ok (slot, page')) = goes_on cursor page'
inserted cursor page (err e) = goes_on cursor page
inserted cursor page panic = fails

abbrev pub deleted : ℕ → SlottedPage → Outcome IoError SlottedPage → Turn
deleted cursor page (ok page') = goes_on cursor page'
deleted cursor page (err e) = goes_on cursor page
deleted cursor page panic = fails

abbrev pub compacted : ℕ → SlottedPage → Outcome IoError SlottedPage → Turn
compacted cursor page (ok page') = goes_on cursor page'
compacted cursor page (err e) = fails
compacted cursor page panic = compact_fails page

abbrev pub insert_turn : List ℕ → ℕ → SlottedPage → Turn
insert_turn input cursor page =
    if leb (length input) cursor
    then breaks
    else let len = get_or input cursor 0 % max_record_size + 1 in
      let start = cursor + 1 in
      let stop = min (start + len) (length input) in
      if leb stop start
      then breaks
      else inserted stop page (insert page (slice input start (stop - start)))

abbrev pub delete_turn : List ℕ → ℕ → SlottedPage → Turn
delete_turn input cursor page =
    if get_slot_count page == 0
    then goes_on (cursor + 1) page
    else deleted (cursor + 1) page
        (delete page (get_or input (cursor % length input) 0 % get_slot_count page))

-- The body of the loop, up to the check.
unfoldable pub turn : List ℕ → ℕ → SlottedPage → Turn
turn input cursor page =
    let op = get_or input cursor 0 % 3 in
    if op == 0
    then insert_turn input (cursor + 1) page
    else if op == 1
    then delete_turn input (cursor + 1) page
    else compacted (cursor + 1) page (compact page)

-- How a run ends: without a panic, with one in `compact`, on this page, or with any other, a check that
-- does not hold included.
pub data Verdict : Type 0 where
  passed : Verdict
  compact_failed : SlottedPage → Verdict
  failed : Verdict

abbrev pub checked : Outcome IoError (Unit {0}) → Verdict → Verdict
checked (ok u) rest = rest
checked (err e) rest = failed
checked panic rest = failed

-- What follows an operation: the check, and the rest of the loop.
abbrev pub proceed : (ℕ → SlottedPage → Verdict) → Turn → Verdict
proceed rest (goes_on cursor page) = checked (check_invariants page) (rest cursor page)
proceed rest breaks = passed
proceed rest (compact_fails page) = compact_failed page
proceed rest fails = failed

-- `while cursor < data.len()`. Without fuel left the run has failed.
unfoldable pub fuzz_loop : ℕ → List ℕ → ℕ → SlottedPage → Verdict
fuzz_loop zero input cursor page = failed
fuzz_loop (suc fuel) input cursor page =
    if ltb cursor (length input)
    then proceed (fuzz_loop fuel input) (turn input cursor page)
    else passed

unfoldable pub fuzz_target : List ℕ → Verdict
fuzz_target input = if length input == 0 then passed else fuzz_loop (length input + 1) input 0 new

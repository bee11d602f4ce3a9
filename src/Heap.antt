-- ===== src/Heap.antt =====
-- src/storage/heap/mod.rs: a heap file, pages of records with a free-space map to find one with room.
-- A method returns the file as it leaves it, also with an error. Fuel counts the rounds of a loop;
-- without it left the call would still be running, which is a panic here.
pub mod State
pub mod Pages
pub mod Insert
pub mod Scan
mod Tests
use task_pool_concurrency_im.Prelude.{
  ℕ, zero, suc, ◌+◌, ◌%◌, List, [], ◌∷◌, ◌++◌, Bool, true, false, Option, none, some, Outcome, ok,
  err, panic, map_err, IoError, ltb, leb, if◌then◌else◌, length, get_elem?, set, u16_mod,
}
use task_pool_concurrency_im.Page
use task_pool_concurrency_im.Page.{SlottedPage, max_available_slotted_page_space, slot_size}
use task_pool_concurrency_im.Fsm
use task_pool_concurrency_im.Fsm.{FreeSpaceMap, FreeSpaceMapError}

pub record HeapFile : Type 0 where
  pub pages : List SlottedPage
  pub fsm : FreeSpaceMap
  pub capacity : ℕ

pub data HeapFileError : Type 0 where
  invalid_page_id : HeapFileError
  free_space_map_error : FreeSpaceMapError → HeapFileError
  heap_file_full : HeapFileError
  slotted_page_error : IoError → HeapFileError
  no_page_found_for_insertion insufficient_page_space : HeapFileError

-- A method's effect on the file, and how it ends.
abbrev pub M : Type 0 → Type 0
M A = HeapFile → HeapFile × Outcome HeapFileError A

abbrev pub proceed :
    {A B : Type 0}
    → HeapFile × Outcome HeapFileError A
    → (A → M B)
    → HeapFile × Outcome HeapFileError B
proceed (h, ok a) f = f a h
proceed (h, err e) f = (h, err e)
proceed (h, panic) f = (h, panic)

infixl 5 ◌>>=◌ ◌>>◌
abbrev pub ◌>>=◌ : {A B : Type 0} → M A → (A → M B) → M B
◌>>=◌ m f h = proceed (m h) f

abbrev pub ◌>>◌ : {B : Type 0} → M (Unit {0}) → M B → M B
m >> k = m >>= λ _. k

-- A call that does not touch the file, with its errors as the file's.
abbrev pub lift : {A E : Type 0} → (E → HeapFileError) → Outcome E A → M A
lift f o h = (h, map_err f o)

unfoldable pub new : ℕ → Outcome HeapFileError HeapFile
new capacity = elim (map_err free_space_map_error (Fsm.new capacity)) [
  | ok fsm ↦ ok (record { pages = []; fsm = fsm; capacity = capacity })
  | err e ↦ err e
  | panic ↦ panic
]

-- `get_page` and `get_page_mut`.
unfoldable pub get_page : ℕ → M SlottedPage
get_page page_id h =
    if leb (length h.pages) page_id
    then (h, err invalid_page_id)
    else (h, elim (get_elem? h.pages page_id) [ none ↦ panic | some page ↦ ok page ])

-- What a write through `get_page_mut` does.
abbrev pub put_page : ℕ → SlottedPage → M (Unit {0})
put_page page_id page h = (record h { pages = set h.pages page_id page }, ok tt)

abbrev pub put_fsm : FreeSpaceMap → M (Unit {0})
put_fsm fsm h = (record h { fsm = fsm }, ok tt)

abbrev pub push_page : SlottedPage → M (Unit {0})
push_page page h = (record h { pages = h.pages ++ page ∷ [] }, ok tt)

abbrev file : M HeapFile
file h = (h, ok h)

unfoldable pub create_page : M ℕ
create_page = do
  h ← file
  if leb h.capacity (length h.pages) then lift (λ e. e) (err heap_file_full) else do
    let page_id = length h.pages % u16_mod
    free_space ← lift slotted_page_error (Page.free_space Page.new)
    (_, fsm) ← lift free_space_map_error (Fsm.register_page h.fsm page_id free_space)
    put_fsm fsm
    push_page Page.new
    lift (λ e. e) (ok page_id)

unfoldable pub insert_page : ℕ → List ℕ → M (Unit {0})
insert_page page_id bytes = do
  page ← get_page page_id
  (_, page') ← lift slotted_page_error (Page.insert page bytes)
  put_page page_id page'
  free_space ← lift slotted_page_error (Page.free_space page')
  h ← file
  (_, fsm) ← lift free_space_map_error (Fsm.update_page h.fsm page_id free_space)
  put_fsm fsm

-- The loop of `insert`, with the pages that it has found too full.
unfoldable pub insert_loop : ℕ → List ℕ → ℕ → List ℕ → M (Unit {0})
insert_loop zero bytes req_space excluded_page_ids = lift (λ e. e) panic
insert_loop (suc fuel) bytes req_space excluded_page_ids = do
  h ← file
  found ← lift free_space_map_error (Fsm.find_page_excluding h.fsm req_space excluded_page_ids)
  elim found [
    | none ↦ create_page >>= λ page_id. insert_page page_id bytes
    | some page_id ↦ do
      page ← get_page page_id
      free_space ← lift slotted_page_error (Page.free_space page)
      elim (leb req_space free_space) [
        | true ↦ insert_page page_id bytes
        | false ↦ insert_loop fuel bytes req_space (page_id ∷ excluded_page_ids)
      ]
  ]

unfoldable pub insert : List ℕ → M (Unit {0})
insert bytes = do
  h ← file
  let req_space = length bytes + slot_size
  if ltb max_available_slotted_page_space req_space
      then lift (λ e. e) (err insufficient_page_space)
      else insert_loop (length h.pages + 1) bytes req_space []

-- ===== src/Pool/Manager/Create.antt =====
-- src/storage/buffer_pool/manager.rs: `new_page`, section by section, and its run when no other thread
-- runs.
use task_pool_concurrency_im.Prelude.{
  ℕ, ◌+◌, List, none, some, Outcome, ok, IoError, if◌then◌else◌, leb,
}
use task_pool_concurrency_im.Pool.Frame
use task_pool_concurrency_im.Pool.Frame.{Frame, zero_page}
use task_pool_concurrency_im.Pool.PageTable
use task_pool_concurrency_im.Pool.Manager.{
  page_table_error, disk_error, no_evictable_frame, no_page_id_available, M, ◌>>=◌, ◌>>◌, ◌or_else◌,
  ignore, return, fail, lift, pool, on_frame, put_table, get_free_frame, add_free_frame,
  find_victim, Victim, reserve_victim,
}

-- How the first section ends: with the page and its frame, or with the number that the page is to have
-- and the page that gives way.
pub data Begun : Type 0 where
  made : ℕ → ℕ → Begun
  evicting : ℕ → Victim → Begun

abbrev put_next_page_id : ℕ → M (Unit {0})
put_next_page_id n s = (record s { next_page_id = n }, ok tt)

-- The zeroed page in its frame, pinned, referenced and dirty.
abbrev pub fill_new : ℕ → ℕ → M (Unit {0})
fill_new new_page_id frame_id =
    on_frame frame_id (λ f. Frame.load_page f new_page_id zero_page)
    >> on_frame frame_id Frame.pin
    >> on_frame frame_id Frame.mark_referenced
    >> on_frame frame_id Frame.mark_dirty

unfoldable pub make_in_free : ℕ → ℕ → M Begun
make_in_free new_page_id frame_id = do
  (do
    fill_new new_page_id frame_id
    s ← pool
    t ← lift page_table_error (PageTable.put s.page_table new_page_id frame_id)
    put_table t)
      or_else (on_frame frame_id Frame.set_free >> ignore (add_free_frame frame_id))
  s ← pool
  put_next_page_id (s.next_page_id + 1)
  return (made new_page_id frame_id)

unfoldable pub begin_new_page : M Begun
begin_new_page = do
  s ← pool
  if leb 65535 s.next_page_id then fail no_page_id_available else do
    free ← get_free_frame
    elim free [
      | some frame_id ↦ make_in_free s.next_page_id frame_id
      | none ↦ do
        found ← find_victim
        elim found [
          | none ↦ fail no_evictable_frame
          | some frame_id ↦ reserve_victim frame_id >>= λ v. return (evicting s.next_page_id v)
        ]
    ]

unfoldable pub commit_new_page : ℕ → Victim → M (ℕ × ℕ)
commit_new_page new_page_id v = do
  on_frame v.frame_id (λ f. Frame.load_page f new_page_id zero_page)
      or_else on_frame v.frame_id Frame.set_resident
  on_frame v.frame_id Frame.pin
  on_frame v.frame_id Frame.mark_referenced
  on_frame v.frame_id Frame.mark_dirty
  s ← pool
  t ← lift page_table_error (PageTable.replace s.page_table v.old_page_id new_page_id v.frame_id)
  put_table t
  put_next_page_id (new_page_id + 1)
  return (new_page_id, v.frame_id)

unfoldable pub new_page : (ℕ → List ℕ → Outcome IoError (Unit {0})) → M (ℕ × ℕ)
new_page write_page = do
  begun ← begin_new_page
  elim begun [
    | made page_id frame_id ↦ return (page_id, frame_id)
    | evicting page_id v ↦ do
      (if v.dirty then lift disk_error (write_page v.old_page_id v.old_data) else return tt)
          or_else on_frame v.frame_id Frame.set_resident
      commit_new_page page_id v
  ]

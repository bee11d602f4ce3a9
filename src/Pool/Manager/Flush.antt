-- ===== src/Pool/Manager/Flush.antt =====
-- src/storage/buffer_pool/manager.rs: unpinning, marking, writing back and deleting a page, when no
-- other thread runs during a disk access.
use task_pool_concurrency_im.Prelude.{
  Option, ℕ, List, [], ◌∷◌, not, none, some, Outcome, IoError, if◌then◌else◌,
}
use task_pool_concurrency_im.Pool.Frame
use task_pool_concurrency_im.Pool.Frame.{Frame}
use task_pool_concurrency_im.Pool.PageTable
use task_pool_concurrency_im.Pool.Manager.{
  page_table_error, frame_error, disk_error, page_not_found, page_pinned, frame_reserved,
  frame_not_reserved, M, ◌>>=◌, ◌>>◌, ◌or_else◌, return, fail, lift, pool, frame_at, on_frame,
  put_table, lookup, add_free_frame,
}

unfoldable pub unpin_page : ℕ → M (Unit {0})
unpin_page page_id = do
  found ← lookup page_id
  elim found [
    | none ↦ fail (page_not_found page_id)
    | some frame_id ↦ do
      f ← frame_at frame_id
      if Frame.is_reserved f then fail frame_reserved else on_frame frame_id Frame.unpin
  ]

unfoldable pub mark_dirty_page : ℕ → M (Unit {0})
mark_dirty_page page_id = do
  found ← lookup page_id
  elim found [
    | none ↦ fail (page_not_found page_id)
    | some frame_id ↦ do
      f ← frame_at frame_id
      if Frame.is_reserved f then fail frame_reserved else on_frame frame_id Frame.mark_dirty
  ]

module _ (write_page : ℕ → List ℕ → Outcome IoError (Unit {0})) where
  unfoldable pub flush_reserved_frame : ℕ → M (Unit {0})
  flush_reserved_frame frame_id = do
    f ← frame_at frame_id
    if not (Frame.is_reserved f)
        then fail frame_not_reserved
        else if Frame.is_dirty f
        then (do
          page_id ← lift frame_error (Frame.get_page_id f)
          (lift disk_error (write_page page_id (Frame.read_data f))
                >> on_frame frame_id Frame.clear_dirty)
              or_else on_frame frame_id Frame.set_resident)
        else return tt

  -- Under `state_lock`: the frame of a dirty page stays reserved.
  unfoldable pub begin_flush : ℕ → M (Option ℕ)
  begin_flush page_id = do
    found ← lookup page_id
    elim found [
      | none ↦ fail (page_not_found page_id)
      | some frame_id ↦ do
        f ← frame_at frame_id
        if Frame.is_reserved f then fail frame_reserved else do
          on_frame frame_id Frame.reserve
          if Frame.is_dirty f
              then return (some frame_id)
              else (on_frame frame_id Frame.set_resident >> return none)
    ]

  unfoldable pub finish_flush : ℕ → M (Unit {0})
  finish_flush frame_id = flush_reserved_frame frame_id >> on_frame frame_id Frame.set_resident

  unfoldable pub flush_page : ℕ → M (Unit {0})
  flush_page page_id =
      begin_flush page_id >>= elim [ none ↦ return tt | some frame_id ↦ finish_flush frame_id ]

  unfoldable pub flush_each : List ℕ → M (Unit {0})
  flush_each [] = return tt
  flush_each (page_id ∷ ids) = flush_page page_id >> flush_each ids

  unfoldable pub flush_all_pages : M (Unit {0})
  flush_all_pages = do
    s ← pool
    ids ← lift page_table_error (PageTable.get_resident_ids s.page_table)
    flush_each ids

  -- The end of a deletion, on both of its branches.
  abbrev pub forget_page : ℕ → ℕ → M (Unit {0})
  forget_page page_id frame_id = do
    s ← pool
    t ← lift page_table_error (PageTable.remove_page s.page_table page_id)
    put_table t
    on_frame frame_id Frame.reset
    add_free_frame frame_id

  -- Under `state_lock`: the frame of a dirty page stays reserved. A page that is pinned, and one whose
  -- frame is reserved, give the same error.
  unfoldable pub begin_delete : ℕ → M (Option ℕ)
  begin_delete page_id = do
    found ← lookup page_id
    elim found [
      | none ↦ fail (page_not_found page_id)
      | some frame_id ↦ do
        f ← frame_at frame_id
        if Frame.is_pinned f
            then fail (page_pinned page_id)
            else if Frame.is_reserved f
            then fail (page_pinned page_id)
            else do
              on_frame frame_id Frame.reserve
              if Frame.is_dirty f
                  then return (some frame_id)
                  else (forget_page page_id frame_id >> return none)
    ]

  unfoldable pub finish_delete : ℕ → ℕ → M (Unit {0})
  finish_delete page_id frame_id = do
    flush_reserved_frame frame_id or_else on_frame frame_id Frame.set_resident
    forget_page page_id frame_id

  unfoldable pub delete_page : ℕ → M (Unit {0})
  delete_page page_id =
      begin_delete page_id
      >>= elim [ none ↦ return tt | some frame_id ↦ finish_delete page_id frame_id ]

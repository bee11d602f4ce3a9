-- ===== src/Pool/Manager/Fetch.antt =====
-- src/storage/buffer_pool/manager.rs: `fetch_page`, section by section, and its run when no other
-- thread runs.
use task_pool_concurrency_im.Prelude.{
  ℕ, List, [], ◌∷◌, Bool, true, false, Option, none, some, Outcome, ok, IoError, if◌then◌else◌,
}
use task_pool_concurrency_im.Prelude.Maps.{insert, contains_key}
use task_pool_concurrency_im.Pool.Frame
use task_pool_concurrency_im.Pool.Frame.{Frame}
use task_pool_concurrency_im.Pool.PageTable
use task_pool_concurrency_im.Pool.Metrics
use task_pool_concurrency_im.Pool.Manager.{
  page_table_error, disk_error, no_evictable_frame, M, ◌>>=◌, ◌>>◌, ◌or_else◌, return, fail, lift,
  pool, frame_at, on_frame, put_table, lookup, get_free_frame, add_free_frame, end_load, count,
  find_victim, Victim, reserve_victim,
}

-- How the loop of `fetch_page` goes on after the section that starts a round: it returns a frame, waits
-- for a reserved frame, waits for another thread's load, or loads the page itself.
pub data Decision : Type 0 where
  resident_in : ℕ → Decision
  wait_for_frame wait_for_load : Decision
  load_into : ℕ → Decision
  evict : Victim → Decision

unfoldable pub use_resident : ℕ → M Decision
use_resident frame_id = do
  f ← frame_at frame_id
  if Frame.is_reserved f then return wait_for_frame else do
    count Metrics.record_hit
    on_frame frame_id Frame.pin
    on_frame frame_id Frame.mark_referenced
    return (resident_in frame_id)

-- Whether another thread loads the page already; else this one does from now on.
unfoldable pub claim_load : ℕ → M Bool
claim_load page_id s =
    if contains_key s.in_flight_loads page_id
    then (s, ok false)
    else (record s { in_flight_loads = insert s.in_flight_loads page_id tt }, ok true)

abbrev any_reserved : List Frame → Bool
any_reserved [] = false
any_reserved (f ∷ fs) = if Frame.is_reserved f then true else any_reserved fs

unfoldable pub choose_victim : M Decision
choose_victim = do
  found ← find_victim
  s ← pool
  elim found [
    | none ↦ if any_reserved s.frames then return wait_for_frame else fail no_evictable_frame
    | some frame_id ↦ reserve_victim frame_id >>= λ v. return (evict v)
  ]

-- By the frame that the queue of free frames gives.
abbrev pub claim_frame : ℕ → Option ℕ → M Decision
claim_frame page_id none = choose_victim
claim_frame page_id (some frame_id) =
    (on_frame frame_id Frame.reserve or_else (add_free_frame frame_id >> end_load page_id))
    >> return (load_into frame_id)

unfoldable pub choose_frame : ℕ → M Decision
choose_frame page_id = get_free_frame >>= claim_frame page_id

unfoldable pub miss : ℕ → M Decision
miss page_id = do
  mine ← claim_load page_id
  if mine then choose_frame page_id else return wait_for_load

-- The section that starts a round, to where `state_lock` is released.
unfoldable pub decide : Bool → ℕ → M Decision
decide miss_recorded page_id = do
  found ← lookup page_id
  elim found [
    | some frame_id ↦ use_resident frame_id
    | none ↦ do (if miss_recorded then return tt else count Metrics.record_miss); miss page_id
  ]

-- The page could not be read into the free frame.
unfoldable pub abandon_free_frame : ℕ → ℕ → M (Unit {0})
abandon_free_frame page_id frame_id = do
  on_frame frame_id Frame.set_free
  add_free_frame frame_id
  end_load page_id

unfoldable pub fill_free_frame : ℕ → ℕ → List ℕ → M (Unit {0})
fill_free_frame page_id frame_id buffer =
    (on_frame frame_id (λ f. Frame.load_page f page_id buffer)
      >> on_frame frame_id Frame.pin
      >> on_frame frame_id Frame.mark_referenced)
    or_else (on_frame frame_id Frame.set_free >> add_free_frame frame_id >> end_load page_id)

unfoldable pub publish : ℕ → ℕ → M ℕ
publish page_id frame_id = do
  s ← pool
  t ← lift page_table_error (PageTable.put s.page_table page_id frame_id)
  put_table t
  end_load page_id
  return frame_id

-- The victim stays: it could not be written, or the page that it made room for not be read.
unfoldable pub keep_victim : ℕ → ℕ → M (Unit {0})
keep_victim page_id frame_id = do on_frame frame_id Frame.set_resident; end_load page_id

unfoldable pub commit_eviction : ℕ → Victim → List ℕ → M ℕ
commit_eviction page_id v buffer = do
  on_frame v.frame_id (λ f. Frame.load_page f page_id buffer)
      or_else (on_frame v.frame_id Frame.set_resident >> end_load page_id)
  on_frame v.frame_id Frame.pin
  on_frame v.frame_id Frame.mark_referenced
  s ← pool
  t ← lift page_table_error (PageTable.replace s.page_table v.old_page_id page_id v.frame_id)
  put_table t
  count Metrics.record_eviction
  end_load page_id
  return v.frame_id

-- The disk, as far as one call sees it: how a write or a read ends.
unfoldable pub load_free : (ℕ → Outcome IoError (List ℕ)) → ℕ → ℕ → M ℕ
load_free read_page page_id frame_id = do
  buffer ← lift disk_error (read_page page_id) or_else abandon_free_frame page_id frame_id
  fill_free_frame page_id frame_id buffer
  publish page_id frame_id

unfoldable pub load_evicting :
    (ℕ → List ℕ → Outcome IoError (Unit {0})) → (ℕ → Outcome IoError (List ℕ)) → ℕ → Victim → M ℕ
load_evicting write_page read_page page_id v = do
  (if v.dirty then lift disk_error (write_page v.old_page_id v.old_data) else return tt)
      or_else keep_victim page_id v.frame_id
  buffer ← lift disk_error (read_page page_id) or_else keep_victim page_id v.frame_id
  commit_eviction page_id v buffer

-- The first round, when no other thread runs; none when it starts to wait.
unfoldable pub fetch_page :
    (ℕ → List ℕ → Outcome IoError (Unit {0})) → (ℕ → Outcome IoError (List ℕ)) → ℕ → M (Option ℕ)
fetch_page write_page read_page page_id = do
  count Metrics.record_fetch
  d ← decide false page_id
  elim d [
    | resident_in frame_id ↦ return (some frame_id)
    | wait_for_frame ↦ return none
    | wait_for_load ↦ return none
    | load_into frame_id ↦
        load_free read_page page_id frame_id >>= λ frame_id. return (some frame_id)
    | evict v ↦ load_evicting write_page read_page page_id v >>= λ frame_id. return (some frame_id)
  ]

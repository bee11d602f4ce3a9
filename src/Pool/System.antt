-- ===== src/Pool/System.antt =====
-- src/storage/buffer_pool/manager.rs: threads that fetch, make, use, write back and delete pages, one
-- pool between them. A step is what one thread does while it holds `state_lock` or the lock of a frame, and
-- the steps of all threads come in any order.
pub mod Invariant
pub mod Moves
pub mod Steady
pub mod Touch
pub mod Uses
pub mod Sweep
pub mod Reserve
pub mod Queue
pub mod Loads
pub mod Table
pub mod Victims
pub mod Rounds
pub mod Fetches
pub mod Flushes
pub mod Deletes
pub mod Creates
pub mod Start
pub mod Steps
pub mod Safety
pub mod Quiet
pub mod Rules
pub mod Sections
pub mod Stays
pub mod Growth
mod Tests
use task_pool_concurrency_im.Prelude.{
  ℕ, ◌≡◌, ◌≢◌, ◌<◌, Bool, List, Option, none, some, Outcome, ok, err, panic, IoError, length,
  page_size, ◌==◌, if◌then◌else◌,
}
use task_pool_concurrency_im.Pool.Manager.{BufferPoolManager, BufferPoolError, Victim, on_frame}
use task_pool_concurrency_im.Pool.Manager.Fetch.{
  Decision, load_into, evict, decide, abandon_free_frame, fill_free_frame, publish, keep_victim,
  commit_eviction,
}
use task_pool_concurrency_im.Pool.Manager.Flush.{
  unpin_page, mark_dirty_page, begin_flush, finish_flush, begin_delete, finish_delete,
}
use task_pool_concurrency_im.Pool.Manager.Create
use task_pool_concurrency_im.Pool.Manager.Create.{Begun, made, begin_new_page, commit_new_page}
use task_pool_concurrency_im.Pool.Frame
use task_pool_concurrency_im.Pool.Metrics

-- Where a thread stands between two sections: the page that it is about, and the frame or the victim that
-- it has reserved.
pub data Job : Type 0 where
  idle : Job
  loading filled : ℕ → ℕ → Job
  evicting : ℕ → Victim → Job
  flushing deleting : ℕ → ℕ → Job
  creating : ℕ → Victim → Job

pub record System : Type 0 where
  pub pool : BufferPoolManager
  pub jobs : ℕ → Job

abbrev pub update {ℓ} : {A : Type ℓ} → (ℕ → A) → ℕ → A → ℕ → A
update f i a j = if i == j then a else f j

-- The page that a thread makes in place of another.
abbrev pub new_of : Job → Option ℕ
new_of (creating n v) = some n
new_of _ = none

-- What a thread does after the section that starts a round of `fetch_page`. One that waits, starts
-- another round later; one that has its page, or an error, is done.
abbrev pub decided : ℕ → Outcome BufferPoolError Decision → Job
decided page_id (ok (load_into frame_id)) = loading page_id frame_id
decided page_id (ok (evict v)) = evicting page_id v
decided page_id _ = idle

-- After the section that starts a flush, and after the one that starts a deletion.
abbrev pub flushed_job : ℕ → Outcome BufferPoolError (Option ℕ) → Job
flushed_job page_id (ok (some frame_id)) = flushing page_id frame_id
flushed_job page_id _ = idle

abbrev pub deleted_job : ℕ → Outcome BufferPoolError (Option ℕ) → Job
deleted_job page_id (ok (some frame_id)) = deleting page_id frame_id
deleted_job page_id _ = idle

-- After the section that starts `new_page`.
abbrev pub begun_job : Outcome BufferPoolError Begun → Job
begun_job (ok (Create.evicting new_page_id v)) = creating new_page_id v
begun_job _ = idle

abbrev pub after : System → ℕ → BufferPoolManager → Job → System
after z t s j = record { pool = s; jobs = update z.jobs t j }

-- No other thread makes a page in place of another.
abbrev pub Alone : System → ℕ → Type 0
Alone z t = (u : ℕ) → u ≢ t → new_of (z.jobs u) ≡ none

-- One section of one thread. A thread whose job is `idle` may start any method; what it does next is what
-- its job says, and the disk decides how. A run of `flush_reserved_frame` and what follows it is one
-- section, since the frame stays reserved until it ends. Every thread keeps to three rules. A fetch is of
-- a page that has been made. No `new_page` starts while another one evicts. And a deletion goes on only
-- once the disk has taken a dirty page: when the disk refuses it, `delete_page` makes the frame resident
-- a second time, though another thread may have reserved it since.
pub data Step (z : System) : System → Type 0 where
  counts :
      Step z (record z { pool = record z.pool { metrics = Metrics.record_fetch z.pool.metrics } })
  decides :
      (t p : ℕ) (miss_recorded : Bool)
      → z.jobs t ≡ idle
      → p < z.pool.next_page_id
      → Step z (
          after z t
            ((decide miss_recorded p z.pool).0)
            (decided p ((decide miss_recorded p z.pool).1)))
  abandons :
      (t p i : ℕ)
      → z.jobs t ≡ loading p i
      → Step z (after z t ((abandon_free_frame p i z.pool).0) idle)
  fills :
      (t p i : ℕ) (buffer : List ℕ)
      → z.jobs t ≡ loading p i
      → length buffer ≡ page_size
      → Step z (after z t ((fill_free_frame p i buffer z.pool).0) (filled p i))
  publishes : (t p i : ℕ) → z.jobs t ≡ filled p i → Step z (after z t ((publish p i z.pool).0) idle)
  keeps :
      (t p : ℕ) (v : Victim)
      → z.jobs t ≡ evicting p v
      → Step z (after z t ((keep_victim p v.frame_id z.pool).0) idle)
  commits :
      (t p : ℕ) (v : Victim) (buffer : List ℕ)
      → z.jobs t ≡ evicting p v
      → length buffer ≡ page_size
      → Step z (after z t ((commit_eviction p v buffer z.pool).0) idle)
  unpins : (p : ℕ) → Step z (record z { pool = (unpin_page p z.pool).0 })
  marks : (p : ℕ) → Step z (record z { pool = (mark_dirty_page p z.pool).0 })
  begins_flush :
      (write_page : ℕ → List ℕ → Outcome IoError (Unit {0})) (t p : ℕ)
      → z.jobs t ≡ idle
      → Step z (
          after z t
            ((begin_flush write_page p z.pool).0)
            (flushed_job p ((begin_flush write_page p z.pool).1)))
  finishes_flush :
      (write_page : ℕ → List ℕ → Outcome IoError (Unit {0})) (t p i : ℕ)
      → z.jobs t ≡ flushing p i
      → ((q : ℕ) (bytes : List ℕ) → write_page q bytes ≢ panic)
      → Step z (after z t ((finish_flush write_page i z.pool).0) idle)
  begins_delete :
      (write_page : ℕ → List ℕ → Outcome IoError (Unit {0})) (t p : ℕ)
      → z.jobs t ≡ idle
      → Step z (
          after z t
            ((begin_delete write_page p z.pool).0)
            (deleted_job p ((begin_delete write_page p z.pool).1)))
  finishes_delete :
      (write_page : ℕ → List ℕ → Outcome IoError (Unit {0})) (t p i : ℕ)
      → z.jobs t ≡ deleting p i
      → ((q : ℕ) (bytes : List ℕ) → write_page q bytes ≡ ok tt)
      → Step z (after z t ((finish_delete write_page p i z.pool).0) idle)
  begins_new :
      (t : ℕ)
      → z.jobs t ≡ idle
      → Alone z t
      → Step z (after z t ((begin_new_page z.pool).0) (begun_job ((begin_new_page z.pool).1)))
  keeps_new :
      (t n : ℕ) (v : Victim)
      → z.jobs t ≡ creating n v
      → Step z (after z t ((on_frame v.frame_id Frame.set_resident z.pool).0) idle)
  commits_new :
      (t n : ℕ) (v : Victim)
      → z.jobs t ≡ creating n v
      → Step z (after z t ((commit_new_page n v z.pool).0) idle)

-- The sections of all threads, one after another.
pub data Reach (z : System) : System → Type 0 where
  start : Reach z z
  then_step : {y x : System} → Reach z y → Step y x → Reach z x

-- A pool that nobody uses yet.
abbrev pub at_rest : BufferPoolManager → System
at_rest s = record { pool = s; jobs = λ t. idle }

-- ===== src/Pool/Manager.antt =====
-- src/storage/buffer_pool/manager.rs: the buffer pool's state, and what its methods do to its parts. A
-- method holds `state_lock` from one disk access to the next, and each such stretch is a function of the
-- whole state, so that a run of several threads is a sequence of them. A disk access is an argument.
-- The locks of the manager itself and of the frames are taken not to be poisoned; those of the page
-- table and of the free frames are part of their state. The calls that wake waiting threads leave the
-- state as it is and have no counterpart.
pub mod Fetch
pub mod Flush
pub mod Create
pub mod Laws
pub mod Loads
pub mod Evictions
pub mod Writes
pub mod Deletes
pub mod Creates
pub mod Uses
mod Tests
use task_pool_concurrency_im.Prelude.{
  ℕ, zero, suc, ◌+◌, List, [], ◌∷◌, Bool, true, false, Option, none, some, Outcome, ok, err, panic,
  map_err, IoError, if◌then◌else◌, get_elem?, set, replicate,
}
use task_pool_concurrency_im.Prelude.Maps.{remove}
use task_pool_concurrency_im.Pool.Frame
use task_pool_concurrency_im.Pool.Frame.{Frame}
use task_pool_concurrency_im.Pool.PageTable
use task_pool_concurrency_im.Pool.PageTable.{PageTable, PageTableError}
use task_pool_concurrency_im.Pool.FreeFrames
use task_pool_concurrency_im.Pool.FreeFrames.{FreeFrames, FreeFramesError}
use task_pool_concurrency_im.Pool.Clock
use task_pool_concurrency_im.Pool.Clock.{ClockReplacer}
use task_pool_concurrency_im.Pool.Metrics
use task_pool_concurrency_im.Pool.Metrics.{BufferPoolMetrics}

-- The values of `in_flight_loads` are only waited on.
pub record BufferPoolManager : Type 0 where
  pub frames : List Frame
  pub page_table : PageTable
  pub clock_replacer : ClockReplacer
  pub free_frames : FreeFrames
  pub next_page_id : ℕ
  pub in_flight_loads : List (ℕ × Unit {0})
  pub metrics : BufferPoolMetrics

pub data BufferPoolError : Type 0 where
  lock_poisoned no_free_frame no_evictable_frame : BufferPoolError
  disk_error frame_error : IoError → BufferPoolError
  page_not_found page_pinned : ℕ → BufferPoolError
  no_page_id_available : BufferPoolError
  page_table_error : PageTableError → BufferPoolError
  free_frame_error : FreeFramesError → BufferPoolError
  frame_reserved frame_not_reserved : BufferPoolError

-- A method's effect on the pool, which an error does not undo, and how it ends.
abbrev pub M : Type 0 → Type 0
M A = BufferPoolManager → BufferPoolManager × Outcome BufferPoolError A

abbrev pub proceed :
    {A B : Type 0}
    → BufferPoolManager × Outcome BufferPoolError A
    → (A → M B)
    → BufferPoolManager × Outcome BufferPoolError B
proceed (s, ok a) f = f a s
proceed (s, err e) f = (s, err e)
proceed (s, panic) f = (s, panic)

infixl 5 ◌>>=◌ ◌>>◌
abbrev pub ◌>>=◌ : {A B : Type 0} → M A → (A → M B) → M B
◌>>=◌ m f s = proceed (m s) f

abbrev pub ◌>>◌ : {B : Type 0} → M (Unit {0}) → M B → M B
m >> k = m >>= λ _. k

-- What follows `if let Err(err) = call`: the clean-up, and then the same error.
abbrev pub clean_up :
    {A : Type 0}
    → BufferPoolManager × Outcome BufferPoolError A
    → M (Unit {0})
    → BufferPoolManager × Outcome BufferPoolError A
clean_up (s, ok a) f = (s, ok a)
clean_up (s, err e) f = proceed (f s) (λ _ s'. (s', err e))
clean_up (s, panic) f = (s, panic)

infixl 4 ◌or_else◌
abbrev pub ◌or_else◌ : {A : Type 0} → M A → M (Unit {0}) → M A
◌or_else◌ m f s = clean_up (m s) f

-- `call.ok()`.
abbrev forget_error :
    BufferPoolManager × Outcome BufferPoolError (Unit {0})
    → BufferPoolManager × Outcome BufferPoolError (Unit {0})
forget_error (s, ok a) = (s, ok tt)
forget_error (s, err e) = (s, ok tt)
forget_error (s, panic) = (s, panic)

abbrev pub ignore : M (Unit {0}) → M (Unit {0})
ignore m s = forget_error (m s)

abbrev pub return : {A : Type 0} → A → M A
return a s = (s, ok a)

abbrev pub fail : {A : Type 0} → BufferPoolError → M A
fail e s = (s, err e)

abbrev pub lift : {A E : Type 0} → (E → BufferPoolError) → Outcome E A → M A
lift f o s = (s, map_err f o)

abbrev pub pool : M BufferPoolManager
pool s = (s, ok s)

abbrev pub frame_at : ℕ → M Frame
frame_at frame_id s = (s, elim (get_elem? s.frames frame_id) [ none ↦ panic | some f ↦ ok f ])

abbrev pub put_frame : ℕ → Frame → M (Unit {0})
put_frame frame_id f s = (record s { frames = set s.frames frame_id f }, ok tt)

-- A call on a frame, under its write lock.
abbrev pub on_frame : ℕ → (Frame → Outcome IoError Frame) → M (Unit {0})
on_frame frame_id call =
    frame_at frame_id >>= λ f. lift frame_error (call f) >>= λ g. put_frame frame_id g

abbrev pub put_table : PageTable → M (Unit {0})
put_table t s = (record s { page_table = t }, ok tt)

abbrev pub lookup : ℕ → M (Option ℕ)
lookup page_id s = (s, map_err page_table_error (PageTable.get_frame_id s.page_table page_id))

-- The answer of the queue of free frames, which is the pool's from then on.
abbrev pub take_answer :
    {A : Type 0}
    → BufferPoolManager
    → Outcome FreeFramesError (A × FreeFrames)
    → BufferPoolManager × Outcome BufferPoolError A
take_answer s (ok (a, q)) = (record s { free_frames = q }, ok a)
take_answer s (err e) = (s, err (free_frame_error e))
take_answer s panic = (s, panic)

abbrev pub get_free_frame : M (Option ℕ)
get_free_frame s = take_answer s (FreeFrames.get_frame s.free_frames)

abbrev pub add_free_frame : ℕ → M (Unit {0})
add_free_frame frame_id s = elim (FreeFrames.add_frame s.free_frames frame_id) [
  | ok q ↦ (record s { free_frames = q }, ok tt)
  | err e ↦ (s, err (free_frame_error e))
  | panic ↦ (s, panic)
]

abbrev pub end_load : ℕ → M (Unit {0})
end_load page_id s = (record s { in_flight_loads = remove s.in_flight_loads page_id }, ok tt)

abbrev pub count : (BufferPoolMetrics → BufferPoolMetrics) → M (Unit {0})
count f s = (record s { metrics = f s.metrics }, ok tt)

abbrev pub find_victim : M (Option ℕ)
find_victim s = elim (Clock.find_victim s.clock_replacer s.frames) [
  | ok (found, sweep) ↦ (record s { clock_replacer = sweep.clock; frames = sweep.frames }, ok found)
  | err e ↦ (s, err (frame_error e))
  | panic ↦ (s, panic)
]

-- A page that gives way: its frame, its number, and what to write when it is dirty.
pub record Victim : Type 0 where
  pub frame_id : ℕ
  pub old_page_id : ℕ
  pub dirty : Bool
  pub old_data : List ℕ

-- The pool of so many frames, once its file is open.
abbrev with_frames :
    ℕ → Outcome BufferPoolError FreeFrames → Outcome BufferPoolError BufferPoolManager
with_frames pool_size (err e) = err e
with_frames pool_size panic = panic
with_frames pool_size (ok free) = ok (record {
  frames = replicate pool_size Frame.new;
  page_table = PageTable.new;
  clock_replacer = Clock.new;
  free_frames = free;
  next_page_id = 0;
  in_flight_loads = [];
  metrics = Metrics.new;
})

-- By how `DiskManager::new` ends.
unfoldable pub new : Outcome IoError (Unit {0}) → ℕ → Outcome BufferPoolError BufferPoolManager
new (err e) pool_size = err (disk_error e)
new panic pool_size = panic
new (ok opened) pool_size =
    with_frames pool_size (map_err free_frame_error (FreeFrames.initialize pool_size))

-- Steps 5 and 6 of the eviction, as far as `state_lock` is held.
unfoldable pub reserve_victim : ℕ → M Victim
reserve_victim frame_id = do
  on_frame frame_id Frame.reserve
  f ← frame_at frame_id
  old_page_id ← lift frame_error (Frame.get_page_id f)
  return (record {
    frame_id = frame_id;
    old_page_id = old_page_id;
    dirty = Frame.is_dirty f;
    old_data = if Frame.is_dirty f then Frame.read_data f else Frame.zero_page;
  })

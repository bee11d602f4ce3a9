-- ===== src/Pool/Manager/Loads.antt =====
-- What a load leaves in the pool when it succeeds, and when the disk fails.
use task_pool_concurrency_im.Prelude.{
  ℕ, ◌<◌, ◌≡◌, ◌≢◌, refl, List, [], ◌∷◌, ◌++◌, true, false, none, some, Outcome, ok, err, IoError,
  arith, length, get_elem?, set, page_size, get_elem?-set, set-set, set-get_elem?, get_elem?-lt,
}
use task_pool_concurrency_im.Prelude.Maps.{
  find, insert, remove, find-insert, find-remove, contains_key, remove-absent,
}
use task_pool_concurrency_im.Pool.Frame
use task_pool_concurrency_im.Pool.Frame.{Frame, PageMeta, resident, reserved, free}
use task_pool_concurrency_im.Pool.PageTable
use task_pool_concurrency_im.Pool.PageTable.Laws.{frame_of}
use task_pool_concurrency_im.Pool.FreeFrames
use task_pool_concurrency_im.Pool.Metrics
use task_pool_concurrency_im.Pool.Manager.{BufferPoolManager, disk_error, on_frame}
use task_pool_concurrency_im.Pool.Manager.Fetch.{
  load_free, fill_free_frame, publish, fetch_page, decide, miss, claim_load, choose_frame,
  abandon_free_frame,
}

-- The pool with a frame replaced.
abbrev pub holding : BufferPoolManager → ℕ → Frame → BufferPoolManager
holding s frame_id f = record s { frames = set s.frames frame_id f }

pub on_frame-holding :
    (s : BufferPoolManager) (frame_id : ℕ) (call : Frame → Outcome IoError Frame) (f g : Frame)
    → frame_id < length s.frames
    → call f ≡ ok g
    → on_frame frame_id call (holding s frame_id f) ≡ (holding s frame_id g, ok tt)
on_frame-holding s frame_id call f g q h =
    ground (arith, get_elem?-set s.frames frame_id frame_id f q, set-set s.frames frame_id f g)

pub on_frame-first :
    (s : BufferPoolManager) (frame_id : ℕ) (call : Frame → Outcome IoError Frame) (f g : Frame)
    → get_elem? s.frames frame_id ≡ some f
    → call f ≡ ok g
    → on_frame frame_id call s ≡ (holding s frame_id g, ok tt)
on_frame-first s frame_id call f g q h = ground arith

-- A page in its frame, fetched once.
abbrev pub loaded : ℕ → List ℕ → Frame
loaded page_id buffer = record {
  bytes = buffer;
  metadata = some (record { page_id = page_id; pin_count = 1; dirty = false; reference = true });
  state = resident;
}

-- The page is in the frame, with the bytes that were read, pinned once; its load is no longer under way;
-- the other frames, and the other pages but for the one that gave way, are as they were.
pub record Loaded (s s' : BufferPoolManager) (page_id frame_id : ℕ) (buffer : List ℕ) (gone : ℕ)
    : Type 0 where
  pub mapped : frame_of s'.page_table page_id ≡ some frame_id
  pub filled : get_elem? s'.frames frame_id ≡ some (loaded page_id buffer)
  pub ended : contains_key s'.in_flight_loads page_id ≡ false
  pub other_frames : (i : ℕ) → i ≢ frame_id → get_elem? s'.frames i ≡ get_elem? s.frames i
  pub other_pages :
      (p : ℕ) → p ≢ page_id → p ≢ gone → frame_of s'.page_table p ≡ frame_of s.page_table p

abbrev pub fresh : ℕ → List ℕ → Frame
fresh page_id buffer = record {
  bytes = buffer;
  metadata = some (record { page_id = page_id; pin_count = 0; dirty = false; reference = false });
  state = resident;
}

abbrev pub pinned : ℕ → List ℕ → Frame
pinned page_id buffer = record {
  bytes = buffer;
  metadata = some (record { page_id = page_id; pin_count = 1; dirty = false; reference = false });
  state = resident;
}

pub load_page-fresh :
    (f : Frame) (page_id : ℕ) (buffer : List ℕ)
    → length buffer ≡ page_size
    → Frame.load_page f page_id buffer ≡ ok (fresh page_id buffer)
unfolding Frame.load_page
load_page-fresh f page_id buffer q = ground arith

pub pin-fresh :
    (page_id : ℕ) (buffer : List ℕ) → Frame.pin (fresh page_id buffer) ≡ ok (pinned page_id buffer)
unfolding Frame.pin
pin-fresh page_id buffer = refl

pub mark-pinned :
    (page_id : ℕ) (buffer : List ℕ)
    → Frame.mark_referenced (pinned page_id buffer) ≡ ok (loaded page_id buffer)
unfolding Frame.mark_referenced
mark-pinned page_id buffer = refl

pub fill_run :
    (s : BufferPoolManager) (page_id frame_id : ℕ) (f : Frame) (buffer : List ℕ)
    → get_elem? s.frames frame_id ≡ some f
    → length buffer ≡ page_size
    → fill_free_frame page_id frame_id buffer s
      ≡ (holding s frame_id (loaded page_id buffer), ok tt)
unfolding fill_free_frame
fill_run s page_id frame_id f buffer h q =
    let near = get_elem?-lt s.frames frame_id f h in
    let load = λ (f : Frame). Frame.load_page f page_id buffer in
    rw
      (
        on_frame-first s frame_id load f (fresh page_id buffer) h
            (load_page-fresh f page_id buffer q),
        on_frame-holding s frame_id Frame.pin _ _ near (pin-fresh page_id buffer),
        on_frame-holding s frame_id Frame.mark_referenced _ _ near (mark-pinned page_id buffer),
      )
      refl

publish_run :
    (s : BufferPoolManager) (page_id frame_id : ℕ)
    → s.page_table.poisoned ≡ false
    → publish page_id frame_id s ≡ (
      record s {
        page_table = record {
          poisoned = false;
          guarded = insert s.page_table.guarded page_id frame_id;
        };
        in_flight_loads = remove s.in_flight_loads page_id;
      },
      ok frame_id,
    )
unfolding publish PageTable.put
publish_run s page_id frame_id h = rw h refl

-- A page read into a free frame, in a pool whose page table is sound: the pool then has it there,
-- pinned once, and its load has ended; the other frames and the other pages in the table are as they
-- were.
pub load_free-Loaded :
    (read_page : ℕ → Outcome IoError (List ℕ)) (s : BufferPoolManager) (page_id frame_id : ℕ)
    (f : Frame) (buffer : List ℕ)
    → s.page_table.poisoned ≡ false
    → get_elem? s.frames frame_id ≡ some f
    → length buffer ≡ page_size
    → read_page page_id ≡ ok buffer
    → (s' : BufferPoolManager) × (load_free read_page page_id frame_id s ≡ (s', ok frame_id))
      × Loaded s s' page_id frame_id buffer page_id
unfolding load_free
load_free-Loaded read_page s page_id frame_id f buffer p h q r =
    let filled = holding s frame_id (loaded page_id buffer) in
    let near = get_elem?-lt s.frames frame_id f h in
    let at = λ (i : ℕ). get_elem?-set s.frames frame_id i (loaded page_id buffer) near in
    let maps = λ (j : ℕ). find-insert s.page_table.guarded page_id j frame_id in
    (
      record filled {
        page_table = record {
          poisoned = false;
          guarded = insert s.page_table.guarded page_id frame_id;
        };
        in_flight_loads = remove s.in_flight_loads page_id;
      },
      rw (r, fill_run s page_id frame_id f buffer h q, publish_run filled page_id frame_id p) refl,
      record {
        mapped = ground (arith, maps page_id);
        filled = ground (arith, at frame_id);
        ended = ground (arith, find-remove s.in_flight_loads page_id page_id);
        other_frames = λ i n. ground (arith, at i);
        other_pages = λ j m n. ground (arith, maps j);
      },
    )

-- The page is neither in the table nor on its way, and the next free frame can take it.
pub record IsFetchable (s : BufferPoolManager) (page_id frame_id : ℕ) (rest : List ℕ) (f : Frame)
    : Type 0 where
  pub table_sound : s.page_table.poisoned ≡ false
  pub queue_sound : s.free_frames.poisoned ≡ false
  pub absent : frame_of s.page_table page_id ≡ none
  pub unclaimed : find s.in_flight_loads page_id ≡ none
  pub next : s.free_frames.guarded ≡ frame_id ∷ rest
  pub in_frame : get_elem? s.frames frame_id ≡ some f
  pub unused : f.state ≡ free

-- A fetch of a page that is neither in the table nor on its way, when there is a free frame, no lock is
-- poisoned, no other thread runs and the disk fails to read the page, is the error of the disk and leaves
-- the pool as it was before: every frame, the table and the loads under way. The frame is free again, now
-- at the end of the queue, and a fetch and a miss have been counted.
pub fetch_page-abandoned :
    (write_page : ℕ → List ℕ → Outcome IoError (Unit {0}))
    (read_page : ℕ → Outcome IoError (List ℕ)) (s : BufferPoolManager) (page_id frame_id : ℕ)
    (rest : List ℕ) (f : Frame) (e : IoError)
    → IsFetchable s page_id frame_id rest f
    → read_page page_id ≡ err e
    → fetch_page write_page read_page page_id s ≡ (
      record s {
        free_frames = record { poisoned = false; guarded = rest ++ frame_id ∷ [] };
        metrics = Metrics.record_miss (Metrics.record_fetch s.metrics);
      },
      err (disk_error e),
    )
unfolding fetch_page decide miss claim_load choose_frame load_free abandon_free_frame Frame.reserve
    Frame.set_free FreeFrames.get_frame FreeFrames.add_frame PageTable.get_frame_id
fetch_page-abandoned write_page read_page s page_id frame_id rest f e h r =
    let near = get_elem?-lt s.frames frame_id f h.in_frame in
    let claimed = record f { state = reserved } in
    ground (
      arith,
      h,
      r,
      get_elem?-set s.frames frame_id frame_id claimed near,
      set-set s.frames frame_id claimed f,
      set-get_elem? s.frames frame_id f h.in_frame,
      remove-absent s.in_flight_loads page_id h.unclaimed,
    )

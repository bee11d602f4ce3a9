-- ===== src/Pool/Manager/Evictions.antt =====
-- What an eviction leaves in the pool when it succeeds, and when the disk fails.
use task_pool_concurrency_im.Prelude.{
  ℕ, ◌≡◌, ◌⊎◌, inl, inr, refl, List, true, false, none, some, Outcome, ok, err, IoError, arith,
  length, get_elem?, page_size, get_elem?-set, get_elem?-lt,
}
use task_pool_concurrency_im.Prelude.Maps.{insert, remove, find-insert, find-remove}
use task_pool_concurrency_im.Pool.Frame
use task_pool_concurrency_im.Pool.Frame.{Frame, resident, free}
use task_pool_concurrency_im.Pool.PageTable
use task_pool_concurrency_im.Pool.PageTable.Laws.{frame_of}
use task_pool_concurrency_im.Pool.Metrics
use task_pool_concurrency_im.Pool.Manager.{BufferPoolManager, disk_error, Victim}
use task_pool_concurrency_im.Pool.Manager.Fetch.{load_evicting, keep_victim, commit_eviction}
use task_pool_concurrency_im.Pool.Manager.Loads.{
  holding, on_frame-first, on_frame-holding, loaded, Loaded, load_page-fresh, pin-fresh,
  mark-pinned,
}

-- A pool in which a reserved victim waits to be replaced: it has a frame, which the table gives to its
-- page, and the page that is to come is not in the table.
pub record IsEvicting (s : BufferPoolManager) (page_id : ℕ) (v : Victim) : Type 0 where
  pub sound : s.page_table.poisoned ≡ false
  pub frame : Frame
  pub in_frame : get_elem? s.frames v.frame_id ≡ some frame
  pub mapped : frame_of s.page_table v.old_page_id ≡ some v.frame_id
  pub absent : frame_of s.page_table page_id ≡ none

abbrev pub replaced : BufferPoolManager → ℕ → Victim → List ℕ → BufferPoolManager
replaced s page_id v buffer = record (holding s v.frame_id (loaded page_id buffer)) {
  page_table = record {
    poisoned = s.page_table.poisoned;
    guarded = insert (remove s.page_table.guarded v.old_page_id) page_id v.frame_id;
  };
  in_flight_loads = remove s.in_flight_loads page_id;
  metrics = Metrics.record_eviction s.metrics;
}

pub replace_run :
    (s : BufferPoolManager) (page_id : ℕ) (v : Victim)
    → IsEvicting s page_id v
    → PageTable.replace s.page_table v.old_page_id page_id v.frame_id
      ≡ ok (record {
        poisoned = s.page_table.poisoned;
        guarded = insert (remove s.page_table.guarded v.old_page_id) page_id v.frame_id;
      })
unfolding PageTable.replace
replace_run s page_id v e = ground (arith, e.sound, e.mapped, e.absent)

pub commit_run :
    (s : BufferPoolManager) (page_id : ℕ) (v : Victim) (buffer : List ℕ)
    → IsEvicting s page_id v
    → length buffer ≡ page_size
    → commit_eviction page_id v buffer s ≡ (replaced s page_id v buffer, ok v.frame_id)
unfolding commit_eviction
commit_run s page_id v buffer e q =
    let i = v.frame_id in
    let near = get_elem?-lt s.frames i e.frame e.in_frame in
    let load = λ (f : Frame). Frame.load_page f page_id buffer in
    rw
      (
        on_frame-first s i load e.frame _ e.in_frame (load_page-fresh e.frame page_id buffer q),
        on_frame-holding s i Frame.pin _ _ near (pin-fresh page_id buffer),
        on_frame-holding s i Frame.mark_referenced _ _ near (mark-pinned page_id buffer),
        replace_run s page_id v e,
      )
      refl

-- An eviction whose write, where the victim is dirty, and whose read succeed: the page is in the
-- victim's frame, pinned once, and its load has ended; the victim's page is no longer in the table; the
-- other frames and the other pages in the table are as they were.
pub load_evicting-Loaded :
    (write_page : ℕ → List ℕ → Outcome IoError (Unit {0}))
    (read_page : ℕ → Outcome IoError (List ℕ)) (s : BufferPoolManager) (page_id : ℕ) (v : Victim)
    (buffer : List ℕ)
    → IsEvicting s page_id v
    → (v.dirty ≡ true → write_page v.old_page_id v.old_data ≡ ok tt)
    → length buffer ≡ page_size
    → read_page page_id ≡ ok buffer
    → (load_evicting write_page read_page page_id v s
        ≡ (replaced s page_id v buffer, ok v.frame_id))
      × Loaded s (replaced s page_id v buffer) page_id v.frame_id buffer v.old_page_id
      × (frame_of (replaced s page_id v buffer).page_table v.old_page_id ≡ none)
unfolding load_evicting
load_evicting-Loaded write_page read_page s page_id v buffer e w q r =
    let near = get_elem?-lt s.frames v.frame_id e.frame e.in_frame in
    let at = λ (i : ℕ). get_elem?-set s.frames v.frame_id i (loaded page_id buffer) near in
    let left = remove s.page_table.guarded v.old_page_id in
    let maps = λ (j : ℕ). find-insert left page_id j v.frame_id in
    let gone = λ (j : ℕ). find-remove s.page_table.guarded v.old_page_id j in
    (
      ground (arith, w, r, commit_run s page_id v buffer e q),
      record {
        mapped = ground (arith, maps page_id);
        filled = ground (arith, at v.frame_id);
        ended = ground (arith, find-remove s.in_flight_loads page_id page_id);
        other_frames = λ i n. ground (arith, at i);
        other_pages = λ j m n. ground (arith, maps j, gone j);
      },
      ground (arith, maps v.old_page_id, gone v.old_page_id, e.mapped, e.absent),
    )

-- The pool as it was, but that the load has ended and the victim is resident again, as it stands.
abbrev pub kept : BufferPoolManager → ℕ → ℕ → Frame → BufferPoolManager
kept s page_id frame_id f = record (holding s frame_id (record f { state = resident })) {
  in_flight_loads = remove s.in_flight_loads page_id;
}

pub keep_run :
    (s : BufferPoolManager) (page_id frame_id : ℕ) (f : Frame)
    → get_elem? s.frames frame_id ≡ some f
    → keep_victim page_id frame_id s ≡ (kept s page_id frame_id f, ok tt)
unfolding keep_victim Frame.set_resident
keep_run s page_id frame_id f h = ground arith

-- An eviction that the disk fails, at the write of a dirty victim or at the read, is an error that
-- leaves the victim resident with its bytes, its dirty bit and its place in the table; the load has
-- ended, and nothing else has changed.
pub load_evicting-kept :
    (write_page : ℕ → List ℕ → Outcome IoError (Unit {0}))
    (read_page : ℕ → Outcome IoError (List ℕ)) (s : BufferPoolManager) (page_id : ℕ) (v : Victim)
    (f : Frame) (e : IoError)
    → get_elem? s.frames v.frame_id ≡ some f
    → ((v.dirty ≡ true) × (write_page v.old_page_id v.old_data ≡ err e))
      ⊎ ((v.dirty ≡ true → write_page v.old_page_id v.old_data ≡ ok tt)
          × (read_page page_id ≡ err e))
    → load_evicting write_page read_page page_id v s
      ≡ (kept s page_id v.frame_id f, err (disk_error e))
unfolding load_evicting
load_evicting-kept write_page read_page s page_id v f e h (inl (d, w)) =
    ground (arith, keep_run s page_id v.frame_id f h)
load_evicting-kept write_page read_page s page_id v f e h (inr (w, r)) =
    ground (arith, w, keep_run s page_id v.frame_id f h)

-- ===== src/Pool/Manager/Tests.antt =====
-- Pools of one frame, with the states that a fetch, a write and a new page meet.
use task_pool_concurrency_im.Prelude.{
  ℕ, ◌<◌, ◌≡◌, inr, refl, List, [], ◌∷◌, Bool, true, false, none, some, Outcome, ok, err, IoError,
  other, arith,
}
use task_pool_concurrency_im.Pool.Frame
use task_pool_concurrency_im.Pool.Frame.{Frame, PageMeta, resident, reserved, free, zero_page}
use task_pool_concurrency_im.Pool.PageTable.Laws.{frame_of}
use task_pool_concurrency_im.Pool.Clock
use task_pool_concurrency_im.Pool.FreeFrames
use task_pool_concurrency_im.Pool.PageTable
use task_pool_concurrency_im.Pool.Metrics
use task_pool_concurrency_im.Pool.Manager.{
  BufferPoolManager, Victim, no_evictable_frame, disk_error, reserve_victim, ◌>>=◌,
}
use task_pool_concurrency_im.Pool.Manager.Fetch.{
  decide, miss, claim_load, choose_frame, choose_victim, wait_for_load, load_free, load_evicting,
  fetch_page,
}
use task_pool_concurrency_im.Pool.Manager.Flush.{unpin_page, flush_page, delete_page}
use task_pool_concurrency_im.Pool.Manager.Create.{begin_new_page, new_page, evicting}
use task_pool_concurrency_im.Pool.Manager.Laws.{decide-strands}
use task_pool_concurrency_im.Pool.Manager.Loads.{
  Loaded, load_free-Loaded, holding, fetch_page-abandoned,
}
use task_pool_concurrency_im.Pool.Manager.Evictions.{
  IsEvicting, replaced, kept, load_evicting-Loaded, load_evicting-kept,
}
use task_pool_concurrency_im.Pool.Manager.Creates.{zero_page-length, grown, new_page-grown}
use task_pool_concurrency_im.Pool.Manager.Deletes.{Deleted, delete_page-Deleted}
use task_pool_concurrency_im.Pool.Manager.Writes.{IsResident, Flushed, flush_page-Flushed}
use task_pool_concurrency_im.Pool.Manager.Uses.{
  hit, fetched, with_pins, unpin_page-fetch_page, begin_new_page-evicting,
}

abbrev meta_of : ℕ → Bool → PageMeta
meta_of pins dirty = record { page_id = 4; pin_count = pins; dirty = dirty; reference = false }

abbrev frame_with : ℕ → Bool → Frame.FrameState → Frame
frame_with pins dirty state = record {
  bytes = 1 ∷ 2 ∷ [];
  metadata = some (meta_of pins dirty);
  state = state;
}

abbrev idle : Frame
idle = record { bytes = []; metadata = none; state = reserved }

abbrev spare : Frame
spare = record { bytes = []; metadata = none; state = free }

-- One frame, whose page, if any, is in the table.
abbrev pool_of : Frame → List (ℕ × ℕ) → BufferPoolManager
pool_of f pages = record {
  frames = f ∷ [];
  page_table = record { poisoned = false; guarded = pages };
  clock_replacer = record { clock_hand = 0 };
  free_frames = record { poisoned = false; guarded = [] };
  next_page_id = 5;
  in_flight_loads = (9, tt) ∷ [];
  metrics = record { fetches = 1; cache_hits = 0; cache_misses = 0; evictions = 0 };
}

abbrev good_read : ℕ → Outcome IoError (List ℕ)
good_read page_id = ok zero_page

abbrev bad_read : ℕ → Outcome IoError (List ℕ)
bad_read page_id = err other

abbrev good_write : ℕ → List ℕ → Outcome IoError (Unit {0})
good_write page_id bytes = ok tt

load_free-Loaded_example :
    (s' : BufferPoolManager) × (load_free good_read 9 0 (pool_of idle []) ≡ (s', ok 0))
    × Loaded (pool_of idle []) s' 9 0 zero_page 9
load_free-Loaded_example =
    load_free-Loaded good_read (pool_of idle []) 9 0 idle zero_page refl refl zero_page-length refl

-- The frame is free, and nobody brings in a page.
abbrev spare_pool : BufferPoolManager
spare_pool = record (pool_of spare []) {
  free_frames = record { poisoned = false; guarded = 0 ∷ [] };
  in_flight_loads = [];
}

fetch_page-abandoned_example : fetch_page good_write bad_read 9 spare_pool ≡ (
  record spare_pool {
    free_frames = record { poisoned = false; guarded = 0 ∷ [] };
    metrics = Metrics.record_miss (Metrics.record_fetch spare_pool.metrics);
  },
  err (disk_error other),
)
fetch_page-abandoned_example =
    fetch_page-abandoned good_write bad_read spare_pool 9 0 [] spare other
      (record {
        table_sound = refl;
        queue_sound = refl;
        absent = refl;
        unclaimed = refl;
        next = refl;
        in_frame = refl;
        unused = refl;
      })
      refl

-- The page 4 gives way to the page 9.
abbrev a_victim : Victim
a_victim = record { frame_id = 0; old_page_id = 4; dirty = true; old_data = 1 ∷ 2 ∷ [] }

abbrev evicting_pool : BufferPoolManager
evicting_pool = pool_of (frame_with 0 true reserved) ((4, 0) ∷ [])

evicting_pool-IsEvicting : IsEvicting evicting_pool 9 a_victim
evicting_pool-IsEvicting = record {
  sound = refl;
  frame = frame_with 0 true reserved;
  in_frame = refl;
  mapped = refl;
  absent = refl;
}

load_evicting-Loaded_example :
    (load_evicting good_write good_read 9 a_victim evicting_pool
      ≡ (replaced evicting_pool 9 a_victim zero_page, ok 0))
    × Loaded evicting_pool (replaced evicting_pool 9 a_victim zero_page) 9 0 zero_page 4
    × (frame_of (replaced evicting_pool 9 a_victim zero_page).page_table 4 ≡ none)
load_evicting-Loaded_example =
    load_evicting-Loaded good_write good_read evicting_pool 9 a_victim zero_page
      evicting_pool-IsEvicting (λ d. refl) zero_page-length refl

load_evicting-kept_example :
    load_evicting good_write bad_read 9 a_victim evicting_pool
    ≡ (kept evicting_pool 9 0 (frame_with 0 true reserved), err (disk_error other))
load_evicting-kept_example =
    load_evicting-kept good_write bad_read evicting_pool 9 a_victim (frame_with 0 true reserved)
      other refl (inr ((λ d. refl), refl))

-- The page 4 is in the frame, with some pins.
abbrev resident_pool : ℕ → BufferPoolManager
resident_pool pins = pool_of (frame_with pins true resident) ((4, 0) ∷ [])

resident_pool-IsResident :
    (pins : ℕ)
    → IsResident (resident_pool pins) 4 0 (frame_with pins true resident) (meta_of pins true)
resident_pool-IsResident pins = record {
  sound = refl;
  mapped = refl;
  in_frame = refl;
  at_rest = refl;
  owned = refl;
}

flush_page-Flushed_example :
    Flushed good_write
      (resident_pool 1)
      0
      (frame_with 1 true resident)
      (meta_of 1 true)
      (flush_page good_write 4 (resident_pool 1))
flush_page-Flushed_example =
    flush_page-Flushed good_write (resident_pool 1) 4 0 (frame_with 1 true resident)
      (meta_of 1 true) (resident_pool-IsResident 1) (λ e. ground arith)

unpin_page-fetch_page_example :
    (fetch_page good_write bad_read 4 (resident_pool 2) ≡ (
      hit (fetched (resident_pool 2)) 0 (frame_with 2 true resident) (meta_of 2 true),
      ok (some 0),
    ))
    × ((fetch_page good_write bad_read 4 >>= λ _. unpin_page 4) (resident_pool 2) ≡ (
      record (holding
          (resident_pool 2)
          0
          (with_pins (frame_with 2 true resident) (meta_of 2 true) 2 true)) {
            metrics = Metrics.record_hit (Metrics.record_fetch (resident_pool 2).metrics);
          },
      ok tt,
    ))
unpin_page-fetch_page_example =
    unpin_page-fetch_page good_write bad_read (resident_pool 2) 4 0 (frame_with 2 true resident)
      (meta_of 2 true) (resident_pool-IsResident 2) (omega arith)

delete_page-Deleted_example :
    Deleted good_write
      (resident_pool 0)
      4
      0
      (frame_with 0 true resident)
      (meta_of 0 true)
      (delete_page good_write 4 (resident_pool 0))
delete_page-Deleted_example =
    delete_page-Deleted good_write (resident_pool 0) 4 0 (frame_with 0 true resident)
      (meta_of 0 true) (resident_pool-IsResident 0) refl (λ e. ground arith)

-- The frame 0 is free, and no page is in the table.
abbrev fresh_pool : BufferPoolManager
fresh_pool = record (pool_of idle []) {
  free_frames = record { poisoned = false; guarded = 0 ∷ [] };
}

new_page-grown_example : new_page good_write fresh_pool ≡ (grown fresh_pool 0 [], ok (5, 0))
new_page-grown_example =
    new_page-grown good_write fresh_pool 0 [] idle refl refl refl (omega arith) refl

-- The only frame is pinned, and the page 8 is fetched.
abbrev stranded_pool : BufferPoolManager
stranded_pool = record (resident_pool 1) { in_flight_loads = (8, tt) ∷ (9, tt) ∷ [] }

stranded_run : decide true 8 (resident_pool 1) ≡ (stranded_pool, err no_evictable_frame)
unfolding decide miss claim_load choose_frame choose_victim PageTable.get_frame_id
    FreeFrames.get_frame Clock.find_victim Clock.revolutions Clock.revolve Clock.look
    Clock.advance_hand Frame.is_pinned Frame.is_reserved
stranded_run = refl

decide-strands_example : (decide false 8 stranded_pool).1 ≡ ok wait_for_load
decide-strands_example = decide-strands (resident_pool 1) stranded_pool 8 true false stranded_run

-- Two frames that may be evicted, and none free.
abbrev two_frame_pool : BufferPoolManager
two_frame_pool = record (pool_of (frame_with 0 true resident) ((4, 0) ∷ (6, 1) ∷ [])) {
  frames = frame_with 0 true resident ∷ frame_with 0 true resident ∷ [];
}

begin_run :
    begin_new_page two_frame_pool ≡ ((begin_new_page two_frame_pool).0, ok (evicting 5 a_victim))
unfolding begin_new_page reserve_victim FreeFrames.get_frame Clock.find_victim Clock.revolutions
    Clock.revolve Clock.look Clock.advance_hand Frame.is_pinned Frame.is_reserved
    Frame.is_referenced Frame.reserve Frame.get_page_id Frame.is_dirty Frame.read_data
begin_run = refl

abbrev next_victim : Victim
next_victim = record { frame_id = 1; old_page_id = 4; dirty = true; old_data = 1 ∷ 2 ∷ [] }

abbrev begun : BufferPoolManager
begun = (begin_new_page two_frame_pool).0

begin_run_again : begin_new_page begun ≡ ((begin_new_page begun).0, ok (evicting 5 next_victim))
unfolding begin_new_page reserve_victim FreeFrames.get_frame Clock.find_victim Clock.revolutions
    Clock.revolve Clock.look Clock.advance_hand Frame.is_pinned Frame.is_reserved
    Frame.is_referenced Frame.reserve Frame.get_page_id Frame.is_dirty Frame.read_data
begin_run_again = refl

begin_new_page-evicting_example : (◌≡◌ {A = ℕ} 5 5) × (◌≡◌ {A = ℕ} 5 5) × (5 < 65535)
begin_new_page-evicting_example =
    begin_new_page-evicting two_frame_pool begun (begin_new_page begun).0 5 5 a_victim next_victim
      begin_run begin_run_again

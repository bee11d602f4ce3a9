-- ===== src/Pool/Manager/Uses.antt =====
-- Pins that fetches of a resident page take and `unpin_page` gives back, and the numbers of new pages.
use task_pool_concurrency_im.Prelude.{
  ℕ, ◌+◌, ◌<◌, ◌≡◌, refl, List, Bool, true, false, some, Outcome, ok, IoError, arith, get_elem?-set,
  get_elem?-lt,
}
use task_pool_concurrency_im.Pool.Frame
use task_pool_concurrency_im.Pool.Frame.{Frame, PageMeta}
use task_pool_concurrency_im.Pool.PageTable
use task_pool_concurrency_im.Pool.Metrics
use task_pool_concurrency_im.Pool.Manager.{BufferPoolManager, Victim, reserve_victim, ◌>>=◌}
use task_pool_concurrency_im.Pool.Manager.Fetch.{decide, use_resident, resident_in, fetch_page}
use task_pool_concurrency_im.Pool.Manager.Flush.{unpin_page}
use task_pool_concurrency_im.Pool.Manager.Create.{begin_new_page, evicting, make_in_free}
use task_pool_concurrency_im.Pool.Manager.Loads.{holding, on_frame-first, on_frame-holding}
use task_pool_concurrency_im.Pool.Manager.Writes.{IsResident}

abbrev pub with_pins : Frame → PageMeta → ℕ → Bool → Frame
with_pins f meta pins used = record f {
  metadata = some (record meta { pin_count = pins; reference = used });
}

pin_run :
    (f : Frame) (meta : PageMeta)
    → f.metadata ≡ some meta
    → meta.pin_count < 255
    → Frame.pin f ≡ ok (with_pins f meta (meta.pin_count + 1) meta.reference)
unfolding Frame.pin
pin_run f meta h q = ground arith

-- The pool once a fetch has found the page.
abbrev pub hit : BufferPoolManager → ℕ → Frame → PageMeta → BufferPoolManager
hit s frame_id f meta = record (holding s frame_id (with_pins f meta (meta.pin_count + 1) true)) {
  metrics = Metrics.record_hit s.metrics;
}

use_resident_run :
    (s : BufferPoolManager) (page_id frame_id : ℕ) (f : Frame) (meta : PageMeta)
    → IsResident s page_id frame_id f meta
    → meta.pin_count < 255
    → use_resident frame_id s ≡ (hit s frame_id f meta, ok (resident_in frame_id))
unfolding use_resident Frame.is_reserved Frame.mark_referenced
use_resident_run s page_id frame_id f meta r q =
    let counted = record s { metrics = Metrics.record_hit s.metrics } in
    let once = with_pins f meta (meta.pin_count + 1) meta.reference in
    let near = get_elem?-lt s.frames frame_id f r.in_frame in
    ground (
      arith,
      r.in_frame,
      r.at_rest,
      on_frame-first counted frame_id Frame.pin f once r.in_frame (pin_run f meta r.owned q),
      on_frame-holding counted frame_id Frame.mark_referenced once _ near refl,
    )

-- The pool once a fetch has been counted.
abbrev pub fetched : BufferPoolManager → BufferPoolManager
fetched s = record s { metrics = Metrics.record_fetch s.metrics }

fetched-IsResident :
    (s : BufferPoolManager) (page_id frame_id : ℕ) (f : Frame) (meta : PageMeta)
    → IsResident s page_id frame_id f meta
    → IsResident (fetched s) page_id frame_id f meta
fetched-IsResident s page_id frame_id f meta r = record {
  sound = r.sound;
  mapped = r.mapped;
  in_frame = r.in_frame;
  at_rest = r.at_rest;
  owned = r.owned;
}

-- The section that finds the page, and the `unpin_page` that gives the pin back.
unpin_page-decide :
    (s : BufferPoolManager) (page_id frame_id : ℕ) (f : Frame) (meta : PageMeta) (b : Bool)
    → IsResident s page_id frame_id f meta
    → meta.pin_count < 255
    → (decide b page_id s ≡ (hit s frame_id f meta, ok (resident_in frame_id)))
      × (unpin_page page_id (hit s frame_id f meta) ≡ (
        record (holding s frame_id (with_pins f meta meta.pin_count true)) {
          metrics = Metrics.record_hit s.metrics;
        },
        ok tt,
      ))
unfolding decide unpin_page PageTable.get_frame_id Frame.is_reserved Frame.unpin
unpin_page-decide s page_id frame_id f meta b r q =
    let counted = record s { metrics = Metrics.record_hit s.metrics } in
    let near = get_elem?-lt s.frames frame_id f r.in_frame in
    let up = with_pins f meta (meta.pin_count + 1) true in
    let down = with_pins f meta meta.pin_count true in
    (
      ground (arith, r.sound, r.mapped, use_resident_run s page_id frame_id f meta r q),
      ground (
        arith,
        r.sound,
        r.mapped,
        r.at_rest,
        get_elem?-set s.frames frame_id frame_id up near,
        on_frame-holding counted frame_id Frame.unpin up down near
            (unfold Frame.unpin in ground arith),
      ),
    )

-- When no other thread runs and the lock of the table is not poisoned, a fetch of a resident page with
-- fewer than 255 pins returns its frame at once, with one pin more and marked as used, and the
-- `unpin_page` that follows gives that pin back. Together they leave the pool as it was, but that the
-- page is marked as used, and that a fetch and a hit have been counted.
pub unpin_page-fetch_page :
    (write_page : ℕ → List ℕ → Outcome IoError (Unit {0}))
    (read_page : ℕ → Outcome IoError (List ℕ)) (s : BufferPoolManager) (page_id frame_id : ℕ)
    (f : Frame) (meta : PageMeta)
    → IsResident s page_id frame_id f meta
    → meta.pin_count < 255
    → (fetch_page write_page read_page page_id s
        ≡ (hit (fetched s) frame_id f meta, ok (some frame_id)))
      × ((fetch_page write_page read_page page_id >>= λ _. unpin_page page_id) s ≡ (
        record (holding s frame_id (with_pins f meta meta.pin_count true)) {
          metrics = Metrics.record_hit (Metrics.record_fetch s.metrics);
        },
        ok tt,
      ))
unfolding fetch_page
unpin_page-fetch_page write_page read_page s page_id frame_id f meta r q =
    let (taken, given) =
      unpin_page-decide (fetched s) page_id frame_id f meta false
        (fetched-IsResident s page_id frame_id f meta r) q in
    (ground (arith, taken), ground (arith, taken, given))

-- When a `new_page` begins and must evict a page, the number of the new page is the next number, which
-- is below 65535, and stays the next number: another `new_page` that begins in the pool as the first
-- leaves it, and must also evict, is given the same number.
pub begin_new_page-evicting :
    (s s' s'' : BufferPoolManager) (n m : ℕ) (v w : Victim)
    → begin_new_page s ≡ (s', ok (evicting n v))
    → begin_new_page s' ≡ (s'', ok (evicting m w))
    → (n ≡ s.next_page_id) × (m ≡ n) × (n < 65535)
unfolding begin_new_page make_in_free reserve_victim
begin_new_page-evicting s s' s'' n m v w h k = ground arith

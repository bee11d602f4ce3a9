-- ===== src/Pool/Manager/Creates.antt =====
-- What making a page in a free frame leaves in the pool.
use task_pool_concurrency_im.Prelude.{
  ℕ, ◌+◌, ◌<◌, ◌≡◌, refl, List, ◌∷◌, true, false, some, Outcome, ok, IoError, arith, length,
  get_elem?, get_elem?-lt, page_size, length-replicate,
}
use task_pool_concurrency_im.Prelude.Maps.{insert}
use task_pool_concurrency_im.Pool.Frame
use task_pool_concurrency_im.Pool.Frame.{Frame, resident, zero_page}
use task_pool_concurrency_im.Pool.PageTable
use task_pool_concurrency_im.Pool.FreeFrames
use task_pool_concurrency_im.Pool.Manager.{BufferPoolManager}
use task_pool_concurrency_im.Pool.Manager.Create.{
  new_page, begin_new_page, make_in_free, fill_new, made,
}
use task_pool_concurrency_im.Pool.Manager.Loads.{
  holding, on_frame-first, on_frame-holding, loaded, load_page-fresh, pin-fresh, mark-pinned,
}

pub zero_page-length : length zero_page ≡ page_size
unfolding zero_page
zero_page-length = length-replicate page_size 0

-- A page of zeros that is still to be written.
abbrev pub new_frame : ℕ → Frame
new_frame page_id = record {
  bytes = zero_page;
  metadata = some (record { page_id = page_id; pin_count = 1; dirty = true; reference = true });
  state = resident;
}

pub mark_dirty-loaded :
    (page_id : ℕ) → Frame.mark_dirty (loaded page_id zero_page) ≡ ok (new_frame page_id)
unfolding Frame.mark_dirty
mark_dirty-loaded page_id = refl

fill_new_run :
    (s : BufferPoolManager) (page_id frame_id : ℕ) (f : Frame)
    → get_elem? s.frames frame_id ≡ some f
    → fill_new page_id frame_id s ≡ (holding s frame_id (new_frame page_id), ok tt)
fill_new_run s page_id frame_id f h =
    let near = get_elem?-lt s.frames frame_id f h in
    let load = λ (f : Frame). Frame.load_page f page_id zero_page in
    rw
      (
        on_frame-first s frame_id load f _ h (load_page-fresh f page_id zero_page zero_page-length),
        on_frame-holding s frame_id Frame.pin _ _ near (pin-fresh page_id zero_page),
        on_frame-holding s frame_id Frame.mark_referenced _ _ near (mark-pinned page_id zero_page),
        on_frame-holding s frame_id Frame.mark_dirty _ _ near (mark_dirty-loaded page_id),
      )
      refl

-- The pool with a new page in its first free frame.
abbrev pub grown : BufferPoolManager → ℕ → List ℕ → BufferPoolManager
grown s frame_id rest = record (holding s frame_id (new_frame s.next_page_id)) {
  page_table = record {
    poisoned = s.page_table.poisoned;
    guarded = insert s.page_table.guarded s.next_page_id frame_id;
  };
  free_frames = record { poisoned = s.free_frames.poisoned; guarded = rest };
  next_page_id = s.next_page_id + 1;
}

pub make_run :
    (s : BufferPoolManager) (page_id frame_id : ℕ) (f : Frame)
    → get_elem? s.frames frame_id ≡ some f
    → s.page_table.poisoned ≡ false
    → make_in_free page_id frame_id s ≡ (
      record (holding s frame_id (new_frame page_id)) {
        page_table = record {
          poisoned = s.page_table.poisoned;
          guarded = insert s.page_table.guarded page_id frame_id;
        };
        next_page_id = s.next_page_id + 1;
      },
      ok (made page_id frame_id),
    )
unfolding make_in_free PageTable.put
make_run s page_id frame_id f h p = ground (arith, fill_new_run s page_id frame_id f h)

-- While there is a free frame and a number left, and the locks are sound, `new_page` gives the next
-- number to a page of zeros in the frame that has been free the longest. The page is pinned once and
-- dirty, the table has it, the next number is one more, and nothing else has changed; the disk is not
-- asked.
pub new_page-grown :
    (write_page : ℕ → List ℕ → Outcome IoError (Unit {0})) (s : BufferPoolManager) (frame_id : ℕ)
    (rest : List ℕ) (f : Frame)
    → s.page_table.poisoned ≡ false
    → s.free_frames.poisoned ≡ false
    → s.free_frames.guarded ≡ frame_id ∷ rest
    → s.next_page_id < 65535
    → get_elem? s.frames frame_id ≡ some f
    → new_page write_page s ≡ (grown s frame_id rest, ok (s.next_page_id, frame_id))
unfolding new_page begin_new_page FreeFrames.get_frame
new_page-grown write_page s frame_id rest f p q g n h =
    let taken = record s {
      free_frames = record { poisoned = s.free_frames.poisoned; guarded = rest };
    } in
    ground (arith, p, q, g, n, make_run taken s.next_page_id frame_id f h p)

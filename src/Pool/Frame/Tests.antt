-- ===== src/Pool/Frame/Tests.antt =====
-- Frames at concrete values.
use task_pool_concurrency_im.Prelude.{◌≡◌, refl, List, [], ◌∷◌, true, false, some, ok, arith, ◌>>=◌}
use task_pool_concurrency_im.Pool.Frame.{Frame, PageMeta, new, resident, is_pinned, zero_page}
use task_pool_concurrency_im.Pool.Frame.History.{
  Call, loads, pins, modifies, reserves, cleans, settles, run_from, IsKept, run_from-new,
}
use task_pool_concurrency_im.Pool.Frame.Pinning.{
  pin_times, unpin_times, unpin_times-pin_times, unpin_times-saturated,
}

abbrev a_meta : PageMeta
a_meta = record { page_id = 4; pin_count = 1; dirty = false; reference = true }

abbrev a_frame : Frame
a_frame = record { bytes = []; metadata = some a_meta; state = resident }

-- A page is loaded, changed, written, and changed again, which a call with too few bytes does not do.
abbrev some_calls : List Call
some_calls =
    loads 4 zero_page ∷ pins ∷ modifies zero_page ∷ reserves ∷ cleans ∷ settles ∷ modifies [] ∷ []

run_from-new_example : let (f, kept) = run_from new [] some_calls in IsKept f kept
run_from-new_example = run_from-new some_calls []

unpin_times-pin_times_example : (pin_times 3 a_frame >>= unpin_times 3) ≡ ok a_frame
unpin_times-pin_times_example = unpin_times-pin_times 3 a_frame a_meta refl (omega arith)

unpin_times-saturated_example :
    (g : Frame) × ((pin_times 256 a_frame >>= unpin_times 255) ≡ ok g) × (is_pinned g ≡ false)
unpin_times-saturated_example =
    unpin_times-saturated 256 a_frame a_meta refl (omega arith) (omega arith)

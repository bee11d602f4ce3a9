-- ===== src/Pool/Clock/Tests.antt =====
-- The CLOCK policy at concrete frames.
use task_pool_concurrency_im.Prelude.{inr, List, [], ◌∷◌, true, false, some, Returns, arith}
use task_pool_concurrency_im.Pool.Frame.{Frame, resident}
use task_pool_concurrency_im.Pool.Clock.{ClockReplacer, find_victim}
use task_pool_concurrency_im.Pool.Clock.Victim.{Found, find_victim-Found}

-- A pinned frame, and one that has been referenced.
abbrev two_frames : List Frame
two_frames =
    record {
      bytes = [];
      metadata = some (record { page_id = 4; pin_count = 1; dirty = false; reference = true });
      state = resident;
    }
    ∷ record {
      bytes = [];
      metadata = some (record { page_id = 5; pin_count = 0; dirty = true; reference = true });
      state = resident;
    }
    ∷ []

abbrev at_one : ClockReplacer
at_one = record { clock_hand = 1 }

find_victim-Found_example : Returns (Found two_frames) (find_victim at_one two_frames)
find_victim-Found_example = find_victim-Found at_one two_frames (inr (omega arith))

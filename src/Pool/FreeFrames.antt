-- ===== src/Pool/FreeFrames.antt =====
-- src/storage/buffer_pool/free_frames.rs: the queue of frames that hold no page, behind a lock.
pub mod Laws
use task_pool_concurrency_im.Prelude.{
  ℕ, zero, suc, ◌+◌, ◌-◌, List, [], ◌∷◌, ◌++◌, Bool, true, false, Option, none, some, Outcome, ok,
  err, ◌>>=◌, Lock, acquire, length,
}

pub data FreeFramesError : Type 0 where
  lock_poisoned : FreeFramesError

abbrev pub FreeFrames : Type 0
FreeFrames = Lock (List ℕ)

unfoldable pub new : FreeFrames
new = record { poisoned = false; guarded = [] }

unfoldable pub add_frame : FreeFrames → ℕ → Outcome FreeFramesError FreeFrames
add_frame q frame_id = do
  frames ← acquire q lock_poisoned
  ok (record q { guarded = frames ++ frame_id ∷ [] })

-- `for i in 0..size { lock.push_back(i) }`, with `i` the round that comes next and `n` those left.
unfoldable pub push_range : ℕ → ℕ → List ℕ → List ℕ
push_range zero i frames = frames
push_range (suc n) i frames = push_range n (i + 1) (frames ++ i ∷ [])

unfoldable pub initialize : ℕ → Outcome FreeFramesError FreeFrames
unfolding new push_range
initialize size = do
  frames ← acquire new lock_poisoned
  ok (record new { guarded = push_range size 0 frames })

-- The head of the queue, and the queue without it.
abbrev pop_front : List ℕ → Option ℕ × List ℕ
pop_front [] = (none, [])
pop_front (x ∷ xs) = (some x, xs)

unfoldable pub get_frame : FreeFrames → Outcome FreeFramesError (Option ℕ × FreeFrames)
get_frame q = do
  frames ← acquire q lock_poisoned
  ok ((pop_front frames).0, record q { guarded = (pop_front frames).1 })

unfoldable pub len : FreeFrames → Outcome FreeFramesError ℕ
len q = do frames ← acquire q lock_poisoned; ok (length frames)

abbrev no_frames : List ℕ → Bool
no_frames [] = true
no_frames (x ∷ xs) = false

unfoldable pub is_empty : FreeFrames → Outcome FreeFramesError Bool
is_empty q = do frames ← acquire q lock_poisoned; ok (no_frames frames)

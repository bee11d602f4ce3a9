-- ===== src/Pool/FreeFrames/Laws.antt =====
-- The free frames as a first-in, first-out queue.
use task_pool_concurrency_im.Prelude.{
  ℕ, zero, suc, ◌+◌, ◌≡◌, ◌∙◌, sym, refl, List, [], ◌∷◌, ◌++◌, false, Option, some, Outcome, ok,
  ◌>>=◌, append-nil, append_assoc, ap, length,
}
use task_pool_concurrency_im.Pool.FreeFrames.{
  FreeFrames, FreeFramesError, add_frame, push_range, initialize, get_frame, len, new,
}

-- `start`, `start + 1`, and so on, `n` numbers.
unfoldable pub range : ℕ → ℕ → List ℕ
range zero start = []
range (suc n) start = start ∷ range n (start + 1)

-- A queue whose lock is not poisoned, with these frames.
abbrev pub queue : List ℕ → FreeFrames
queue frames = record { poisoned = false; guarded = frames }

push_range-append : (n i : ℕ) (frames : List ℕ) → push_range n i frames ≡ frames ++ range n i
unfolding push_range range
push_range-append zero i frames = simp append-nil
push_range-append (suc n) i frames =
    push_range-append n (i + 1) (frames ++ i ∷ []) ∙ append_assoc frames (i ∷ []) (range n (i + 1))

length-range : (n i : ℕ) → length (range n i) ≡ n
unfolding range
length-range zero i = refl
length-range (suc n) i = ap suc (length-range n (i + 1))

-- A pool of `size` frames starts with every frame free, in order, and the queue says how many.
pub initialize_lem :
    (size : ℕ)
    → (initialize size ≡ ok (queue (range size 0))) × ((initialize size >>= len) ≡ ok size)
unfolding initialize len new
initialize_lem size = (
  ap (λ (l : List ℕ). ok (queue l)) (push_range-append size 0 []),
  ap ok (ap length (push_range-append size 0 []) ∙ length-range size 0),
)

-- `n` calls of `get_frame`, which must each find a frame: those found, in order, and what is left.
pub take_frames : ℕ → FreeFrames → Outcome FreeFramesError (List (Option ℕ) × FreeFrames)
take_frames zero q = ok ([], q)
take_frames (suc n) q = do
  (frame, q') ← get_frame q
  (rest, q'') ← take_frames n q'
  ok (frame ∷ rest, q'')

-- The calls of `add_frame` for the frames of a list, in order.
pub add_all : List ℕ → FreeFrames → Outcome FreeFramesError FreeFrames
add_all [] q = ok q
add_all (x ∷ xs) q = add_frame q x >>= add_all xs

abbrev somes : List ℕ → List (Option ℕ)
somes [] = []
somes (x ∷ xs) = some x ∷ somes xs

add_all-queue : (xs ys : List ℕ) → add_all xs (queue ys) ≡ ok (queue (ys ++ xs))
unfolding add_all add_frame
add_all-queue [] ys = simp append-nil
add_all-queue (x ∷ xs) ys =
    add_all-queue xs (ys ++ x ∷ [])
    ∙ ap (λ (l : List ℕ). ok (queue l)) (append_assoc ys (x ∷ []) xs)

take_frames-queue :
    (xs ys : List ℕ) → take_frames (length xs) (queue (xs ++ ys)) ≡ ok (somes xs, queue ys)
unfolding take_frames get_frame
take_frames-queue [] ys = refl
take_frames-queue (x ∷ xs) ys = rw (take_frames-queue xs ys)

-- Frames come back in the order in which they were given, after those that were already in the queue;
-- as many calls as there are frames leave the queue empty.
pub take_frames-add_all :
    (xs ys : List ℕ)
    → (add_all xs (queue ys) >>= take_frames (length (ys ++ xs))) ≡ ok (somes (ys ++ xs), queue [])
take_frames-add_all xs ys = rw (add_all-queue xs ys) (
    ap (λ (l : List ℕ). take_frames (length (ys ++ xs)) (queue l)) (sym (append-nil (ys ++ xs)))
    ∙ take_frames-queue (ys ++ xs) [])

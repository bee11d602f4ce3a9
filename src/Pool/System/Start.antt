-- ===== src/Pool/System/Start.antt =====
-- The pool as `BufferPoolManager::new` makes it.
use task_pool_concurrency_im.Prelude.{
  ℕ, zero, suc, ◌+◌, ◌<◌, ◌≡◌, ◌⊎◌, inl, inr, refl, List, [], ◌∷◌, true, false, Outcome, ok, err,
  panic, IoError, arith, length, ap, replicate, length-replicate, get_or-replicate, dec_lt,
}
use task_pool_concurrency_im.Pool.Frame
use task_pool_concurrency_im.Pool.Frame.{Frame, free}
use task_pool_concurrency_im.Pool.Metrics
use task_pool_concurrency_im.Pool.Clock
use task_pool_concurrency_im.Pool.Clock.Scan.{frame_at}
use task_pool_concurrency_im.Pool.PageTable
use task_pool_concurrency_im.Pool.FreeFrames.Laws.{range, queue, initialize_lem}
use task_pool_concurrency_im.Pool.Manager
use task_pool_concurrency_im.Pool.Manager.{BufferPoolManager}
use task_pool_concurrency_im.Pool.System.{idle}
use task_pool_concurrency_im.Pool.System.Invariant.{vacant, queued, Distinct, IsSound}

queued-range :
    (n i k : ℕ)
    → ((queued k (range n i) ≡ true) × (i < k + 1) × (k < i + n))
      ⊎ ((queued k (range n i) ≡ false) × ((k < i) ⊎ (i + n < k + 1)))
unfolding range
queued-range zero i k = elim (dec_lt k i) [
  | yes h ↦ inr (refl, inl h)
  | no h ↦ inr (refl, inr (omega arith))
]
queued-range (suc n) i k = ground (arith, queued-range n (i + 1) k)

range-Distinct : (n i : ℕ) → Distinct (range n i)
unfolding range
range-Distinct zero i = tt
range-Distinct (suc n) i = (ground (arith, queued-range n (i + 1) i), range-Distinct n (i + 1))

replicate-free : (n i : ℕ) → (frame_at (replicate n Frame.new) i).state ≡ free
unfolding Frame.new
replicate-free n i = ap (λ (f : Frame). f.state) (get_or-replicate n i Frame.new)

-- All of its frames are free.
abbrev pub unused : ℕ → BufferPoolManager
unused n = record {
  frames = replicate n Frame.new;
  page_table = PageTable.new;
  clock_replacer = Clock.new;
  free_frames = queue (range n 0);
  next_page_id = 0;
  in_flight_loads = [];
  metrics = Metrics.new;
}

pub new-unused : (n : ℕ) → Manager.new (ok tt) n ≡ ok (unused n)
unfolding Manager.new
new-unused n = let made = (initialize_lem n).0 in ground (arith, made)

-- A pool that `new` makes is the unused one.
pub new-ok :
    (disk : Outcome IoError (Unit {0})) (n : ℕ) (s : BufferPoolManager)
    → Manager.new disk n ≡ ok s
    → unused n ≡ s
unfolding Manager.new
new-ok (ok opened) n s h = let made = (initialize_lem n).0 in ground (arith, made)
new-ok (err e) n s h = absurd (ground arith)
new-ok panic n s h = absurd (ground arith)

hand_unused : (fs : List Frame) → (fs ≡ []) ⊎ (Clock.new.clock_hand < length fs)
unfolding Clock.new
hand_unused [] = inl refl
hand_unused (f ∷ fs) = inr (omega arith)

pub unused-IsSound : (n : ℕ) → IsSound (unused n) (λ t. idle) (λ i. vacant)
unfolding PageTable.new
unused-IsSound n = record {
  table_sound = refl;
  queue_sound = refl;
  hand = hand_unused (replicate n Frame.new);
  frames = λ i h.
      let sized = length-replicate n Frame.new in
      (replicate-free n i, ground (arith, queued-range n 0 i, sized));
  pages = λ p i h. absurd (ground arith);
  queue = λ i h.
      let sized = length-replicate n Frame.new in (ground (arith, queued-range n 0 i, sized), refl);
  distinct = range-Distinct n 0;
  threads = λ t. tt;
  loads = λ t u p h k. absurd (ground arith);
  below = λ p i h. absurd (ground arith);
}

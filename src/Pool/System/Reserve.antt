-- ===== src/Pool/System/Reserve.antt =====
-- A resident frame that a thread reserves, and one that it gives back to its page.
use task_pool_concurrency_im.Prelude.{
  ℕ, ◌<◌, ◌≡◌, ◌≢◌, inl, inr, List, true, some, arith, length, subst, get_elem?, get_elem?-get_or,
}
use task_pool_concurrency_im.Prelude.Maps.{contains_key}
use task_pool_concurrency_im.Pool.Frame
use task_pool_concurrency_im.Pool.Frame.{Frame, resident, reserved}
use task_pool_concurrency_im.Pool.Metrics.{BufferPoolMetrics}
use task_pool_concurrency_im.Pool.Clock.Scan.{frame_at}
use task_pool_concurrency_im.Pool.PageTable.Laws.{frame_of}
use task_pool_concurrency_im.Pool.Manager.{BufferPoolManager}
use task_pool_concurrency_im.Pool.System.{Job, idle, update}
use task_pool_concurrency_im.Pool.System.Invariant.{
  Role, mapped, busy, page_of, Fits, JobFits, load_of, IsSound,
}
use task_pool_concurrency_im.Pool.System.Steady.{steady, steady-IsSound, Awaited-of}

-- The frame of a page that a thread has reserved.
pub record Owned (s : BufferPoolManager) (p i : ℕ) : Type 0 where
  pub there : get_elem? s.frames i ≡ some (frame_at s.frames i)
  pub state : (frame_at s.frames i).state ≡ reserved
  pub paged : page_of (frame_at s.frames i) ≡ some p
  pub tabled : frame_of s.page_table p ≡ some i

pub busy-Owned :
    (s : BufferPoolManager) (jobs : ℕ → Job) (roles : ℕ → Role) (p t i : ℕ)
    → IsSound s jobs roles
    → i < length s.frames
    → roles i ≡ busy p t
    → Owned s p i
busy-Owned s jobs roles p t i v near role =
    let fits : Fits s i (frame_at s.frames i) (busy p t) =
      subst (Fits s i (frame_at s.frames i)) role (v.frames i near) in
    record {
      there = get_elem?-get_or s.frames i Frame.new near;
      state = fits.0;
      paged = fits.1;
      tabled = fits.2;
    }

pub release-IsSound :
    (s : BufferPoolManager) (jobs : ℕ → Job) (roles : ℕ → Role) (p t i : ℕ) (g : Frame)
    (loads : List (ℕ × Unit {0})) (m : BufferPoolMetrics)
    → IsSound s jobs roles
    → i < length s.frames
    → roles i ≡ busy p t
    → g.state ≡ resident
    → page_of g ≡ some p
    → ((u q : ℕ) → u ≢ t → load_of (jobs u) ≡ some q → contains_key loads q ≡ true)
    → IsSound (steady s i g loads m) (update jobs t idle) (update roles i (mapped p))
release-IsSound s jobs roles p t i g loads m v near role state paged more =
    steady-IsSound s jobs roles t i g (mapped p) idle loads m v near (inr (ground arith))
      (ground arith) (ground arith)
      (state, paged, (busy-Owned s jobs roles p t i v near role).tabled) tt
      (λ u q n h. (more u q n h, ground arith))

pub reserve-IsSound :
    (s : BufferPoolManager) (jobs : ℕ → Job) (roles : ℕ → Role) (p t i : ℕ) (g : Frame) (j : Job)
    → IsSound s jobs roles
    → i < length s.frames
    → roles i ≡ mapped p
    → g.state ≡ reserved
    → page_of g ≡ some p
    → frame_of s.page_table p ≡ some i
    → JobFits (steady s i g s.in_flight_loads s.metrics) (update roles i (busy p t)) t j
    → ((u q : ℕ) → u ≢ t → load_of (jobs u) ≡ some q → load_of j ≢ some q)
    → IsSound
        (steady s i g s.in_flight_loads s.metrics)
        (update jobs t j)
        (update roles i (busy p t))
reserve-IsSound s jobs roles p t i g j v near role state paged tabled job fresh =
    steady-IsSound s jobs roles t i g (busy p t) j s.in_flight_loads s.metrics v near
      (inl (ground arith)) (ground arith) (ground arith) (state, paged, tabled) job
      (λ u q n h. ((Awaited-of s jobs roles u q v h).1, fresh u q n h))

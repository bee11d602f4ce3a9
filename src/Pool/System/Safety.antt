-- ===== src/Pool/System/Safety.antt =====
-- What holds of the pool and of its threads after any sections in any order.
use task_pool_concurrency_im.Prelude.{
  ℕ, ◌<◌, ◌≡◌, ◌≢◌, true, false, Option, none, some, Outcome, ok, IoError, arith, length, subst,
}
use task_pool_concurrency_im.Prelude.Maps.{contains_key}
use task_pool_concurrency_im.Pool.Frame.{Frame, free, is_pinned, is_reserved}
use task_pool_concurrency_im.Pool.Clock.Scan.{frame_at, evictable}
use task_pool_concurrency_im.Pool.PageTable.Laws.{frame_of}
use task_pool_concurrency_im.Pool.Manager
use task_pool_concurrency_im.Pool.Manager.{BufferPoolManager, BufferPoolError, Victim}
use task_pool_concurrency_im.Pool.System.{
  Job, idle, loading, filled, evicting, flushing, deleting, creating, System, Reach, at_rest,
}
use task_pool_concurrency_im.Pool.System.Invariant.{
  Role, vacant, mapped, busy, held, full, owner, page_of, Fits, JobFits, load_of, queued, Distinct,
  IsSound,
}
use task_pool_concurrency_im.Pool.System.Steady.{Awaited-of}
use task_pool_concurrency_im.Pool.System.Touch.{table-Found}
use task_pool_concurrency_im.Pool.System.Steps.{Reach-Right, at_rest-Right}

-- The frame that a thread has reserved or filled.
abbrev pub works_on : Job → Option ℕ
works_on idle = none
works_on (loading p i) = some i
works_on (filled p i) = some i
works_on (evicting p v) = some v.frame_id
works_on (flushing p i) = some i
works_on (deleting p i) = some i
works_on (creating n v) = some v.frame_id

pub record IsSafe (z : System) : Type 0 where
  pub one_page :
      (p q i : ℕ)
      → frame_of z.pool.page_table p ≡ some i
      → frame_of z.pool.page_table q ≡ some i
      → p ≡ q
  pub right_page :
      (p i : ℕ)
      → frame_of z.pool.page_table p ≡ some i
      → (i < length z.pool.frames)
        × (page_of (frame_at z.pool.frames i) ≡ some p)
        × ((frame_at z.pool.frames i).state ≢ free)
  pub free_frames :
      (i : ℕ)
      → queued i z.pool.free_frames.guarded ≡ true
      → (i < length z.pool.frames)
        × ((frame_at z.pool.frames i).state ≡ free)
        × ((p : ℕ) → frame_of z.pool.page_table p ≢ some i)
  pub free_once : Distinct z.pool.free_frames.guarded
  pub one_worker : (t u i : ℕ) → works_on (z.jobs t) ≡ some i → works_on (z.jobs u) ≡ some i → t ≡ u
  pub kept_from_others :
      (t i : ℕ) → works_on (z.jobs t) ≡ some i → evictable (frame_at z.pool.frames i) ≡ false
  pub one_load : (t u p : ℕ) → load_of (z.jobs t) ≡ some p → load_of (z.jobs u) ≡ some p → t ≡ u
  pub awaited :
      (t p : ℕ)
      → load_of (z.jobs t) ≡ some p
      → (frame_of z.pool.page_table p ≡ none) × (contains_key z.pool.in_flight_loads p ≡ true)

JobFits-owner :
    (s : BufferPoolManager) (roles : ℕ → Role) (t i : ℕ) (j : Job)
    → JobFits s roles t j
    → works_on j ≡ some i
    → (i < length s.frames) × (owner (roles i) ≡ some t)
JobFits-owner s roles t i idle h w = absurd (ground arith)
JobFits-owner s roles t i (loading p k) h w = (ground (arith, h.1), ground (arith, h.0))
JobFits-owner s roles t i (filled p k) h w = (ground (arith, h.1), ground (arith, h.0))
JobFits-owner s roles t i (evicting p v) h w = (ground (arith, h.1), ground (arith, h.0))
JobFits-owner s roles t i (flushing p k) h w = (ground (arith, h.1), ground (arith, h.0))
JobFits-owner s roles t i (deleting p k) h w = (ground (arith, h.1), ground (arith, h.0))
JobFits-owner s roles t i (creating n v) h w = (ground (arith, h.1), ground (arith, h.0))

owner-closed :
    (s : BufferPoolManager) (i t : ℕ) (f : Frame) (r : Role)
    → owner r ≡ some t
    → Fits s i f r
    → evictable f ≡ false
unfolding is_pinned is_reserved
owner-closed s i t f vacant e h = absurd (ground arith)
owner-closed s i t f (mapped p) e h = absurd (ground arith)
owner-closed s i t f (busy p u) e h = ground arith
owner-closed s i t f (held u) e h = ground arith
owner-closed s i t f (full p u) e h = ground arith

vacant-free : (s : BufferPoolManager) (i : ℕ) (f : Frame) → Fits s i f vacant → f.state ≡ free
vacant-free s i f h = h.0

IsSound-IsSafe : (z : System) (roles : ℕ → Role) → IsSound z.pool z.jobs roles → IsSafe z
IsSound-IsSafe z roles v = record {
  one_page =
      λ p q i a b. let first = (v.pages p i a).1 in let second = (v.pages q i b).1 in ground arith;
  right_page = λ p i h.
      let found = table-Found z.pool z.jobs roles p i v h in
      let role = found.role in (found.inside, found.paged, λ e. ground arith);
  free_frames = λ i h.
      let (near, role) = v.queue i h in
      (
        near,
        vacant-free z.pool i (frame_at z.pool.frames i)
            (subst (Fits z.pool i (frame_at z.pool.frames i)) role (v.frames i near)),
        λ p e. let page = (v.pages p i e).1 in ground arith,
      );
  free_once = v.distinct;
  one_worker = λ t u i a b.
      let first = (JobFits-owner z.pool roles t i (z.jobs t) (v.threads t) a).1 in
      let second = (JobFits-owner z.pool roles u i (z.jobs u) (v.threads u) b).1 in ground arith;
  kept_from_others = λ t i a.
      let (near, mine) = JobFits-owner z.pool roles t i (z.jobs t) (v.threads t) a in
      owner-closed z.pool i t (frame_at z.pool.frames i) (roles i) mine (v.frames i near);
  one_load = λ t u p a b. v.loads t u p a b;
  awaited = λ t p a. let known = Awaited-of z.pool z.jobs roles t p v a in (known.0, known.1);
}

-- Fetches are of pages that have been made, no `new_page` starts while another evicts, and a deletion
-- goes on only once the disk has taken a dirty page. In a pool that `new` has made, of any size, after
-- any number of sections of any threads in any order under these rules, the following holds. No two
-- pages of the table share a frame; the frame of a page holds that page, and
-- is not free. A queued frame is free, is queued once and is no page's. No two threads have
-- reserved or filled the same frame, nor bring in the same page; a frame that a thread has reserved or
-- filled cannot be evicted, and a page that a thread brings in is claimed and is not in the table.
pub Reach-IsSafe :
    (disk : Outcome IoError (Unit {0})) (pool_size : ℕ) (s : BufferPoolManager) (z : System)
    → Manager.new disk pool_size ≡ ok s
    → Reach (at_rest s) z
    → IsSafe z
Reach-IsSafe disk pool_size s z h r =
    let ((roles, v), single) = Reach-Right (at_rest s) z (at_rest-Right disk pool_size s h) r in
    IsSound-IsSafe z roles v

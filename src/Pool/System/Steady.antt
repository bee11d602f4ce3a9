-- ===== src/Pool/System/Steady.antt =====
-- Sections that leave the page table and the queue of free frames alone.
use task_pool_concurrency_im.Prelude.{
  ℕ, ◌<◌, ◌≡◌, ◌≢◌, ◌⊎◌, refl, List, true, none, some, arith, length, set, ◌∙◌, subst, length-set,
}
use mathlib.Core.Path.{fun_ext}
use task_pool_concurrency_im.Pool.Frame.{Frame}
use task_pool_concurrency_im.Prelude.Maps.{contains_key}
use task_pool_concurrency_im.Pool.Metrics.{BufferPoolMetrics}
use task_pool_concurrency_im.Pool.Manager.{BufferPoolManager}
use task_pool_concurrency_im.Pool.System.{
  Job, idle, loading, filled, evicting, flushing, deleting, creating, update,
}
use task_pool_concurrency_im.Pool.System.Moves.{Moves-IsSound}
use task_pool_concurrency_im.Pool.System.Invariant.{
  Role, vacant, role_page, owner, Fits, Awaited, JobFits, load_of, IsSound,
}

JobFits-Awaited :
    (s : BufferPoolManager) (roles : ℕ → Role) (t p : ℕ) (j : Job)
    → JobFits s roles t j
    → load_of j ≡ some p
    → Awaited s p
JobFits-Awaited s roles t p idle f h = absurd (ground arith)
JobFits-Awaited s roles t p (loading q i) f h =
    let e : q ≡ p = ground arith in subst (Awaited s) e f.2
JobFits-Awaited s roles t p (filled q i) f h =
    let e : q ≡ p = ground arith in subst (Awaited s) e f.2
JobFits-Awaited s roles t p (evicting q v) f h =
    let e : q ≡ p = ground arith in subst (Awaited s) e f.2
JobFits-Awaited s roles t p (flushing q i) f h = absurd (ground arith)
JobFits-Awaited s roles t p (deleting q i) f h = absurd (ground arith)
JobFits-Awaited s roles t p (creating q v) f h = absurd (ground arith)

-- The metrics are nobody's.
pub recount-IsSound :
    (s : BufferPoolManager) (jobs : ℕ → Job) (roles : ℕ → Role) (m : BufferPoolMetrics)
    → IsSound s jobs roles
    → IsSound (record s { metrics = m }) jobs roles
recount-IsSound s jobs roles m v = record {
  table_sound = v.table_sound;
  queue_sound = v.queue_sound;
  hand = v.hand;
  frames = λ i p. v.frames i p;
  pages = λ p i h. v.pages p i h;
  queue = λ i h. v.queue i h;
  distinct = v.distinct;
  threads = λ t. v.threads t;
  loads = λ t u p h k. v.loads t u p h k;
  below = λ p i h. v.below p i h;
}

-- A thread that keeps its job.
pub same_job-IsSound :
    (s : BufferPoolManager) (jobs : ℕ → Job) (roles : ℕ → Role) (t : ℕ) (j : Job)
    → jobs t ≡ j
    → IsSound s jobs roles
    → IsSound s (update jobs t j) roles
same_job-IsSound s jobs roles t j e v =
    let same : jobs ≡ update jobs t j = fun_ext (λ u. ground arith) in
    subst (λ (js : ℕ → Job). IsSound s js roles) same v

-- A page that a thread brings in is awaited.
pub Awaited-of :
    (s : BufferPoolManager) (jobs : ℕ → Job) (roles : ℕ → Role) (t p : ℕ)
    → IsSound s jobs roles
    → load_of (jobs t) ≡ some p
    → Awaited s p
Awaited-of s jobs roles t p v h = JobFits-Awaited s roles t p (jobs t) (v.threads t) h

-- A section that changes the frame `i`, the loads under way and the metrics.
abbrev pub steady :
    BufferPoolManager → ℕ → Frame → List (ℕ × Unit {0}) → BufferPoolMetrics → BufferPoolManager
steady s i f loads m = record s { frames = set s.frames i f; in_flight_loads = loads; metrics = m }

pub steady-IsSound :
    (s : BufferPoolManager) (jobs : ℕ → Job) (roles : ℕ → Role) (t i : ℕ) (f : Frame) (r : Role)
    (j : Job) (loads : List (ℕ × Unit {0})) (m : BufferPoolMetrics)
    → IsSound s jobs roles
    → i < length s.frames
    → (owner (roles i) ≡ none) ⊎ (owner (roles i) ≡ some t)
    → roles i ≢ vacant
    → role_page r ≡ role_page (roles i)
    → Fits (steady s i f loads m) i f r
    → JobFits (steady s i f loads m) (update roles i r) t j
    → ((u p : ℕ)
        → u ≢ t
        → load_of (jobs u) ≡ some p
        → (contains_key loads p ≡ true) × (load_of j ≢ some p))
    → IsSound (steady s i f loads m) (update jobs t j) (update roles i r)
steady-IsSound s jobs roles t i f r j loads m v inside mine full same own_frame own_job others =
    Moves-IsSound s (steady s i f loads m) jobs roles t i f r j v (record {
      inside = inside;
      written = refl;
      same_hand = refl;
      table_sound = v.table_sound;
      queue_sound = v.queue_sound;
      mine = mine;
      own_frame = own_frame;
      other_pages = λ p k n. (λ h. h, λ h. h);
      own_pages = λ p h. same ∙ (v.pages p i h).1;
      other_queued = λ k n. refl;
      own_queued = λ h. absurd (full (v.queue i h).1);
      distinct = v.distinct;
      own_job = own_job;
      other_loads = λ u p n h.
          let awaited = Awaited-of s jobs roles u p v h in
          let (a, b) = others u p n h in ((awaited.0, a, awaited.2), b);
      other_new = λ u n d h. refl;
      below = λ p h. v.below p i h;
      grows = omega arith;
    })

-- A job fits after such a section too, if no page that is awaited loses its claim.
pub JobFits-steady :
    (s : BufferPoolManager) (roles : ℕ → Role) (i : ℕ) (f : Frame) (loads : List (ℕ × Unit {0}))
    (m : BufferPoolMetrics) (t : ℕ) (j : Job)
    → ((p : ℕ) → contains_key s.in_flight_loads p ≡ true → contains_key loads p ≡ true)
    → JobFits s roles t j
    → JobFits (steady s i f loads m) roles t j
JobFits-steady s roles i f loads m t idle k h = tt
JobFits-steady s roles i f loads m t (loading p n) k h =
    (h.0, omega (arith, h.1, length-set s.frames i f), (h.2.0, k p h.2.1, h.2.2))
JobFits-steady s roles i f loads m t (filled p n) k h =
    (h.0, omega (arith, h.1, length-set s.frames i f), (h.2.0, k p h.2.1, h.2.2))
JobFits-steady s roles i f loads m t (evicting p n) k h =
    (h.0, omega (arith, h.1, length-set s.frames i f), (h.2.0, k p h.2.1, h.2.2))
JobFits-steady s roles i f loads m t (flushing p n) k h =
    (h.0, omega (arith, h.1, length-set s.frames i f))
JobFits-steady s roles i f loads m t (deleting p n) k h =
    (h.0, omega (arith, h.1, length-set s.frames i f))
JobFits-steady s roles i f loads m t (creating p n) k h =
    (h.0, omega (arith, h.1, length-set s.frames i f), h.2)

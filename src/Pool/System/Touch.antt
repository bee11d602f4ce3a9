-- ===== src/Pool/System/Touch.antt =====
-- Uses of a page that is in the pool: they change its pins and its bits.
use task_pool_concurrency_im.Prelude.{
  ℕ, ◌<◌, ◌≡◌, ◌⊎◌, inl, inr, some, Outcome, ok, IoError, arith, length, get_elem?, ◌∙◌, sym, subst,
  subst₂, get_elem?-get_or, get_elem?-lt, Outcome-cases, Option-cases,
}
use mathlib.Core.Path.{fun_ext}
use task_pool_concurrency_im.Pool.Frame
use task_pool_concurrency_im.Pool.Frame.{Frame, PageMeta, resident, reserved, is_reserved}
use task_pool_concurrency_im.Pool.Metrics.{BufferPoolMetrics}
use task_pool_concurrency_im.Pool.PageTable.Laws.{frame_of}
use task_pool_concurrency_im.Pool.Clock.Scan.{frame_at}
use task_pool_concurrency_im.Pool.Manager.{BufferPoolManager, on_frame}
use task_pool_concurrency_im.Pool.Manager.Loads.{holding, on_frame-first}
use task_pool_concurrency_im.Pool.System.{Job, update}
use task_pool_concurrency_im.Pool.System.Invariant.{
  Role, mapped, busy, vacant, held, full, role_page, page_of, Fits, JobFits, IsSound,
}
use task_pool_concurrency_im.Pool.System.Steady.{steady, steady-IsSound, Awaited-of, JobFits-steady}

-- Some assignment of roles is right.
abbrev pub IsConsistent : BufferPoolManager → (ℕ → Job) → Type 0
IsConsistent s jobs = (roles : ℕ → Role) × IsSound s jobs roles

-- The frame of a page of the table, and its role.
pub record Found (s : BufferPoolManager) (roles : ℕ → Role) (p i : ℕ) : Type 0 where
  pub inside : i < length s.frames
  pub there : get_elem? s.frames i ≡ some (frame_at s.frames i)
  pub paged : page_of (frame_at s.frames i) ≡ some p
  pub role :
      ((roles i ≡ mapped p) × ((frame_at s.frames i).state ≡ resident))
      ⊎ ((t : ℕ) × (roles i ≡ busy p t) × ((frame_at s.frames i).state ≡ reserved))

role-Found :
    (s : BufferPoolManager) (p i : ℕ) (f : Frame) (r : Role)
    → role_page r ≡ some p
    → Fits s i f r
    → (page_of f ≡ some p)
      × (((r ≡ mapped p) × (f.state ≡ resident))
          ⊎ ((t : ℕ) × (r ≡ busy p t) × (f.state ≡ reserved)))
role-Found s p i f vacant e h = absurd (ground arith)
role-Found s p i f (mapped q) e h = (ground arith, inl (ground arith, h.0))
role-Found s p i f (busy q t) e h = (ground arith, inr (t, ground arith, h.0))
role-Found s p i f (held t) e h = absurd (ground arith)
role-Found s p i f (full q t) e h = absurd (ground arith)

pub table-Found :
    (s : BufferPoolManager) (jobs : ℕ → Job) (roles : ℕ → Role) (p i : ℕ)
    → IsSound s jobs roles
    → frame_of s.page_table p ≡ some i
    → Found s roles p i
table-Found s jobs roles p i v h =
    let (near, page) = v.pages p i h in
    let (paged, role) = role-Found s p i (frame_at s.frames i) (roles i) page (v.frames i near) in
    record {
      inside = near;
      there = get_elem?-get_or s.frames i Frame.new near;
      paged = paged;
      role = role;
    }

-- A resident frame that stays resident with its page.
pub touch-IsSound :
    (s : BufferPoolManager) (jobs : ℕ → Job) (roles : ℕ → Role) (p i : ℕ) (f : Frame)
    (m : BufferPoolMetrics)
    → IsSound s jobs roles
    → frame_of s.page_table p ≡ some i
    → i < length s.frames
    → roles i ≡ mapped p
    → f.state ≡ resident
    → page_of f ≡ some p
    → IsSound (steady s i f s.in_flight_loads m) jobs roles
touch-IsSound s jobs roles p i f m v h near role state page =
    let same_roles : update roles i (mapped p) ≡ roles = fun_ext (λ k. ground arith) in
    let same_jobs : update jobs 0 (jobs 0) ≡ jobs = fun_ext (λ u. ground arith) in
    let s' = steady s i f s.in_flight_loads m in
    subst₂ (λ (js : ℕ → Job) (rs : ℕ → Role). IsSound s' js rs) same_jobs same_roles
      (steady-IsSound s jobs roles 0 i f (mapped p) (jobs 0) s.in_flight_loads m v near
        (inl (ground arith)) (ground arith) (ground arith) (state, page, h)
        (subst (λ (rs : ℕ → Role). JobFits s' rs 0 (jobs 0)) (sym same_roles)
          (JobFits-steady s roles i f s.in_flight_loads m 0 (jobs 0) (λ q l. l) (v.threads 0)))
        (λ u q n l. ((Awaited-of s jobs roles u q v l).1, λ d. n (v.loads u 0 q l d))))

-- A call that leaves a frame its state and its page.
abbrev pub IsTouch : (Frame → Outcome IoError Frame) → Type 0
IsTouch call = (f g : Frame) → call f ≡ ok g → (g.state ≡ f.state) × (page_of g ≡ page_of f)

pub on_frame-IsSound :
    (s : BufferPoolManager) (jobs : ℕ → Job) (roles : ℕ → Role) (p i : ℕ)
    (call : Frame → Outcome IoError Frame)
    → IsTouch call
    → roles i ≡ mapped p
    → IsSound s jobs roles
    → IsSound ((on_frame i call s).0) jobs roles
on_frame-IsSound s jobs roles p i call touch role v = elim (Option-cases (get_elem? s.frames i)) [
  | inl e ↦ let run : (on_frame i call s).0 ≡ s = ground arith in rw run v
  | inr (f, e) ↦
      let near = get_elem?-lt s.frames i f e in
      let here : frame_at s.frames i ≡ f =
        ground (arith, get_elem?-get_or s.frames i Frame.new near) in
      let fits : Fits s i f (mapped p) =
        subst₂ (λ (g : Frame) (r : Role). Fits s i g r) here role (v.frames i near) in
      elim (Outcome-cases (call f)) [
        | inl (g, c) ↦
            let run : on_frame i call s ≡ (holding s i g, ok tt) =
              on_frame-first s i call f g e c in
            let (state, page) = touch f g c in
            rw run (
              touch-IsSound s jobs roles p i g s.metrics v fits.2 near role (state ∙ fits.0)
                (page ∙ fits.1))
        | inr (inl (x, c)) ↦ let run : (on_frame i call s).0 ≡ s = ground arith in rw run v
        | inr (inr c) ↦ let run : (on_frame i call s).0 ≡ s = ground arith in rw run v
      ]
]

pub pin-IsTouch : IsTouch Frame.pin
unfolding Frame.pin
pin-IsTouch f g h = ground arith

pub unpin-IsTouch : IsTouch Frame.unpin
unfolding Frame.unpin
unpin-IsTouch f g h = ground arith

pub mark_dirty-IsTouch : IsTouch Frame.mark_dirty
unfolding Frame.mark_dirty
mark_dirty-IsTouch f g h = ground arith

pub mark_referenced-IsTouch : IsTouch Frame.mark_referenced
unfolding Frame.mark_referenced
mark_referenced-IsTouch f g h = ground arith

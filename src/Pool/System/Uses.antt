-- ===== src/Pool/System/Uses.antt =====
-- The sections that use a page that is in the pool: a hit of `fetch_page`, `unpin_page` and
-- `mark_dirty_page`.
use task_pool_concurrency_im.Prelude.{
  ℕ, ◌≡◌, inl, inr, true, false, some, Outcome, ok, err, panic, IoError, arith, Option-cases,
}
use task_pool_concurrency_im.Pool.Frame
use task_pool_concurrency_im.Pool.Frame.{Frame, PageMeta, resident, reserved, is_reserved}
use task_pool_concurrency_im.Pool.Metrics
use task_pool_concurrency_im.Pool.PageTable
use task_pool_concurrency_im.Pool.PageTable.Laws.{frame_of}
use task_pool_concurrency_im.Pool.Clock.Scan.{frame_at}
use task_pool_concurrency_im.Pool.Manager.{
  BufferPoolManager, BufferPoolError, on_frame, proceed, M, return, ◌>>◌,
}
use task_pool_concurrency_im.Pool.Manager.Fetch.{use_resident, resident_in, Decision}
use task_pool_concurrency_im.Pool.Manager.Flush.{unpin_page, mark_dirty_page}
use task_pool_concurrency_im.Pool.System.{Job, idle, decided}
use task_pool_concurrency_im.Pool.System.Invariant.{Role, IsSound}
use task_pool_concurrency_im.Pool.System.Steady.{recount-IsSound}
use task_pool_concurrency_im.Pool.System.Touch.{
  table-Found, IsTouch, on_frame-IsSound, pin-IsTouch, unpin-IsTouch, mark_dirty-IsTouch,
  mark_referenced-IsTouch,
}

module _ (s : BufferPoolManager) (jobs : ℕ → Job) (roles : ℕ → Role)
    (v : IsSound s jobs roles) where
  -- A call on the frame of a page, unless a thread has reserved the frame.
  use-IsSound :
      (p i : ℕ) (act : M (Unit {0})) (touch : Frame → Outcome IoError Frame)
      → IsTouch touch
      → frame_of s.page_table p ≡ some i
      → (is_reserved (frame_at s.frames i) ≡ true → (act s).0 ≡ s)
      → (is_reserved (frame_at s.frames i) ≡ false → act s ≡ on_frame i touch s)
      → IsSound ((act s).0) jobs roles
  unfolding is_reserved
  use-IsSound p i act touch t h busy_run free_run =
      let found = table-Found s jobs roles p i v h in
      elim found.role [
        | inl (role, state) ↦
            let run = free_run (ground arith) in
            rw run (on_frame-IsSound s jobs roles p i touch t role v)
        | inr (u, role, state) ↦ let run = busy_run (ground arith) in rw run v
      ]

  pub unpin_page-IsSound : (p : ℕ) → IsSound ((unpin_page p s).0) jobs roles
  unfolding unpin_page PageTable.get_frame_id
  unpin_page-IsSound p = elim (Option-cases (frame_of s.page_table p)) [
    | inl e ↦ let run : (unpin_page p s).0 ≡ s = ground (arith, v.table_sound) in rw run v
    | inr (i, e) ↦
        let there = (table-Found s jobs roles p i v e).there in
        use-IsSound p i (unpin_page p) Frame.unpin unpin-IsTouch e
          (λ r. ground (arith, v.table_sound)) (λ r. ground (arith, v.table_sound))
  ]

  pub mark_dirty_page-IsSound : (p : ℕ) → IsSound ((mark_dirty_page p s).0) jobs roles
  unfolding mark_dirty_page PageTable.get_frame_id
  mark_dirty_page-IsSound p = elim (Option-cases (frame_of s.page_table p)) [
    | inl e ↦ let run : (mark_dirty_page p s).0 ≡ s = ground (arith, v.table_sound) in rw run v
    | inr (i, e) ↦
        let there = (table-Found s jobs roles p i v e).there in
        use-IsSound p i (mark_dirty_page p) Frame.mark_dirty mark_dirty-IsTouch e
          (λ r. ground (arith, v.table_sound)) (λ r. ground (arith, v.table_sound))
  ]

-- One call on a frame after another.
then-IsSound :
    {A : Type 0}
    → (jobs : ℕ → Job) (roles : ℕ → Role)
      (r : BufferPoolManager × Outcome BufferPoolError (Unit {0})) (next : M A)
    → IsSound r.0 jobs roles
    → ((s : BufferPoolManager) → IsSound s jobs roles → IsSound ((next s).0) jobs roles)
    → IsSound ((proceed r (λ u. next)).0) jobs roles
then-IsSound jobs roles (s, ok u) next v k = k s v
then-IsSound jobs roles (s, err e) next v k = v
then-IsSound jobs roles (s, panic) next v k = v

pub use_resident-idle : (s : BufferPoolManager) (p i : ℕ) → decided p ((use_resident i s).1) ≡ idle
unfolding use_resident
use_resident-idle s p i = ground arith

pub hit-IsSound :
    (s : BufferPoolManager) (jobs : ℕ → Job) (roles : ℕ → Role) (p i : ℕ)
    → IsSound s jobs roles
    → frame_of s.page_table p ≡ some i
    → IsSound ((use_resident i s).0) jobs roles
unfolding use_resident is_reserved
hit-IsSound s jobs roles p i v h =
    let found = table-Found s jobs roles p i v h in
    let there = found.there in
    elim found.role [
      | inr (u, role, state) ↦ let run : (use_resident i s).0 ≡ s = ground arith in rw run v
      | inl (role, state) ↦
          let counted = record s { metrics = Metrics.record_hit s.metrics } in
          let marks : M Decision = on_frame i Frame.mark_referenced >> return (resident_in i) in
          let run : use_resident i s ≡ proceed (on_frame i Frame.pin counted) (λ u. marks) =
            ground arith in
          rw run (
            then-IsSound jobs roles (on_frame i Frame.pin counted) marks
              (on_frame-IsSound counted jobs roles p i Frame.pin pin-IsTouch role
                (recount-IsSound s jobs roles (Metrics.record_hit s.metrics) v))
              (λ s' v'.
                then-IsSound jobs roles (on_frame i Frame.mark_referenced s')
                  (return (resident_in i))
                  (on_frame-IsSound s' jobs roles p i Frame.mark_referenced mark_referenced-IsTouch
                    role v')
                  (λ s'' v''. v'')))
    ]

-- ===== src/Pool/System/Flushes.antt =====
-- A thread that writes a page back.
use task_pool_concurrency_im.Prelude.{
  ℕ, ◌<◌, ◌≡◌, ◌≢◌, inl, inr, refl, List, false, Option, none, some, Outcome, ok, panic, IoError,
  arith, length, length-set, ◌∙◌, ap, subst, get_elem?, get_elem?-set, set-set, Option-cases,
  Outcome-cases, Bool-cases,
}
use task_pool_concurrency_im.Pool.Frame
use task_pool_concurrency_im.Pool.Frame.{Frame, PageMeta, free, resident, reserved, is_pinned}
use task_pool_concurrency_im.Pool.PageTable
use task_pool_concurrency_im.Pool.Clock.Scan.{frame_at}
use task_pool_concurrency_im.Pool.PageTable.Laws.{frame_of}
use task_pool_concurrency_im.Pool.Manager.{BufferPoolManager, BufferPoolError}
use task_pool_concurrency_im.Pool.Manager.Flush.{begin_flush, finish_flush, flush_reserved_frame}
use task_pool_concurrency_im.Pool.Manager.Loads.{holding, on_frame-first, on_frame-holding}
use task_pool_concurrency_im.Pool.Manager.Writes.{with_state, cleaned, reserve_run}
use task_pool_concurrency_im.Pool.System.{Job, idle, flushing, update, flushed_job}
use task_pool_concurrency_im.Pool.System.Invariant.{Role, mapped, busy, page_of, JobFits, IsSound}
use task_pool_concurrency_im.Pool.System.Steady.{Awaited-of, same_job-IsSound}
use task_pool_concurrency_im.Pool.System.Touch.{IsConsistent, table-Found, touch-IsSound}
use task_pool_concurrency_im.Pool.System.Reserve.{busy-Owned, release-IsSound, reserve-IsSound}

pub page_meta :
    (f : Frame) (p : ℕ)
    → page_of f ≡ some p
    → (meta : PageMeta) × (f.metadata ≡ some meta) × (meta.page_id ≡ p)
page_meta f p h = elim (Option-cases f.metadata) [
  | inl e ↦ absurd (ground arith)
  | inr (meta, e) ↦ (meta, e, ground arith)
]

module _ (write_page : ℕ → List ℕ → Outcome IoError (Unit {0})) (s : BufferPoolManager)
    (jobs : ℕ → Job) (t p : ℕ) where
  stays-idle :
      (r : BufferPoolManager × Outcome BufferPoolError (Option ℕ)) (s' : BufferPoolManager)
      (roles : ℕ → Role)
      → jobs t ≡ idle
      → r.0 ≡ s'
      → flushed_job p r.1 ≡ idle
      → IsSound s' jobs roles
      → IsConsistent r.0 (update jobs t (flushed_job p r.1))
  stays-idle r s' roles rests e d v =
      (roles, rw (e, d) (same_job-IsSound s' jobs roles t idle rests v))

  pub begins_flush :
      IsConsistent s jobs
      → jobs t ≡ idle
      → IsConsistent
          ((begin_flush write_page p s).0)
          (update jobs t (flushed_job p ((begin_flush write_page p s).1)))
  unfolding begin_flush PageTable.get_frame_id Frame.is_reserved
  begins_flush (roles, v) rests = elim (Option-cases (frame_of s.page_table p)) [
    | inl e ↦
        stays-idle (begin_flush write_page p s) s roles rests (ground (arith, v.table_sound))
          (ground (arith, v.table_sound)) v
    | inr (i, e) ↦
        let found = table-Found s jobs roles p i v e in
        let f = frame_at s.frames i in
        let there = found.there in
        elim found.role [
          | inr (u, role, state) ↦
              stays-idle (begin_flush write_page p s) s roles rests (ground (arith, v.table_sound))
                (ground (arith, v.table_sound)) v
          | inl (role, state) ↦
              let g = with_state f reserved in
              let h = with_state f resident in
              let first = on_frame-first s i Frame.reserve f g there (reserve_run f state) in
              elim (Bool-cases (Frame.is_dirty f)) [
                | inl d ↦
                    let run : begin_flush write_page p s ≡ (holding s i g, ok (some i)) =
                      ground (arith, v.table_sound, first) in
                    rw run (
                      update roles i (busy p t),
                      reserve-IsSound s jobs roles p t i g (flushing p i) v found.inside role refl
                          found.paged e
                          (ground arith, omega (arith, found.inside, length-set s.frames i g))
                          (λ u q n l. ground arith),
                    )
                | inr d ↦
                    let back : Frame.set_resident g ≡ ok h = unfold Frame.set_resident in refl in
                    let second = on_frame-holding s i Frame.set_resident g h found.inside back in
                    let run : begin_flush write_page p s ≡ (holding s i h, ok none) =
                      ground (arith, v.table_sound, first, second) in
                    stays-idle (begin_flush write_page p s) (holding s i h) roles rests
                      (ap (λ r. r.0) run) (ap (λ r. flushed_job p r.1) run)
                      (touch-IsSound s jobs roles p i h s.metrics v e found.inside role refl
                        found.paged)
              ]
        ]
  ]

  -- How a frame comes out of it: resident, with its page.
  pub finish_run :
      (i : ℕ) (f : Frame) (meta : PageMeta)
      → i < length s.frames
      → get_elem? s.frames i ≡ some f
      → f.state ≡ reserved
      → f.metadata ≡ some meta
      → write_page meta.page_id f.bytes ≢ panic
      → (g : Frame) × ((finish_flush write_page i s).0 ≡ holding s i g)
        × (g.state ≡ resident)
        × (page_of g ≡ some meta.page_id)
        × (g.bytes ≡ f.bytes)
  unfolding finish_flush flush_reserved_frame Frame.is_reserved Frame.is_dirty Frame.get_page_id
      Frame.read_data Frame.clear_dirty Frame.set_resident
  finish_run i f meta near there state metadata total =
      let h = with_state f resident in
      elim (Bool-cases meta.dirty) [
        | inr d ↦ (h, ground arith, refl, ground arith, refl)
        | inl d ↦ elim (Outcome-cases (write_page meta.page_id f.bytes)) [
          | inl (u, w) ↦
              let clean : Frame = record f { metadata = some (record meta { dirty = false }) } in
              (
                cleaned f meta,
                ground (
                  arith,
                  get_elem?-set s.frames i i clean near,
                  set-set s.frames i clean (cleaned f meta),
                ),
                refl,
                refl,
                refl,
              )
          | inr (inl (x, w)) ↦ (h, ground arith, refl, ground arith, refl)
          | inr (inr w) ↦ absurd (total w)
        ]
      ]

  pub finishes_flush :
      (i : ℕ)
      → IsConsistent s jobs
      → jobs t ≡ flushing p i
      → ((q : ℕ) (bytes : List ℕ) → write_page q bytes ≢ panic)
      → IsConsistent ((finish_flush write_page i s).0) (update jobs t idle)
  finishes_flush i (roles, v) job total =
      let fits : JobFits s roles t (flushing p i) = subst (JobFits s roles t) job (v.threads t) in
      let own = busy-Owned s jobs roles p t i v fits.1 fits.0 in
      let f = frame_at s.frames i in
      let (meta, metadata, same) = page_meta f p own.paged in
      let (g, run, state, paged, _) =
        finish_run i f meta fits.1 own.there own.state metadata (total meta.page_id f.bytes) in
      (
        update roles i (mapped p),
        rw run (
            release-IsSound s jobs roles p t i g s.in_flight_loads s.metrics v fits.1 fits.0 state
              (paged ∙ ap some same) (λ u q n l. (Awaited-of s jobs roles u q v l).1)),
      )

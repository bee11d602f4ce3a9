-- ===== src/Pool/System/Deletes.antt =====
-- A thread that deletes a page.
use task_pool_concurrency_im.Prelude.{
  ℕ, ◌<◌, ◌≡◌, inl, inr, refl, List, Option, none, some, Outcome, ok, IoError, arith, length,
  length-set, subst, get_elem?, set-get_elem?, Option-cases, Bool-cases,
}
use task_pool_concurrency_im.Pool.Frame
use task_pool_concurrency_im.Pool.Frame.{Frame, PageMeta, free, resident, reserved}
use task_pool_concurrency_im.Pool.PageTable
use task_pool_concurrency_im.Pool.Clock.Scan.{frame_at}
use task_pool_concurrency_im.Pool.PageTable.Laws.{frame_of}
use task_pool_concurrency_im.Pool.Manager.{BufferPoolManager, BufferPoolError}
use task_pool_concurrency_im.Pool.Manager.Flush.{begin_delete, finish_delete, flush_reserved_frame}
use task_pool_concurrency_im.Pool.Manager.Loads.{holding, on_frame-first}
use task_pool_concurrency_im.Pool.Manager.Writes.{with_state, flushed, reserve_run}
use task_pool_concurrency_im.Pool.Manager.Deletes.{deleted, forget_run}
use task_pool_concurrency_im.Pool.System.{Job, idle, deleting, update, deleted_job}
use task_pool_concurrency_im.Pool.System.Invariant.{Role, vacant, busy, JobFits, IsSound}
use task_pool_concurrency_im.Pool.System.Steady.{same_job-IsSound}
use task_pool_concurrency_im.Pool.System.Touch.{IsConsistent, table-Found}
use task_pool_concurrency_im.Pool.System.Reserve.{busy-Owned, reserve-IsSound}
use task_pool_concurrency_im.Pool.System.Table.{forget-IsSound}
use task_pool_concurrency_im.Pool.System.Flushes.{page_meta}

new_frame-free : Frame.new.state ≡ free
unfolding Frame.new
new_frame-free = refl

module _ (write_page : ℕ → List ℕ → Outcome IoError (Unit {0})) (s : BufferPoolManager)
    (jobs : ℕ → Job) (t p : ℕ) where
  stays-idle :
      (r : BufferPoolManager × Outcome BufferPoolError (Option ℕ)) (s' : BufferPoolManager)
      (roles : ℕ → Role)
      → jobs t ≡ idle
      → r.0 ≡ s'
      → deleted_job p r.1 ≡ idle
      → IsSound s' jobs roles
      → IsConsistent r.0 (update jobs t (deleted_job p r.1))
  stays-idle r s' roles rests e d v =
      (roles, rw (e, d) (same_job-IsSound s' jobs roles t idle rests v))

  pub begins_delete :
      IsConsistent s jobs
      → jobs t ≡ idle
      → IsConsistent
          ((begin_delete write_page p s).0)
          (update jobs t (deleted_job p ((begin_delete write_page p s).1)))
  unfolding begin_delete PageTable.get_frame_id Frame.is_reserved
  begins_delete (roles, v) rests = elim (Option-cases (frame_of s.page_table p)) [
    | inl e ↦
        stays-idle (begin_delete write_page p s) s roles rests (ground (arith, v.table_sound))
          (ground (arith, v.table_sound)) v
    | inr (i, e) ↦
        let found = table-Found s jobs roles p i v e in
        let f = frame_at s.frames i in
        let there = found.there in
        elim found.role [
          | inr (u, role, state) ↦
              stays-idle (begin_delete write_page p s) s roles rests (ground (arith, v.table_sound))
                (ground (arith, v.table_sound)) v
          | inl (role, state) ↦
              let g = with_state f reserved in
              let first = on_frame-first s i Frame.reserve f g there (reserve_run f state) in
              elim (Bool-cases (Frame.is_pinned f)) [
                | inl d ↦
                    stays-idle (begin_delete write_page p s) s roles rests
                      (ground (arith, v.table_sound)) (ground (arith, v.table_sound)) v
                | inr c ↦ elim (Bool-cases (Frame.is_dirty f)) [
                  | inl d ↦
                      let run : begin_delete write_page p s ≡ (holding s i g, ok (some i)) =
                        ground (arith, v.table_sound, first) in
                      rw run (
                        update roles i (busy p t),
                        reserve-IsSound s jobs roles p t i g (deleting p i) v found.inside role refl
                            found.paged e
                            (ground arith, omega (arith, found.inside, length-set s.frames i g))
                            (λ u q n l. ground arith),
                      )
                  | inr d ↦
                      let second =
                        forget_run write_page s p i g v.table_sound v.queue_sound found.inside in
                      let run : begin_delete write_page p s ≡ (deleted s p i, ok none) =
                        ground (arith, v.table_sound, first, second) in
                      rw run (
                        update roles i vacant,
                        forget-IsSound s jobs roles t p i Frame.new v e (inl (ground arith))
                            new_frame-free,
                      )
                ]
              ]
        ]
  ]

  -- The disk takes the page, if it is dirty.
  pub finish_run :
      (i : ℕ) (f : Frame) (meta : PageMeta)
      → i < length s.frames
      → get_elem? s.frames i ≡ some f
      → f.state ≡ reserved
      → f.metadata ≡ some meta
      → write_page meta.page_id f.bytes ≡ ok tt
      → (g : Frame) × (flush_reserved_frame write_page i s ≡ (holding s i g, ok tt))
  unfolding flush_reserved_frame Frame.is_reserved Frame.is_dirty Frame.get_page_id Frame.read_data
      Frame.clear_dirty
  finish_run i f meta near there state metadata w = elim (Bool-cases meta.dirty) [
    | inr d ↦ (f, ground (arith, set-get_elem? s.frames i f there))
    | inl d ↦ (flushed f meta, ground arith)
  ]

  pub finishes_delete :
      (i : ℕ)
      → IsConsistent s jobs
      → jobs t ≡ deleting p i
      → ((q : ℕ) (bytes : List ℕ) → write_page q bytes ≡ ok tt)
      → IsConsistent ((finish_delete write_page p i s).0) (update jobs t idle)
  unfolding finish_delete
  finishes_delete i (roles, v) job takes =
      let fits : JobFits s roles t (deleting p i) = subst (JobFits s roles t) job (v.threads t) in
      let own = busy-Owned s jobs roles p t i v fits.1 fits.0 in
      let f = frame_at s.frames i in
      let (meta, metadata, same) = page_meta f p own.paged in
      let (g, first) =
        finish_run i f meta fits.1 own.there own.state metadata (takes meta.page_id f.bytes) in
      let second = forget_run write_page s p i g v.table_sound v.queue_sound fits.1 in
      let run : finish_delete write_page p i s ≡ (deleted s p i, ok tt) = rw (first, second) refl in
      (
        update roles i vacant,
        rw run (
            forget-IsSound s jobs roles t p i Frame.new v own.tabled (inr (ground arith))
              new_frame-free),
      )

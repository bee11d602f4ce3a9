-- ===== src/Pool/Manager/Deletes.antt =====
-- What deleting a page does, on each of its branches.
use task_pool_concurrency_im.Prelude.{
  Bool, ℕ, ◌<◌, ◌≡◌, ◌≢◌, inl, inr, refl, List, ◌++◌, ◌∷◌, [], true, false, some, Outcome, ok, err,
  panic, IoError, arith, length, get_elem?, get_elem?-lt, Bool-cases, Outcome-cases, ltb,
}
use task_pool_concurrency_im.Prelude.Maps.{remove}
use task_pool_concurrency_im.Pool.Frame
use task_pool_concurrency_im.Pool.Frame.{Frame, PageMeta, resident, reserved, zero_page}
use task_pool_concurrency_im.Pool.PageTable
use task_pool_concurrency_im.Pool.FreeFrames
use task_pool_concurrency_im.Pool.Manager.{
  BufferPoolManager, BufferPoolError, disk_error, page_pinned, M, ◌or_else◌, on_frame,
}
use task_pool_concurrency_im.Pool.Manager.Flush.{
  delete_page, begin_delete, finish_delete, forget_page, flush_reserved_frame,
}
use task_pool_concurrency_im.Pool.Manager.Loads.{holding, on_frame-first, on_frame-holding}
use task_pool_concurrency_im.Pool.Manager.Writes.{
  IsResident, with_state, flushed, reserve_run, flush_reserved-ok, flush_reserved-err,
}

-- The page is out of the table, and its frame is empty and last in the queue of free frames.
abbrev pub deleted : BufferPoolManager → ℕ → ℕ → BufferPoolManager
deleted s page_id frame_id = record (holding s frame_id Frame.new) {
  page_table = record { poisoned = false; guarded = remove s.page_table.guarded page_id };
  free_frames = record { poisoned = false; guarded = s.free_frames.guarded ++ frame_id ∷ [] };
}

-- The ways to delete a resident page: it is pinned; it goes, clean or written; or the disk refuses it.
pub data Deleted (write_page : ℕ → List ℕ → Outcome IoError (Unit {0})) (s : BufferPoolManager)
    (page_id frame_id : ℕ) (f : Frame) (meta : PageMeta)
    : BufferPoolManager × Outcome BufferPoolError (Unit {0}) → Type 0 where
  held :
      0 < meta.pin_count
      → Deleted write_page s page_id frame_id f meta (s, err (page_pinned page_id))
  gone :
      meta.pin_count ≡ 0
      → (meta.dirty ≡ true → write_page meta.page_id f.bytes ≡ ok tt)
      → Deleted write_page s page_id frame_id f meta (deleted s page_id frame_id, ok tt)
  refused :
      (e : IoError)
      → meta.pin_count ≡ 0
      → meta.dirty ≡ true
      → write_page meta.page_id f.bytes ≡ err e
      → Deleted write_page s page_id frame_id f meta (holding s frame_id f, err (disk_error e))

pub forget_run :
    (write_page : ℕ → List ℕ → Outcome IoError (Unit {0})) (s : BufferPoolManager)
    (page_id frame_id : ℕ) (f : Frame)
    → s.page_table.poisoned ≡ false
    → s.free_frames.poisoned ≡ false
    → frame_id < length s.frames
    → forget_page write_page page_id frame_id (holding s frame_id f)
      ≡ (deleted s page_id frame_id, ok tt)
unfolding PageTable.remove_page FreeFrames.add_frame
forget_run write_page s page_id frame_id f p q near =
    let less = record s {
      page_table = record { poisoned = false; guarded = remove s.page_table.guarded page_id };
    } in
    let emptied : Frame.reset f ≡ ok Frame.new =
      unfold Frame.reset Frame.set_free Frame.new in refl in
    ground (arith, on_frame-holding less frame_id Frame.reset f Frame.new near emptied)

refused_run :
    (write_page : ℕ → List ℕ → Outcome IoError (Unit {0})) (s : BufferPoolManager) (frame_id : ℕ)
    (f : Frame) (meta : PageMeta) (e : IoError)
    → frame_id < length s.frames
    → get_elem? s.frames frame_id ≡ some f
    → f.metadata ≡ some meta
    → meta.dirty ≡ true
    → write_page meta.page_id f.bytes ≡ err e
    → (flush_reserved_frame write_page frame_id or_else on_frame frame_id Frame.set_resident)
        (holding s frame_id (with_state f reserved))
      ≡ (holding s frame_id (with_state f resident), err (disk_error e))
unfolding Frame.set_resident
refused_run write_page s frame_id f meta e near h m d w =
    let back = with_state f resident in
    rw
      (
        flush_reserved-err write_page s frame_id f meta e h m d w,
        on_frame-holding s frame_id Frame.set_resident back back near refl,
      )
      refl

-- From where the frame of the page is reserved.
delete_reserved : (ℕ → List ℕ → Outcome IoError (Unit {0})) → ℕ → ℕ → Bool → M (Unit {0})
delete_reserved write_page page_id frame_id true = finish_delete write_page page_id frame_id
delete_reserved write_page page_id frame_id false = forget_page write_page page_id frame_id

-- Up to there.
delete_page_run :
    (write_page : ℕ → List ℕ → Outcome IoError (Unit {0})) (s : BufferPoolManager)
    (page_id frame_id : ℕ) (f : Frame) (meta : PageMeta)
    → IsResident s page_id frame_id f meta
    → meta.pin_count ≡ 0
    → delete_page write_page page_id s
      ≡ delete_reserved write_page page_id frame_id meta.dirty
          (holding s frame_id (with_state f reserved))
unfolding delete_page begin_delete delete_reserved PageTable.get_frame_id Frame.is_reserved
    Frame.is_dirty Frame.is_pinned
delete_page_run write_page s page_id frame_id f meta r z = ground (
  arith,
  r.sound,
  r.mapped,
  r.in_frame,
  r.at_rest,
  r.owned,
  on_frame-first s frame_id Frame.reserve f _ r.in_frame (reserve_run f r.at_rest),
)

-- Deleting a resident page of a pool with sound locks: a pinned page stays, with an error. Any other is
-- written first when it is dirty; when the disk refuses it, it stays as it was, with the error;
-- otherwise it leaves the table, and its emptied frame joins the free frames.
pub delete_page-Deleted :
    (write_page : ℕ → List ℕ → Outcome IoError (Unit {0})) (s : BufferPoolManager)
    (page_id frame_id : ℕ) (f : Frame) (meta : PageMeta)
    → IsResident s page_id frame_id f meta
    → s.free_frames.poisoned ≡ false
    → write_page meta.page_id f.bytes ≢ panic
    → Deleted write_page s page_id frame_id f meta (delete_page write_page page_id s)
unfolding delete_page begin_delete delete_reserved finish_delete PageTable.get_frame_id
    Frame.is_pinned
delete_page-Deleted write_page s page_id frame_id f meta r free total =
    let near = get_elem?-lt s.frames frame_id f r.in_frame in
    elim (Bool-cases (ltb 0 meta.pin_count)) [
      | inl p ↦
          let run : delete_page write_page page_id s ≡ (s, err (page_pinned page_id)) =
            ground (arith, r.sound, r.mapped, r.in_frame, r.owned) in
          rw run (held (ground arith))
      | inr p ↦
          let z : meta.pin_count ≡ 0 = ground arith in
          let begun = delete_page_run write_page s page_id frame_id f meta r z in
          elim (Bool-cases meta.dirty) [
            | inr d ↦
                let run : delete_page write_page page_id s ≡ (deleted s page_id frame_id, ok tt) =
                  rw
                    (
                      begun,
                      d,
                      forget_run write_page s page_id frame_id (with_state f reserved) r.sound free
                          near,
                    )
                    refl in
                rw run (gone z (λ e. ground arith))
            | inl d ↦ elim (Outcome-cases (write_page meta.page_id f.bytes)) [
              | inl (u, w) ↦
                  let run : delete_page write_page page_id s ≡ (deleted s page_id frame_id, ok tt) =
                    rw
                      (
                        begun,
                        d,
                        flush_reserved-ok write_page s frame_id f meta r.in_frame r.owned d w,
                        forget_run write_page s page_id frame_id (flushed f meta) r.sound free near,
                      )
                      refl in
                  rw run (gone z (λ e. w))
              | inr (inl (e, w)) ↦
                  let back = with_state f resident in
                  let same : back ≡ f = ground (arith, r.at_rest) in
                  let run : delete_page write_page page_id s
                      ≡ (holding s frame_id back, err (disk_error e)) =
                    rw
                      (
                        begun,
                        d,
                        refused_run write_page s frame_id f meta e near r.in_frame r.owned d w,
                      )
                      refl in
                  rw (run, same) (refused e z d w)
              | inr (inr w) ↦ absurd (total w)
            ]
          ]
    ]

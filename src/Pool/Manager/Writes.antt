-- ===== src/Pool/Manager/Writes.antt =====
-- What writing a page back and deleting it do, whether or not the disk takes the page.
use task_pool_concurrency_im.Prelude.{
  ℕ, ◌≡◌, ◌≢◌, inl, inr, refl, List, true, false, some, Outcome, ok, err, IoError, arith, get_elem?,
  get_elem?-set, get_elem?-lt, Bool-cases, Outcome-cases, panic, set-set,
}
use task_pool_concurrency_im.Pool.Frame
use task_pool_concurrency_im.Pool.Frame.{Frame, PageMeta, resident, reserved, free, zero_page}
use task_pool_concurrency_im.Pool.PageTable
use task_pool_concurrency_im.Pool.PageTable.Laws.{frame_of}
use task_pool_concurrency_im.Pool.Manager.{BufferPoolManager, BufferPoolError, disk_error}
use task_pool_concurrency_im.Pool.Manager.Flush.{
  flush_page, begin_flush, finish_flush, flush_reserved_frame,
}
use task_pool_concurrency_im.Pool.Manager.Loads.{holding, on_frame-first, on_frame-holding}

-- The page is in the frame, which is resident, and the table knows it.
pub record IsResident (s : BufferPoolManager) (page_id frame_id : ℕ) (f : Frame) (meta : PageMeta)
    : Type 0 where
  pub sound : s.page_table.poisoned ≡ false
  pub mapped : frame_of s.page_table page_id ≡ some frame_id
  pub in_frame : get_elem? s.frames frame_id ≡ some f
  pub at_rest : f.state ≡ resident
  pub owned : f.metadata ≡ some meta

abbrev pub with_state : Frame → Frame.FrameState → Frame
with_state f state = record f { state = state }

abbrev pub cleaned : Frame → PageMeta → Frame
cleaned f meta = record f { metadata = some (record meta { dirty = false }); state = resident }

abbrev pub flushed : Frame → PageMeta → Frame
flushed f meta = record f { metadata = some (record meta { dirty = false }); state = reserved }

-- `flush_reserved_frame` on a dirty frame, by how the write ends.
pub flush_reserved-ok :
    (write_page : ℕ → List ℕ → Outcome IoError (Unit {0})) (s : BufferPoolManager) (frame_id : ℕ)
    (f : Frame) (meta : PageMeta)
    → get_elem? s.frames frame_id ≡ some f
    → f.metadata ≡ some meta
    → meta.dirty ≡ true
    → write_page meta.page_id f.bytes ≡ ok tt
    → flush_reserved_frame write_page frame_id (holding s frame_id (with_state f reserved))
      ≡ (holding s frame_id (flushed f meta), ok tt)
unfolding flush_reserved_frame Frame.is_reserved Frame.is_dirty Frame.get_page_id Frame.read_data
    Frame.clear_dirty
flush_reserved-ok write_page s frame_id f meta h m d w = ground (
  arith,
  get_elem?-set s.frames frame_id frame_id (with_state f reserved)
      (get_elem?-lt s.frames frame_id f h),
  set-set s.frames frame_id (with_state f reserved) (flushed f meta),
)

pub flush_reserved-err :
    (write_page : ℕ → List ℕ → Outcome IoError (Unit {0})) (s : BufferPoolManager) (frame_id : ℕ)
    (f : Frame) (meta : PageMeta) (e : IoError)
    → get_elem? s.frames frame_id ≡ some f
    → f.metadata ≡ some meta
    → meta.dirty ≡ true
    → write_page meta.page_id f.bytes ≡ err e
    → flush_reserved_frame write_page frame_id (holding s frame_id (with_state f reserved))
      ≡ (holding s frame_id (with_state f resident), err (disk_error e))
unfolding flush_reserved_frame Frame.is_reserved Frame.is_dirty Frame.get_page_id Frame.read_data
    Frame.set_resident
flush_reserved-err write_page s frame_id f meta e h m d w = ground (
  arith,
  get_elem?-set s.frames frame_id frame_id (with_state f reserved)
      (get_elem?-lt s.frames frame_id f h),
  set-set s.frames frame_id (with_state f reserved) (with_state f resident),
)

pub reserve_run : (f : Frame) → f.state ≡ resident → Frame.reserve f ≡ ok (with_state f reserved)
unfolding Frame.reserve
reserve_run f h = ground arith

-- The ways to write a resident page back: it is clean, the disk takes it, or the disk refuses it.
pub data Flushed (write_page : ℕ → List ℕ → Outcome IoError (Unit {0})) (s : BufferPoolManager)
    (frame_id : ℕ) (f : Frame) (meta : PageMeta)
    : BufferPoolManager × Outcome BufferPoolError (Unit {0}) → Type 0 where
  clean : meta.dirty ≡ false → Flushed write_page s frame_id f meta (holding s frame_id f, ok tt)
  written :
      meta.dirty ≡ true
      → write_page meta.page_id f.bytes ≡ ok tt
      → Flushed write_page s frame_id f meta (holding s frame_id (cleaned f meta), ok tt)
  refused :
      (e : IoError)
      → meta.dirty ≡ true
      → write_page meta.page_id f.bytes ≡ err e
      → Flushed write_page s frame_id f meta (holding s frame_id f, err (disk_error e))

-- Writing a resident page back: a clean page is not written, a dirty page that the disk takes is clean
-- afterwards, and one that the disk refuses stays dirty, with the error. The bytes, the pins and the
-- rest of the pool stay, and the frame is resident on every branch.
pub flush_page-Flushed :
    (write_page : ℕ → List ℕ → Outcome IoError (Unit {0})) (s : BufferPoolManager)
    (page_id frame_id : ℕ) (f : Frame) (meta : PageMeta)
    → IsResident s page_id frame_id f meta
    → write_page meta.page_id f.bytes ≢ panic
    → Flushed write_page s frame_id f meta (flush_page write_page page_id s)
unfolding flush_page begin_flush finish_flush PageTable.get_frame_id Frame.is_reserved
    Frame.is_dirty Frame.set_resident
flush_page-Flushed write_page s page_id frame_id f meta r total =
    let near = get_elem?-lt s.frames frame_id f r.in_frame in
    let first = on_frame-first s frame_id Frame.reserve f _ r.in_frame (reserve_run f r.at_rest) in
    elim (Bool-cases meta.dirty) [
      | inr d ↦
          let run : flush_page write_page page_id s ≡ (holding s frame_id f, ok tt) = ground (
            arith,
            r.sound,
            r.mapped,
            r.in_frame,
            r.at_rest,
            r.owned,
            first,
            on_frame-holding s frame_id Frame.set_resident (with_state f reserved) f near
                (ground arith),
          ) in
          rw run (clean d)
      | inl d ↦ elim (Outcome-cases (write_page meta.page_id f.bytes)) [
        | inl (u, w) ↦
            let run : flush_page write_page page_id s
                ≡ (holding s frame_id (cleaned f meta), ok tt) =
              ground (
                arith,
                r.sound,
                r.mapped,
                r.in_frame,
                r.at_rest,
                r.owned,
                first,
                flush_reserved-ok write_page s frame_id f meta r.in_frame r.owned d w,
                on_frame-holding s frame_id Frame.set_resident (flushed f meta) (cleaned f meta)
                    near refl,
              ) in
            rw run (written d w)
        | inr (inl (e, w)) ↦
            let run : flush_page write_page page_id s ≡ (holding s frame_id f, err (disk_error e)) =
              ground (
                arith,
                r.sound,
                r.mapped,
                r.in_frame,
                r.at_rest,
                r.owned,
                first,
                flush_reserved-err write_page s frame_id f meta e r.in_frame r.owned d w,
              ) in
            rw run (refused e d w)
        | inr (inr w) ↦ absurd (total w)
      ]
    ]

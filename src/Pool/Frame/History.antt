-- ===== src/Pool/Frame/History.antt =====
-- src/storage/buffer_pool/frame.rs: any sequence of calls on a frame, beside what the disk is left with.
use task_pool_concurrency_im.Prelude.{
  ℕ, ◌≡◌, ◌≤◌, ◌⊎◌, inl, inr, List, [], ◌∷◌, true, Option, none, some, Outcome, ok, err, panic,
  arith, sym, subst, IoError, length, length-replicate, page_size, Option-cases, ◌==◌,
  if◌then◌else◌,
}
use task_pool_concurrency_im.Pool.Frame.{
  Frame, FrameState, PageMeta, zero_page, new, load_page, modify_data, read_data, mark_dirty,
  clear_dirty, pin, unpin, mark_referenced, mark_unreferenced, reserve, set_free, set_resident,
  reset,
}

-- The calls that change a frame. The manager calls `clear_dirty` when the disk has taken the bytes.
pub data Call : Type 0 where
  loads : ℕ → List ℕ → Call
  modifies : List ℕ → Call
  marks cleans pins unpins references unreferences reserves frees settles resets : Call

-- The frame that a call leaves, which is the old one after an error.
abbrev left : Frame → Outcome IoError Frame → Frame
left f (ok g) = g
left f (err e) = f
left f panic = f

unfoldable pub call : Frame → Call → Frame
call f (loads page_id bytes) = left f (load_page f page_id bytes)
call f (modifies bytes) = (modify_data f bytes).0
call f marks = left f (mark_dirty f)
call f cleans = left f (clear_dirty f)
call f pins = left f (pin f)
call f unpins = left f (unpin f)
call f references = left f (mark_referenced f)
call f unreferences = left f (mark_unreferenced f)
call f reserves = left f (reserve f)
call f frees = left f (set_free f)
call f settles = left f (set_resident f)
call f resets = left f (reset f)

-- The bytes that the disk has for the frame's page after the call: those that were read from it, where
-- a whole page is loaded, those of the frame, where it has been written, and else those from before.
unfoldable pub on_disk : Frame → List ℕ → Call → List ℕ
on_disk f disk (loads page_id bytes) = if length bytes == page_size then bytes else disk
on_disk f disk cleans = read_data f
on_disk f disk _ = disk

-- The frame after the calls, and the bytes that the disk has for its page.
unfoldable pub run_from : Frame → List ℕ → List Call → Frame × List ℕ
run_from f disk [] = (f, disk)
run_from f disk (c ∷ cs) = run_from (call f c) (on_disk f disk c) cs

-- A page has at most 255 pins, and unless it is dirty its bytes are those that the disk has.
pub IsBacked : Option PageMeta → List ℕ → List ℕ → Type 0
IsBacked none bytes disk = Unit
IsBacked (some meta) bytes disk = (meta.pin_count ≤ 255) × ((meta.dirty ≡ true) ⊎ (bytes ≡ disk))

-- The frame holds a whole page of bytes.
pub record IsKept (f : Frame) (disk : List ℕ) : Type 0 where
  pub sized : length f.bytes ≡ page_size
  pub backed : IsBacked f.metadata f.bytes disk

zero_page-length : length zero_page ≡ page_size
unfolding zero_page
zero_page-length = length-replicate page_size 0

abbrev frame : List ℕ → Option PageMeta → FrameState → Frame
frame bytes metadata state = record { bytes = bytes; metadata = metadata; state = state }

-- What a call makes of a frame and of what the disk has.
abbrev Keeps : Frame → List ℕ → Call → Type 0
Keeps f disk c = IsKept (call f c) (on_disk f disk c)

call_empty :
    (bytes : List ℕ) (state : FrameState) (disk : List ℕ) (c : Call)
    → length bytes ≡ page_size
    → Keeps (frame bytes none state) disk c
unfolding call on_disk IsBacked read_data load_page modify_data mark_dirty clear_dirty pin unpin
    mark_referenced mark_unreferenced reserve set_free set_resident reset
call_empty bytes state disk (loads page_id new_bytes) k = ground arith
call_empty bytes state disk (modifies new_bytes) k = ground arith
call_empty bytes state disk resets k = ground (arith, zero_page-length)
call_empty bytes state disk _ k = ground arith

call_owned :
    (bytes : List ℕ) (meta : PageMeta) (state : FrameState) (disk : List ℕ) (c : Call)
    → length bytes ≡ page_size
    → meta.pin_count ≤ 255
    → (meta.dirty ≡ true) ⊎ (bytes ≡ disk)
    → Keeps (frame bytes (some meta) state) disk c
unfolding call on_disk IsBacked read_data load_page modify_data mark_dirty clear_dirty pin unpin
    mark_referenced mark_unreferenced reserve set_free set_resident reset
call_owned bytes meta state disk (loads page_id new_bytes) k p b = ground arith
call_owned bytes meta state disk (modifies new_bytes) k p b = ground arith
call_owned bytes meta state disk resets k p b = ground (arith, zero_page-length)
call_owned bytes meta state disk _ k p b = ground arith

call-IsKept : (f : Frame) (disk : List ℕ) (c : Call) → IsKept f disk → Keeps f disk c
unfolding IsBacked
call-IsKept f disk c k = elim (Option-cases f.metadata) [
  | inl e ↦
      subst (λ (m : Option PageMeta). Keeps (frame f.bytes m f.state) disk c) (sym e)
        (call_empty f.bytes f.state disk c k.sized)
  | inr (meta, e) ↦
      let b = subst (λ (m : Option PageMeta). IsBacked m f.bytes disk) e k.backed in
      subst (λ (m : Option PageMeta). Keeps (frame f.bytes m f.state) disk c) (sym e)
        (call_owned f.bytes meta f.state disk c k.sized b.0 b.1)
]

run_from-IsKept :
    (cs : List Call) (f : Frame) (disk : List ℕ)
    → IsKept f disk
    → let (g, kept) = run_from f disk cs in IsKept g kept
unfolding run_from
run_from-IsKept [] f disk k = k
run_from-IsKept (c ∷ cs) f disk k =
    run_from-IsKept cs (call f c) (on_disk f disk c) (call-IsKept f disk c k)

-- After any sequence of calls on a new frame, those that are errors included, the frame holds exactly a
-- page of bytes; and where it has a page, that has at most 255 pins, and is dirty unless the frame's
-- bytes are those that the disk has, when `load_page` is given what the disk has, and `clear_dirty` is
-- called when the disk has taken the frame's bytes.
pub run_from-new :
    (cs : List Call) (disk : List ℕ) → let (f, kept) = run_from new disk cs in IsKept f kept
unfolding new IsBacked
run_from-new cs disk =
    run_from-IsKept cs new disk (record { sized = zero_page-length; backed = tt })

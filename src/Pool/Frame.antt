-- ===== src/Pool/Frame.antt =====
-- src/storage/buffer_pool/frame.rs: a frame of memory, what it holds, and its pin count. A method
-- that changes the frame returns the new one; where it returns an error the frame is unchanged, but
-- for `modify_data`, which returns both.
pub mod History
pub mod Laws
pub mod Pinning
mod Tests
use task_pool_concurrency_im.Prelude.{
  ℕ, zero, suc, ◌+◌, ◌-◌, min, List, Bool, true, false, not, Option, none, some, Outcome, ok, err,
  panic, IoError, invalid_data, not_found, other, ltb, ◌==◌, if◌then◌else◌, guard, ◌>>=◌, ◌>>◌,
  length, replicate, page_size,
}

pub record PageMeta : Type 0 where
  pub page_id : ℕ
  pub pin_count : ℕ
  pub dirty : Bool
  pub reference : Bool

pub data FrameState : Type 0 where
  free reserved resident : FrameState

pub record Frame : Type 0 where
  pub bytes : List ℕ
  pub metadata : Option PageMeta
  pub state : FrameState

abbrev pub state_eq : FrameState → FrameState → Bool
state_eq free free = true
state_eq reserved reserved = true
state_eq resident resident = true
state_eq _ _ = false

-- A page of zeros.
unfoldable pub zero_page : List ℕ
zero_page = replicate page_size 0

unfoldable pub new : Frame
new = record { bytes = zero_page; metadata = none; state = free }

unfoldable pub is_free : Frame → Bool
is_free f = state_eq f.state free

unfoldable pub set_free : Frame → Outcome IoError Frame
set_free f = ok (record f { state = free })

unfoldable pub is_resident : Frame → Bool
is_resident f = state_eq f.state resident

unfoldable pub set_resident : Frame → Outcome IoError Frame
set_resident f = ok (record f { state = resident })

unfoldable pub is_reserved : Frame → Bool
is_reserved f = state_eq f.state reserved

unfoldable pub reserve : Frame → Outcome IoError Frame
reserve f =
    if not (state_eq f.state reserved) then ok (record f { state = reserved }) else err other

unfoldable pub load_page : Frame → ℕ → List ℕ → Outcome IoError Frame
unfolding set_resident
load_page f page_id bytes =
    if not (length bytes == page_size)
    then err invalid_data
    else set_resident (record f {
      bytes = bytes;
      metadata =
          some (record { page_id = page_id; pin_count = 0; dirty = false; reference = false });
    })

unfoldable pub read_data : Frame → List ℕ
read_data f = f.bytes

-- What `if let Some(meta) = self.metadata.as_mut()` does, with its error.
abbrev pub with_meta : Frame → (PageMeta → Outcome IoError PageMeta) → Outcome IoError Frame
with_meta f change = elim f.metadata [
  | none ↦ err not_found
  | some meta ↦ change meta >>= λ changed. ok (record f { metadata = some changed })
]

unfoldable pub mark_dirty : Frame → Outcome IoError Frame
mark_dirty f = with_meta f (λ meta. ok (record meta { dirty = true }))

-- The bytes are copied before the page is looked up, so a frame without a page keeps the new bytes
-- and reports an error.
unfoldable pub modify_data : Frame → List ℕ → Frame × Outcome IoError (Unit {0})
unfolding mark_dirty
modify_data f bytes =
    if not (length bytes == page_size)
    then (f, err invalid_data)
    else let copied = record f { bytes = bytes } in
      elim (mark_dirty copied) [
        | ok marked ↦ (marked, ok tt)
        | err e ↦ (copied, err e)
        | panic ↦ (copied, panic)
      ]

-- `saturating_add` on a `u8`.
unfoldable pub pin : Frame → Outcome IoError Frame
pin f = with_meta f (λ meta. ok (record meta { pin_count = min (meta.pin_count + 1) 255 }))

unfoldable pub unpin : Frame → Outcome IoError Frame
unpin f = with_meta f (λ meta.
    if ltb 0 meta.pin_count then ok (record meta { pin_count = meta.pin_count - 1 }) else err other)

unfoldable pub clear_dirty : Frame → Outcome IoError Frame
clear_dirty f = with_meta f (λ meta. ok (record meta { dirty = false }))

unfoldable pub mark_referenced : Frame → Outcome IoError Frame
mark_referenced f = with_meta f (λ meta. ok (record meta { reference = true }))

unfoldable pub mark_unreferenced : Frame → Outcome IoError Frame
mark_unreferenced f = with_meta f (λ meta. ok (record meta { reference = false }))

unfoldable pub get_page_id : Frame → Outcome IoError ℕ
get_page_id f = elim f.metadata [ none ↦ err not_found | some meta ↦ ok meta.page_id ]

unfoldable pub is_dirty : Frame → Bool
is_dirty f = elim f.metadata [ none ↦ false | some meta ↦ meta.dirty ]

unfoldable pub is_referenced : Frame → Bool
is_referenced f = elim f.metadata [ none ↦ false | some meta ↦ meta.reference ]

unfoldable pub is_pinned : Frame → Bool
is_pinned f = elim f.metadata [ none ↦ false | some meta ↦ ltb 0 meta.pin_count ]

unfoldable pub reset : Frame → Outcome IoError Frame
unfolding set_free
reset f = set_free (record f { bytes = zero_page; metadata = none })

-- ===== src/Page.antt =====
-- src/storage/page/slotted_page.rs: a page of 4096 bytes with a slot directory that grows from the
-- header and records that grow from the end. Slices out of range and overflows of `u16` panic.
pub mod Bytes
pub mod Records
pub mod Writes
pub mod Insert
pub mod Slot
pub mod Delete
pub mod Moving
pub mod Compact
pub mod Fuzz
mod Tests
use task_pool_concurrency_im.Prelude.{
  ℕ, zero, suc, ◌+◌, ◌-◌, ◌*◌, ◌/◌, ◌%◌, List, [], ◌∷◌, Bool, Outcome, ok, err, IoError,
  invalid_input, other, ◌>>=◌, ◌>>◌, assert, ltb, leb, ◌==◌, if◌then◌else◌, length, get_or, set,
  replicate, page_size, u16_mod,
}

abbrev pub header_size : ℕ
header_size = 4

abbrev pub slot_size : ℕ
slot_size = 4

abbrev pub max_available_slotted_page_space : ℕ
max_available_slotted_page_space = page_size - header_size

pub record SlottedPage : Type 0 where
  pub bytes : List ℕ

-- `bytes[start..start + n]`.
unfoldable pub slice : List ℕ → ℕ → ℕ → List ℕ
slice bytes start zero = []
slice bytes start (suc n) = get_or bytes start 0 ∷ slice bytes (suc start) n

-- `bytes[start..start + source.len()].copy_from_slice(source)`.
unfoldable pub copy_into : List ℕ → ℕ → List ℕ → List ℕ
copy_into bytes start [] = bytes
copy_into bytes start (b ∷ source) = copy_into (set bytes start b) (suc start) source

unfoldable pub u16_at : List ℕ → ℕ → ℕ
u16_at bytes start = get_or bytes start 0 + get_or bytes (suc start) 0 * 256

abbrev pub u16_bytes : ℕ → List ℕ
u16_bytes v = v % 256 ∷ v / 256 % 256 ∷ []

unfoldable pub write_u16 : List ℕ → ℕ → ℕ → List ℕ
unfolding copy_into
write_u16 bytes start v = copy_into bytes start (u16_bytes v)

unfoldable pub new : SlottedPage
unfolding write_u16
new = record { bytes = write_u16 (replicate page_size 0) 2 (page_size % u16_mod) }

unfoldable pub get_slot_count : SlottedPage → ℕ
get_slot_count p = u16_at p.bytes 0

unfoldable pub free_end : SlottedPage → ℕ
free_end p = u16_at p.bytes 2

-- The product, the sum and the difference are `u16`s.
unfoldable pub free_space : SlottedPage → Outcome IoError ℕ
free_space p = do
  let slots = get_slot_count p * slot_size
  assert (ltb slots u16_mod)
  assert (ltb (slots + header_size) u16_mod)
  assert (leb (slots + header_size) (free_end p))
  ok (free_end p - (slots + header_size))

abbrev pub slot_offset : ℕ → ℕ
slot_offset slot = header_size + slot * slot_size

unfoldable pub read_slot : SlottedPage → ℕ → Outcome IoError (ℕ × ℕ)
read_slot p slot = do
  assert (leb (slot_offset slot + 4) page_size)
  ok (u16_at p.bytes (slot_offset slot), u16_at p.bytes (slot_offset slot + 2))

unfoldable pub write_slot : SlottedPage → ℕ → ℕ → ℕ → Outcome IoError SlottedPage
write_slot p slot offset len = do
  assert (leb (slot_offset slot + 4) page_size)
  ok (record {
    bytes = write_u16 (write_u16 p.bytes (slot_offset slot) offset) (slot_offset slot + 2) len;
  })

unfoldable pub insert : SlottedPage → List ℕ → Outcome IoError (ℕ × SlottedPage)
unfolding write_slot
insert p bytes = do
  free_size ← free_space p
  if ltb free_size (length bytes + slot_size) then err other else do
    assert (leb (length bytes) (free_end p))
    let tuple_offset = free_end p - length bytes
    assert (leb (free_end p) page_size)
    let copied = copy_into p.bytes tuple_offset bytes
    let ended = write_u16 copied 2 (tuple_offset % u16_mod)
    let slot_count = u16_at ended 0
    assert (ltb (slot_count + 1) u16_mod)
    let counted = write_u16 ended 0 (slot_count + 1)
    written ←
        write_slot (record { bytes = counted }) slot_count (tuple_offset % u16_mod)
          (length bytes % u16_mod)
    ok (slot_count, written)

unfoldable pub get : SlottedPage → ℕ → Outcome IoError (List ℕ)
unfolding read_slot
get p slot = do
  (tuple_offset, tuple_length) ← read_slot p slot
  assert (ltb (tuple_offset + tuple_length) u16_mod)
  assert (leb (tuple_offset + tuple_length) page_size)
  ok (slice p.bytes tuple_offset tuple_length)

unfoldable pub delete : SlottedPage → ℕ → Outcome IoError SlottedPage
unfolding get_slot_count write_slot
delete p slot = if leb (get_slot_count p) slot then err invalid_input else write_slot p slot 0 0

-- One round of the loop of `compact`, with the place where the next record goes.
unfoldable pub compact_slot : SlottedPage × ℕ → ℕ → Outcome IoError (SlottedPage × ℕ)
unfolding read_slot write_slot
compact_slot (p, destination) i = do
  (offset, len) ← read_slot p i
  if len == 0 then ok (p, destination) else do
    assert (leb (offset + len) page_size)
    let source = slice p.bytes offset len
    assert (leb (destination + len) page_size)
    written ←
        write_slot (record { bytes = copy_into p.bytes destination source }) i
          (destination % u16_mod) len
    ok (written, destination + len)

-- `for i in start..start + n`.
unfoldable pub compact_slots : ℕ → ℕ → SlottedPage × ℕ → Outcome IoError (SlottedPage × ℕ)
compact_slots zero start s = ok s
compact_slots (suc n) start s = compact_slot s start >>= compact_slots n (start + 1)

unfoldable pub compact : SlottedPage → Outcome IoError SlottedPage
compact p = do
  let slot_count = get_slot_count p
  (moved, destination) ← compact_slots slot_count 0 (p, header_size + slot_size * slot_count)
  ok (record { bytes = write_u16 moved.bytes 2 (destination % u16_mod) })

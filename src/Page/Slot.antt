-- ===== src/Page/Slot.antt =====
-- Rewriting one slot of the directory.
use task_pool_concurrency_im.Prelude.{
  ℕ, ◌+◌, ◌≤◌, ◌<◌, ◌≡◌, ◌⊎◌, ◌∙◌, List, arith, length, page_size,
}
use task_pool_concurrency_im.Page.{slice, u16_at, write_u16, slot_offset}
use task_pool_concurrency_im.Page.Bytes.{
  length-write_u16, u16_at-write_u16_self, u16_at-write_u16_other, slice-write_u16_other,
}

abbrev pub half : List ℕ → ℕ → ℕ → List ℕ
half d s offset = write_u16 d (slot_offset s) offset

abbrev pub slotted : List ℕ → ℕ → ℕ → ℕ → List ℕ
slotted d s offset len = write_u16 (half d s offset) (slot_offset s + 2) len

-- Slot `s` lies in a directory of `n` slots, and its new numbers fit a page.
pub record IsSlot (d : List ℕ) (n s offset len : ℕ) : Type 0 where
  pub sized : length d ≡ page_size
  pub used : s < n
  pub room : slot_offset n ≤ page_size
  pub offset_fits : offset ≤ page_size
  pub len_fits : len ≤ page_size

module _ (d : List ℕ) (n s offset len : ℕ) (h : IsSlot d n s offset len) where
  half-length : length (half d s offset) ≡ page_size
  half-length = length-write_u16 d (slot_offset s) offset ∙ h.sized

  pub slotted-length : length (slotted d s offset len) ≡ page_size
  slotted-length = length-write_u16 (half d s offset) (slot_offset s + 2) len ∙ half-length

  -- Numbers that the slot does not touch.
  pub slotted_other :
      (a : ℕ)
      → (a + 2 ≤ slot_offset s) ⊎ (slot_offset s + 4 ≤ a)
      → u16_at (slotted d s offset len) a ≡ u16_at d a
  slotted_other a q =
      u16_at-write_u16_other (half d s offset) (slot_offset s + 2) len a
        (omega (arith, half-length, h.used, h.room)) (omega arith)
      ∙ u16_at-write_u16_other d (slot_offset s) offset a (omega (arith, h.sized, h.used, h.room))
          (omega arith)

  pub slotted-offset : u16_at (slotted d s offset len) (slot_offset s) ≡ offset
  slotted-offset =
      u16_at-write_u16_other (half d s offset) (slot_offset s + 2) len (slot_offset s)
        (omega (arith, half-length, h.used, h.room)) (omega arith)
      ∙ u16_at-write_u16_self d (slot_offset s) offset (omega (arith, h.sized, h.used, h.room))
          (omega (arith, h.offset_fits))

  pub slotted-len : u16_at (slotted d s offset len) (slot_offset s + 2) ≡ len
  slotted-len =
      u16_at-write_u16_self (half d s offset) (slot_offset s + 2) len
        (omega (arith, half-length, h.used, h.room)) (omega (arith, h.len_fits))

  pub slice-slotted :
      (a m : ℕ) → slot_offset n ≤ a → slice (slotted d s offset len) a m ≡ slice d a m
  slice-slotted a m q =
      slice-write_u16_other (half d s offset) (slot_offset s + 2) len a m
        (omega (arith, half-length, h.used, h.room)) (omega (arith, h.used))
      ∙ slice-write_u16_other d (slot_offset s) offset a m (omega (arith, h.sized, h.used, h.room))
          (omega (arith, h.used))

-- ===== src/Page/Writes.antt =====
-- The five writes of `insert`, and what each of them leaves alone.
use task_pool_concurrency_im.Prelude.{
  ℕ, ◌+◌, ◌≤◌, ◌≡◌, ◌⊎◌, inl, inr, ◌∙◌, subst, List, arith, length, page_size,
}
use task_pool_concurrency_im.Page.{slice, copy_into, u16_at, write_u16, slot_offset}
use task_pool_concurrency_im.Page.Bytes.{
  length-copy_into, length-write_u16, u16_at-write_u16_self, u16_at-write_u16_other,
  u16_at-copy_into_other, slice-copy_into_other, slice-copy_into_self, slice-write_u16_other,
}

-- The bytes after each of the five writes of `insert`, for a record of length `L` put at `o`.
module _ (d r : List ℕ) (n o L : ℕ) where
  abbrev pub copied : List ℕ
  copied = copy_into d o r

  abbrev pub ended : List ℕ
  ended = write_u16 copied 2 o

  abbrev pub counted : List ℕ
  counted = write_u16 ended 0 (n + 1)

  abbrev pub pointed : List ℕ
  pointed = write_u16 counted (slot_offset n) o

  abbrev pub written : List ℕ
  written = write_u16 pointed (slot_offset n + 2) L

-- The new slot and the record lie in the gap of a page with `n` slots.
pub record Fits (d r : List ℕ) (n o L : ℕ) : Type 0 where
  pub sized : length d ≡ page_size
  pub measured : length r ≡ L
  pub below : slot_offset n + 4 ≤ o
  pub above : o + L ≤ page_size

module _ (d r : List ℕ) (n o L : ℕ) (f : Fits d r n o L) where
  open f use {sized, measured, below, above}

  pub copied-length : length (copied d r n o L) ≡ page_size
  copied-length = length-copy_into d o r ∙ sized

  pub ended-length : length (ended d r n o L) ≡ page_size
  ended-length = length-write_u16 (copied d r n o L) 2 o ∙ copied-length

  counted-length : length (counted d r n o L) ≡ page_size
  counted-length = length-write_u16 (ended d r n o L) 0 (n + 1) ∙ ended-length

  pointed-length : length (pointed d r n o L) ≡ page_size
  pointed-length = length-write_u16 (counted d r n o L) (slot_offset n) o ∙ counted-length

  pub written-length : length (written d r n o L) ≡ page_size
  written-length = length-write_u16 (pointed d r n o L) (slot_offset n + 2) L ∙ pointed-length

  -- What lies past the header, outside the new slot and below the new record, is kept.
  pub kept : (a : ℕ) → 4 ≤ a → a + 2 ≤ slot_offset n → u16_at (written d r n o L) a ≡ u16_at d a
  kept a lo hi =
      u16_at-write_u16_other (pointed d r n o L) (slot_offset n + 2) L a
        (omega (arith, pointed-length)) (omega arith)
      ∙ u16_at-write_u16_other (counted d r n o L) (slot_offset n) o a
          (omega (arith, counted-length)) (omega arith)
      ∙ u16_at-write_u16_other (ended d r n o L) 0 (n + 1) a (omega (arith, ended-length))
          (omega arith)
      ∙ u16_at-write_u16_other (copied d r n o L) 2 o a (omega (arith, copied-length)) (omega arith)
      ∙ u16_at-copy_into_other d o r a (omega arith) (omega arith)

  pub new_offset : u16_at (written d r n o L) (slot_offset n) ≡ o
  new_offset =
      u16_at-write_u16_other (pointed d r n o L) (slot_offset n + 2) L (slot_offset n)
        (omega (arith, pointed-length)) (omega arith)
      ∙ u16_at-write_u16_self (counted d r n o L) (slot_offset n) o (omega (arith, counted-length))
          (omega arith)

  pub new_length : u16_at (written d r n o L) (slot_offset n + 2) ≡ L
  new_length =
      u16_at-write_u16_self (pointed d r n o L) (slot_offset n + 2) L
        (omega (arith, pointed-length)) (omega arith)

  -- The header is out of the way of the slot's writes.
  header : (a : ℕ) → a + 2 ≤ 4 → u16_at (written d r n o L) a ≡ u16_at (counted d r n o L) a
  header a h =
      u16_at-write_u16_other (pointed d r n o L) (slot_offset n + 2) L a
        (omega (arith, pointed-length)) (omega arith)
      ∙ u16_at-write_u16_other (counted d r n o L) (slot_offset n) o a
          (omega (arith, counted-length)) (omega arith)

  pub new_count : u16_at (written d r n o L) 0 ≡ n + 1
  new_count =
      header 0 (omega arith)
      ∙ u16_at-write_u16_self (ended d r n o L) 0 (n + 1) (omega (arith, ended-length))
          (omega arith)

  pub new_end : u16_at (written d r n o L) 2 ≡ o
  new_end =
      header 2 (omega arith)
      ∙ u16_at-write_u16_other (ended d r n o L) 0 (n + 1) 2 (omega (arith, ended-length))
          (omega arith)
      ∙ u16_at-write_u16_self (copied d r n o L) 2 o (omega (arith, copied-length)) (omega arith)

  -- Past the slot directory only the copy of the record writes.
  past_directory :
      (a m : ℕ)
      → slot_offset n + 4 ≤ a
      → slice (written d r n o L) a m ≡ slice (copied d r n o L) a m
  past_directory a m h =
      slice-write_u16_other (pointed d r n o L) (slot_offset n + 2) L a m
        (omega (arith, pointed-length)) (omega arith)
      ∙ slice-write_u16_other (counted d r n o L) (slot_offset n) o a m
          (omega (arith, counted-length)) (omega arith)
      ∙ slice-write_u16_other (ended d r n o L) 0 (n + 1) a m (omega (arith, ended-length))
          (omega arith)
      ∙ slice-write_u16_other (copied d r n o L) 2 o a m (omega (arith, copied-length))
          (omega arith)

  pub new_content : slice (written d r n o L) o L ≡ r
  new_content =
      past_directory o L below
      ∙ subst (λ m. slice (copied d r n o L) o m ≡ r) measured
          (slice-copy_into_self d o r (omega arith))

  pub old_content : (a m : ℕ) → (m ≡ 0) ⊎ (o + L ≤ a) → slice (written d r n o L) a m ≡ slice d a m
  unfolding slice
  old_content a m (inl e) = rw (e, slice)
  old_content a m (inr h) =
      past_directory a m (omega arith) ∙ slice-copy_into_other d o r a m (omega arith) (omega arith)

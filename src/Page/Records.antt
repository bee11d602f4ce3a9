-- ===== src/Page/Records.antt =====
-- A page as the list of the records in its slots.
use task_pool_concurrency_im.Prelude.{
  ℕ, suc, ◌+◌, ◌-◌, ◌≤◌, ◌<◌, ◌≡◌, ◌⊎◌, ◌∙◌, ap, List, [], ◌∷◌, arith, length, get_or, page_size,
  ok, get_or-replicate, length-replicate, replicate,
}
use task_pool_concurrency_im.Page.{
  SlottedPage, slice, u16_at, get_slot_count, free_end, free_space, get, slot_offset, new,
  max_available_slotted_page_space,
}
use task_pool_concurrency_im.Page.Bytes.{
  length-write_u16, u16_at-write_u16_self, u16_at-write_u16_other,
}

abbrev pub offset_at : SlottedPage → ℕ → ℕ
offset_at p slot = u16_at p.bytes (slot_offset slot)

abbrev pub length_at : SlottedPage → ℕ → ℕ
length_at p slot = u16_at p.bytes (slot_offset slot + 2)

-- The bytes of all records.
abbrev pub total : List (List ℕ) → ℕ
total [] = 0
total (r ∷ rs) = length r + total rs

-- The directory, the gap and the records lie in the page.
pub record IsBounded (p : SlottedPage) : Type 0 where
  pub sized : length p.bytes ≡ page_size
  pub directory : slot_offset (get_slot_count p) ≤ free_end p
  pub ended : free_end p ≤ page_size
  pub inside : (i : ℕ) → i < get_slot_count p → offset_at p i + length_at p i ≤ page_size

-- And no record reaches into the gap.
pub record IsPage (p : SlottedPage) : Type 0 where
  pub sized : length p.bytes ≡ page_size
  pub directory : slot_offset (get_slot_count p) ≤ free_end p
  pub ended : free_end p ≤ page_size
  pub inside : (i : ℕ) → i < get_slot_count p → offset_at p i + length_at p i ≤ page_size
  pub stored : (i : ℕ) → i < get_slot_count p → (length_at p i ≡ 0) ⊎ (free_end p ≤ offset_at p i)

-- The page holds these records, by slot; a deleted slot holds the empty record.
pub record Holds (p : SlottedPage) (rs : List (List ℕ)) : Type 0 where
  pub page : IsPage p
  pub counted : get_slot_count p ≡ length rs
  pub content :
      (i : ℕ) → i < length rs → slice p.bytes (offset_at p i) (length_at p i) ≡ get_or rs i []
  pub room : free_end p + total rs ≤ page_size

-- The bytes between the slot directory and the records.
abbrev pub gap : SlottedPage → ℕ
gap p = free_end p - slot_offset (get_slot_count p)

pub IsPage-IsBounded : (p : SlottedPage) → IsPage p → IsBounded p
IsPage-IsBounded p v = record {
  sized = v.sized;
  directory = v.directory;
  ended = v.ended;
  inside = λ i h. v.inside i h;
}

pub free_space-gap : (p : SlottedPage) → IsBounded p → free_space p ≡ ok (gap p)
unfolding free_space
free_space-gap p v = ground (arith, v.directory, v.ended)

-- `get` returns the record of any slot in use.
pub get-Holds :
    (p : SlottedPage) (rs : List (List ℕ)) (i : ℕ)
    → Holds p rs
    → i < length rs
    → get p i ≡ ok (get_or rs i [])
unfolding get
get-Holds p rs i v h = ground (
  arith,
  v.page.inside i (omega (arith, v.counted)),
  v.counted,
  v.page.directory,
  v.page.ended,
  v.content i h,
)

zeros : List ℕ
zeros = replicate page_size 0

zeros-length : length zeros ≡ page_size
unfolding zeros
zeros-length = length-replicate page_size 0

u16_at-zeros : (a : ℕ) → u16_at zeros a ≡ 0
unfolding zeros u16_at
u16_at-zeros a =
    omega
      (arith, get_or-replicate {A = ℕ} page_size a 0, get_or-replicate {A = ℕ} page_size (suc a) 0)

new-get_slot_count : get_slot_count new ≡ 0
unfolding new get_slot_count zeros
new-get_slot_count =
    u16_at-write_u16_other zeros 2 page_size 0 (omega (arith, zeros-length)) (omega arith)
    ∙ u16_at-zeros 0

new-free_end : free_end new ≡ page_size
unfolding new free_end zeros
new-free_end = u16_at-write_u16_self zeros 2 page_size (omega (arith, zeros-length)) (omega arith)

new-length : length new.bytes ≡ page_size
unfolding new zeros
new-length = length-write_u16 zeros 2 page_size ∙ zeros-length

pub new-IsPage : IsPage new
new-IsPage = record {
  sized = new-length;
  directory = omega (arith, new-get_slot_count, new-free_end);
  ended = omega (arith, new-free_end);
  inside = λ i h. absurd (omega (arith, new-get_slot_count));
  stored = λ i h. absurd (omega (arith, new-get_slot_count));
}

-- A new page holds no record, and all of it but the header is free.
pub new-Holds : Holds new [] × (free_space new ≡ ok max_available_slotted_page_space)
new-Holds = (
  record {
    page = new-IsPage;
    counted = new-get_slot_count;
    content = λ i h. absurd (omega arith);
    room = omega (arith, new-free_end);
  },
  free_space-gap new (IsPage-IsBounded new new-IsPage)
      ∙ ap ok (omega (arith, new-get_slot_count, new-free_end)),
)

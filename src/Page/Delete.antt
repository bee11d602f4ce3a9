-- ===== src/Page/Delete.antt =====
-- `delete` empties a slot and leaves the others alone.
use task_pool_concurrency_im.Prelude.{
  ℕ, zero, suc, ◌+◌, ◌≤◌, ◌<◌, ◌≡◌, ◌≢◌, ◌⊎◌, inl, inr, ◌∙◌, ap, List, [], ◌∷◌, arith, length,
  get_or, set, ok, err, invalid_input, dec_lt, ℕ_discrete, length-set, get_or-set,
}
use task_pool_concurrency_im.Page.{
  SlottedPage, slice, get_slot_count, free_end, delete, write_slot, slot_offset,
}
use task_pool_concurrency_im.Page.Slot.{
  IsSlot, slotted, slotted-length, slotted_other, slotted-offset, slotted-len, slice-slotted,
}
use task_pool_concurrency_im.Page.Records.{
  offset_at, length_at, total, IsBounded, IsPage, IsPage-IsBounded, Holds, gap,
}

total-set : (rs : List (List ℕ)) (i : ℕ) → total (set rs i []) ≤ total rs
total-set [] i = omega arith
total-set (r ∷ rs) zero = omega arith
total-set (r ∷ rs) (suc i) = omega (arith, total-set rs i)

module _ (p : SlottedPage) (s : ℕ) (v : IsBounded p) (used : s < get_slot_count p) where
  abbrev n : ℕ
  n = get_slot_count p

  dir : IsSlot p.bytes n s 0 0
  dir = record {
    sized = v.sized;
    used = used;
    room = omega (arith, v.directory, v.ended);
    offset_fits = omega arith;
    len_fits = omega arith;
  }

  abbrev emptied : SlottedPage
  emptied = record { bytes = slotted p.bytes s 0 0 }

  count_after : get_slot_count emptied ≡ n
  unfolding get_slot_count
  count_after = slotted_other p.bytes n s 0 0 dir 0 (omega arith)

  end_after : free_end emptied ≡ free_end p
  unfolding free_end
  end_after = slotted_other p.bytes n s 0 0 dir 2 (omega arith)

  slot_after :
      (i : ℕ)
      → ((i ≢ s) × (offset_at emptied i ≡ offset_at p i) × (length_at emptied i ≡ length_at p i))
        ⊎ ((i ≡ s) × (offset_at emptied i ≡ 0) × (length_at emptied i ≡ 0))
  slot_after i = elim (ℕ_discrete i s) [
    | yes e ↦ inr (
      e,
      ap (offset_at emptied) e ∙ slotted-offset p.bytes n s 0 0 dir,
      ap (length_at emptied) e ∙ slotted-len p.bytes n s 0 0 dir,
    )
    | no e ↦ inl (
      e,
      slotted_other p.bytes n s 0 0 dir (slot_offset i) (omega arith),
      slotted_other p.bytes n s 0 0 dir (slot_offset i + 2) (omega arith),
    )
  ]

  emptied-IsBounded : IsBounded emptied
  emptied-IsBounded = record {
    sized = slotted-length p.bytes n s 0 0 dir;
    directory = omega (arith, count_after, end_after, v.directory);
    ended = omega (arith, end_after, v.ended);
    inside = λ i h. elim (slot_after i) [
      | inl (q, a, b) ↦ omega (arith, a, b, count_after, v.inside i (omega (arith, count_after)))
      | inr (q, a, b) ↦ omega (arith, a, b)
    ];
  }

  delete-emptied : delete p s ≡ ok emptied
  unfolding delete write_slot
  delete-emptied = ground (arith, used, v.directory, v.ended)

  pub delete-IsBounded : (q : SlottedPage) × (delete p s ≡ ok q) × IsBounded q
  delete-IsBounded = (emptied, delete-emptied, emptied-IsBounded)

module _ (p : SlottedPage) (rs : List (List ℕ)) (s : ℕ) (v : Holds p rs)
    (used : s < get_slot_count p) where
  abbrev bounded : IsBounded p
  bounded = IsPage-IsBounded p v.page

  abbrev cleared : SlottedPage
  cleared = emptied p s bounded used

  cleared-IsPage : IsPage cleared
  cleared-IsPage = record {
    sized = slotted-length p.bytes (get_slot_count p) s 0 0 (dir p s bounded used);
    directory =
        omega (arith, count_after p s bounded used, end_after p s bounded used, v.page.directory);
    ended = omega (arith, end_after p s bounded used, v.page.ended);
    inside = λ i h. elim (slot_after p s bounded used i) [
      | inl (q, a, b) ↦ omega (
        arith,
        a,
        b,
        count_after p s bounded used,
        v.page.inside i (omega (arith, count_after p s bounded used)),
      )
      | inr (q, a, b) ↦ omega (arith, a, b)
    ];
    stored = λ i h. elim (slot_after p s bounded used i) [
      | inl (q, a, b) ↦ omega (
        arith,
        a,
        b,
        end_after p s bounded used,
        v.page.stored i (omega (arith, count_after p s bounded used)),
      )
      | inr (q, a, b) ↦ omega (arith, b)
    ];
  }

  kept_content :
      (i : ℕ)
      → i < get_slot_count p
      → slice cleared.bytes (offset_at p i) (length_at p i)
        ≡ slice p.bytes (offset_at p i) (length_at p i)
  unfolding slice
  kept_content i h = elim (v.page.stored i h) [
    | inl e ↦ rw (e, slice)
    | inr e ↦
        slice-slotted p.bytes (get_slot_count p) s 0 0 (dir p s bounded used) (offset_at p i)
          (length_at p i) (omega (arith, v.page.directory))
  ]

  content_after :
      (i : ℕ)
      → i < length rs
      → slice cleared.bytes (offset_at cleared i) (length_at cleared i) ≡ get_or (set rs s []) i []
  unfolding slice
  content_after i h = elim (slot_after p s bounded used i) [
    | inl (q, a, b) ↦
        rw (a, b)
          (kept_content i (omega (arith, v.counted))
            ∙ v.content i h
            ∙ ground (arith, get_or-set rs s i [] [], v.counted, used))
    | inr (q, a, b) ↦ rw (b, slice) (ground (arith, get_or-set rs s i [] [], v.counted, used))
  ]

  cleared-Holds : Holds cleared (set rs s [])
  cleared-Holds = record {
    page = cleared-IsPage;
    counted = omega (arith, count_after p s bounded used, v.counted, length-set rs s []);
    content = λ i h. content_after i (omega (arith, length-set rs s []));
    room = omega (arith, end_after p s bounded used, v.room, total-set rs s);
  }

-- `delete` on a page that holds the records `rs`: of a slot in use it makes the record empty, and
-- leaves the other records, the slots and the gap as they are; of any other slot it is an error.
pub delete-Holds :
    (p : SlottedPage) (rs : List (List ℕ)) (s : ℕ)
    → Holds p rs
    → ((length rs ≤ s) × (delete p s ≡ err invalid_input))
      ⊎ ((s < length rs)
          × ((q : SlottedPage) × (delete p s ≡ ok q) × Holds q (set rs s []) × (gap q ≡ gap p)))
unfolding delete write_slot
delete-Holds p rs s v = elim (dec_lt s (length rs)) [
  | yes h ↦
      let used : s < get_slot_count p = omega (arith, v.counted) in
      inr (
        h,
        (
          cleared p rs s v used,
          delete-emptied p s (bounded p rs s v used) used,
          cleared-Holds p rs s v used,
          omega (
            arith,
            count_after p s (bounded p rs s v used) used,
            end_after p s (bounded p rs s v used) used,
          ),
        ),
      )
  | no h ↦ inl (omega arith, ground (arith, v.counted))
]

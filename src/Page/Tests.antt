-- ===== src/Page/Tests.antt =====
-- A page with one record.
use task_pool_concurrency_im.Prelude.{
  ℕ, ◌+◌, ◌<◌, ◌≤◌, ◌≡◌, ◌⊎◌, inl, inr, List, [], ◌∷◌, ok, err, panic, page_size, other,
  invalid_input, arith, length,
}
use task_pool_concurrency_im.Page.{
  SlottedPage, new, insert, delete, compact, free_space, get_slot_count, slot_size,
  max_available_slotted_page_space, slot_offset, free_end,
}
use task_pool_concurrency_im.Page.Records.{
  IsBounded, IsPage-IsBounded, Holds, gap, total, new-Holds, free_space-gap,
}
use task_pool_concurrency_im.Page.Insert.{insert-Holds}
use task_pool_concurrency_im.Page.Delete.{delete-Holds}
use task_pool_concurrency_im.Page.Moving.{lengths}
use task_pool_concurrency_im.Page.Compact.{compact-gap, compact-cases}
use task_pool_concurrency_im.Page.Fuzz.{fuzz_target}
use task_pool_concurrency_im.Page.Fuzz.Verdicts.{Sound, fuzz_target-Sound}

abbrev a_record : List ℕ
a_record = 5 ∷ 6 ∷ 7 ∷ []

insert-Holds_example :
    ((gap new < length a_record + slot_size) × (insert new a_record ≡ err other))
    ⊎ ((length a_record + slot_size ≤ gap new)
        × ((q : SlottedPage) × (insert new a_record ≡ ok (0, q))
            × Holds q (a_record ∷ [])
            × (gap q + length a_record + slot_size ≡ gap new)))
insert-Holds_example = insert-Holds new [] a_record new-Holds.0

new-gap : gap new ≡ max_available_slotted_page_space
new-gap =
    let known = new-Holds.1 in
    let same = free_space-gap new (IsPage-IsBounded new new-Holds.0.page) in
    ground (arith, known, same)

one_record : (q : SlottedPage) × Holds q (a_record ∷ [])
one_record = elim insert-Holds_example [
  | inl (h, e) ↦ absurd (omega (arith, new-gap))
  | inr (h, (q, e, v, g)) ↦ (q, v)
]

delete-Holds_example :
    ((1 ≤ 0) × (delete one_record.0 0 ≡ err invalid_input))
    ⊎ ((0 < 1)
        × ((q : SlottedPage) × (delete one_record.0 0 ≡ ok q)
            × Holds q ([] ∷ [])
            × (gap q ≡ gap one_record.0)))
delete-Holds_example = delete-Holds one_record.0 (a_record ∷ []) 0 one_record.1

compact-gap_example :
    (q : SlottedPage) × (compact one_record.0 ≡ ok q)
    × (get_slot_count q ≡ 1)
    × (free_space q ≡ ok (total (a_record ∷ [])))
compact-gap_example = compact-gap one_record.0 (a_record ∷ []) one_record.1

compact-cases_example :
    ((slot_offset (get_slot_count new) + lengths new 0 (get_slot_count new) ≤ page_size)
      × ((q : SlottedPage) × (compact new ≡ ok q)
          × (get_slot_count q ≡ get_slot_count new)
          × (free_end q ≡ slot_offset (get_slot_count new) + lengths new 0 (get_slot_count new))
          × IsBounded q))
    ⊎ ((page_size < slot_offset (get_slot_count new) + lengths new 0 (get_slot_count new))
        × (compact new ≡ panic))
compact-cases_example = compact-cases new (IsPage-IsBounded new new-Holds.0.page)

-- A record of three bytes, and then a deletion and a compaction.
abbrev an_input : List ℕ
an_input = 0 ∷ 2 ∷ 5 ∷ 6 ∷ 7 ∷ 1 ∷ 0 ∷ 2 ∷ []

fuzz_target-Sound_example : Sound (fuzz_target an_input)
fuzz_target-Sound_example = fuzz_target-Sound an_input

-- ===== src/Page/Compact.antt =====
-- When `compact` succeeds, and what it then leaves free.
use task_pool_concurrency_im.Prelude.{
  ℕ, suc, ◌+◌, ◌%◌, ◌≤◌, ◌<◌, ◌≡◌, ◌⊎◌, inl, inr, ◌∙◌, sym, refl, ap, List, [], ◌∷◌, arith, length,
  get_or, page_size, u16_mod, ok, panic, dec_le,
}
use native.Mathlib.Nat.{add-zero, mod-eq_of_lt}
use task_pool_concurrency_im.Page.Moving.{lengths, Loop, loop, loop-panic}
use task_pool_concurrency_im.Page.{
  SlottedPage, u16_at, write_u16, get_slot_count, free_end, compact, slot_offset, free_space,
}
use task_pool_concurrency_im.Page.Bytes.{
  length-slice, u16_at-write_u16_self, u16_at-write_u16_other, length-write_u16,
}
use task_pool_concurrency_im.Page.Records.{
  offset_at, length_at, total, Holds, IsBounded, IsPage-IsBounded, free_space-gap,
}

lengths-total :
    (p : SlottedPage) (rs : List (List ℕ)) (i : ℕ)
    → ((j : ℕ) → j < length rs → length_at p (i + j) ≡ length (get_or rs j []))
    → lengths p i (length rs) ≡ total rs
unfolding lengths
lengths-total p [] i h = refl
lengths-total p (r ∷ rs) i h =
    let rest =
      lengths-total p rs (i + 1)
        (λ j q. ap (length_at p) (omega arith) ∙ h (suc j) (omega arith)) in
    omega (arith, rest, ap (length_at p) (add-zero i), h 0 (omega arith))

length_at-Holds :
    (p : SlottedPage) (rs : List (List ℕ)) (j : ℕ)
    → Holds p rs
    → j < length rs
    → length_at p j ≡ length (get_or rs j [])
length_at-Holds p rs j v h =
    sym (length-slice p.bytes (offset_at p j) (length_at p j)) ∙ ap length (v.content j h)

begin :
    (p : SlottedPage) → IsBounded p → Loop p (get_slot_count p) 0 p (slot_offset (get_slot_count p))
begin p v = record {
  sized = v.sized;
  counted = refl;
  past = omega arith;
  offsets = λ j a b. refl;
  lens = λ j a b. refl;
  done = λ j h. absurd (omega arith);
}

-- Where the directory and the records fit a page.
packed :
    (p : SlottedPage)
    → IsBounded p
    → slot_offset (get_slot_count p) + lengths p 0 (get_slot_count p) ≤ page_size
    → (q : SlottedPage) × (compact p ≡ ok q)
      × (get_slot_count q ≡ get_slot_count p)
      × (free_end q ≡ slot_offset (get_slot_count p) + lengths p 0 (get_slot_count p))
      × IsBounded q
unfolding compact get_slot_count free_end
packed p v fits =
    let n = get_slot_count p in
    let start = slot_offset n in
    let (m, run, l) =
      loop p n n 0 p start (omega arith) (omega (arith, v.directory, v.ended)) v.inside fits
        (begin p v) in
    let end_ = start + lengths p 0 n in
    let small : end_ % u16_mod ≡ end_ = mod-eq_of_lt (omega arith) in
    let written = write_u16 m.bytes 2 end_ in
    let other : (a : ℕ)
        → slot_offset 0 ≤ a
        → a + 2 ≤ slot_offset n
        → u16_at written a ≡ u16_at m.bytes a =
      λ a lo hi. u16_at-write_u16_other m.bytes 2 end_ a (omega (arith, l.sized)) (omega arith) in
    let count : u16_at written 0 ≡ n =
      u16_at-write_u16_other m.bytes 2 end_ 0 (omega (arith, l.sized)) (omega arith) ∙ l.counted in
    let ends : u16_at written 2 ≡ end_ =
      u16_at-write_u16_self m.bytes 2 end_ (omega (arith, l.sized)) (omega arith) in
    (
      record { bytes = written },
      ground (arith, run, small),
      count,
      ends,
      record {
        sized = length-write_u16 m.bytes 2 end_ ∙ l.sized;
        directory = omega (arith, count, ends);
        ended = omega (arith, ends, fits);
        inside = λ j h.
            let near : j < n = omega (arith, count, h) in
            omega (
              arith,
              other (slot_offset j) (omega arith) (omega arith),
              other (slot_offset j + 2) (omega arith) (omega arith),
              l.done j near,
            );
      },
    )

-- `compact` on a page within its bounds, however its records overlap: where the directory and the records,
-- one after another, fit a page, it returns a page within its bounds, with as many slots and with the
-- lengths of the records as the end of its gap; otherwise it panics.
pub compact-cases :
    (p : SlottedPage)
    → IsBounded p
    → ((slot_offset (get_slot_count p) + lengths p 0 (get_slot_count p) ≤ page_size)
        × ((q : SlottedPage) × (compact p ≡ ok q)
            × (get_slot_count q ≡ get_slot_count p)
            × (free_end q ≡ slot_offset (get_slot_count p) + lengths p 0 (get_slot_count p))
            × IsBounded q))
      ⊎ ((page_size < slot_offset (get_slot_count p) + lengths p 0 (get_slot_count p))
          × (compact p ≡ panic))
unfolding compact get_slot_count
compact-cases p v =
    let n = get_slot_count p in
    elim (dec_le (slot_offset n + lengths p 0 n) page_size) [
      | yes h ↦ inl (h, packed p v h)
      | no h ↦
          let over : page_size < slot_offset n + lengths p 0 n = omega arith in
          let low : slot_offset n ≤ page_size = omega (arith, v.directory, v.ended) in
          let run =
            loop-panic p n n 0 p (slot_offset n) (omega arith) low v.inside low over (begin p v) in
          inr (over, ground (arith, run))
    ]

-- `compact` on a page that holds the records `rs` returns a page with as many slots. The room that it
-- then reports as free is the number of bytes of the records.
pub compact-gap :
    (p : SlottedPage) (rs : List (List ℕ))
    → Holds p rs
    → (q : SlottedPage) × (compact p ≡ ok q)
      × (get_slot_count q ≡ length rs)
      × (free_space q ≡ ok (total rs))
compact-gap p rs v =
    let n = get_slot_count p in
    let sum : lengths p 0 n ≡ total rs =
      ap (lengths p 0) v.counted
      ∙ lengths-total p rs 0 (λ j q. ap (length_at p) (omega arith) ∙ length_at-Holds p rs j v q) in
    let fits : slot_offset n + lengths p 0 n ≤ page_size =
      omega (arith, sum, v.room, v.page.directory) in
    let (q, run, count, ends, b) = packed p (IsPage-IsBounded p v.page) fits in
    (q, run, count ∙ v.counted, free_space-gap q b ∙ ap ok (omega (arith, count, ends, sum)))

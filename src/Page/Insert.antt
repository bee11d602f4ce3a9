-- ===== src/Page/Insert.antt =====
-- `insert` appends a record to those that the page holds.
use task_pool_concurrency_im.Prelude.{
  ℕ, zero, suc, ◌+◌, ◌-◌, ◌%◌, ◌≤◌, ◌<◌, ◌≡◌, ◌⊎◌, inl, inr, ◌∙◌, refl, ap, List, [], ◌∷◌, ◌++◌,
  arith, ltb, if◌then◌else◌, length, get_or, u16_mod, ok, err, other, dec_lt, length-append,
}
use native.Mathlib.Nat.{mod-eq_of_lt}
use task_pool_concurrency_im.Page.{
  SlottedPage, slice, u16_at, get_slot_count, free_end, insert, slot_offset, slot_size,
}
use task_pool_concurrency_im.Page.Bytes.{u16_at-write_u16_other, u16_at-copy_into_other}
use task_pool_concurrency_im.Page.Records.{
  offset_at, length_at, total, IsBounded, IsPage, IsPage-IsBounded, Holds, gap, free_space-gap,
}
use task_pool_concurrency_im.Page.Writes

-- The record at a slot of a longer list.
get_or-append :
    (rs : List (List ℕ)) (r : List ℕ) (i : ℕ)
    → get_or (rs ++ r ∷ []) i []
      ≡ (if ltb i (length rs) then get_or rs i [] else get_or (r ∷ []) (i - length rs) [])
get_or-append [] r i = ground arith
get_or-append (x ∷ rs) r zero = ground arith
get_or-append (x ∷ rs) r (suc i) = ground (arith, get_or-append rs r i)

total-append : (rs : List (List ℕ)) (r : List ℕ) → total (rs ++ r ∷ []) ≡ total rs + length r
total-append [] r = omega arith
total-append (x ∷ rs) r = omega (arith, total-append rs r)

module _ (p : SlottedPage) (r : List ℕ) (v : IsBounded p)
    (room : length r + slot_size ≤ gap p) where
  abbrev n : ℕ
  n = get_slot_count p

  abbrev L : ℕ
  L = length r

  abbrev o : ℕ
  o = free_end p - L

  abbrev extended : SlottedPage
  extended = record { bytes = Writes.written p.bytes r n o L }

  fits : Writes.Fits p.bytes r n o L
  fits = record {
    sized = v.sized;
    measured = refl;
    below = omega (arith, v.directory);
    above = omega (arith, v.ended, v.directory);
  }

  read_count : u16_at (Writes.ended p.bytes r n o L) 0 ≡ n
  unfolding get_slot_count
  read_count =
      u16_at-write_u16_other (Writes.copied p.bytes r n o L) 2 o 0
        (omega (arith, Writes.copied-length p.bytes r n o L fits)) (omega arith)
      ∙ u16_at-copy_into_other p.bytes o r 0 (omega (arith, v.sized, fits.above))
          (omega (arith, fits.below))

  insert-written : insert p r ≡ ok (n, extended)
  unfolding insert
  insert-written =
      let small : o % u16_mod ≡ o = mod-eq_of_lt (omega (arith, fits.above)) in
      let short : L % u16_mod ≡ L = mod-eq_of_lt (omega (arith, fits.above)) in
      ground (arith, free_space-gap p v, small, short, read_count, v.directory, v.ended, room)

  count_after : get_slot_count extended ≡ suc n
  unfolding get_slot_count
  count_after = Writes.new_count p.bytes r n o L fits ∙ omega arith

  end_after : free_end extended ≡ o
  unfolding free_end
  end_after = Writes.new_end p.bytes r n o L fits

  -- A slot of the new page is an old one or the new one.
  slot_after :
      (i : ℕ)
      → i < suc n
      → ((i < n) × (offset_at extended i ≡ offset_at p i) × (length_at extended i ≡ length_at p i))
        ⊎ ((i ≡ n) × (offset_at extended i ≡ o) × (length_at extended i ≡ L))
  slot_after i h = elim (dec_lt i n) [
    | yes q ↦ inl (
      q,
      Writes.kept p.bytes r n o L fits (slot_offset i) (omega arith) (omega arith),
      Writes.kept p.bytes r n o L fits (slot_offset i + 2) (omega arith) (omega arith),
    )
    | no q ↦
        let e : i ≡ n = omega arith in
        inr (
          e,
          ap (offset_at extended) e ∙ Writes.new_offset p.bytes r n o L fits,
          ap (length_at extended) e ∙ Writes.new_length p.bytes r n o L fits,
        )
  ]

  extended-IsBounded : IsBounded extended
  extended-IsBounded = record {
    sized = Writes.written-length p.bytes r n o L fits;
    directory = omega (arith, count_after, end_after, fits.below);
    ended = omega (arith, end_after, fits.above);
    inside = λ i h. elim (slot_after i (omega (arith, count_after))) [
      | inl (q, a, b) ↦ omega (arith, a, b, v.inside i q)
      | inr (q, a, b) ↦ omega (arith, a, b, fits.above)
    ];
  }

  -- A record that fits makes a page within its bounds, with one slot more.
  pub insert-IsBounded : (q : SlottedPage) × (insert p r ≡ ok (n, q)) × IsBounded q
  insert-IsBounded = (extended, insert-written, extended-IsBounded)

pub insert-bounds :
    (p : SlottedPage) (r : List ℕ)
    → IsBounded p
    → (insert p r ≡ err other)
      ⊎ ((q : SlottedPage) × (insert p r ≡ ok (get_slot_count p, q)) × IsBounded q)
unfolding insert
insert-bounds p r v = elim (dec_lt (gap p) (length r + slot_size)) [
  | yes h ↦ inl (ground (arith, free_space-gap p v, h))
  | no h ↦ inr (insert-IsBounded p r v (omega arith))
]

module _ (p : SlottedPage) (rs : List (List ℕ)) (r : List ℕ) (v : Holds p rs)
    (room : length r + slot_size ≤ gap p) where
  abbrev bounded : IsBounded p
  bounded = IsPage-IsBounded p v.page

  abbrev grown : SlottedPage
  grown = extended p r bounded room

  grown-IsPage : IsPage grown
  grown-IsPage = record {
    sized =
        Writes.written-length p.bytes r (n p r bounded room) (o p r bounded room)
          (L p r bounded room) (fits p r bounded room);
    directory = omega (
      arith,
      count_after p r bounded room,
      end_after p r bounded room,
      (fits p r bounded room).below,
    );
    ended = omega (arith, end_after p r bounded room, (fits p r bounded room).above);
    inside = λ i h.
        elim (slot_after p r bounded room i (omega (arith, count_after p r bounded room))) [
          | inl (q, a, b) ↦ omega (arith, a, b, v.page.inside i q)
          | inr (q, a, b) ↦ omega (arith, a, b, (fits p r bounded room).above)
        ];
    stored = λ i h.
        elim (slot_after p r bounded room i (omega (arith, count_after p r bounded room))) [
          | inl (q, a, b) ↦ omega (arith, a, b, v.page.stored i q, end_after p r bounded room)
          | inr (q, a, b) ↦ omega (arith, a, end_after p r bounded room)
        ];
  }

  content_after :
      (i : ℕ)
      → i < suc (get_slot_count p)
      → slice grown.bytes (offset_at grown i) (length_at grown i) ≡ get_or (rs ++ r ∷ []) i []
  content_after i h = elim (slot_after p r bounded room i h) [
    | inl (q, a, b) ↦
        rw (a, b)
          (Writes.old_content p.bytes r (n p r bounded room) (o p r bounded room)
              (L p r bounded room) (fits p r bounded room) (offset_at p i) (length_at p i)
              (omega (arith, v.page.stored i q, (fits p r bounded room).above))
            ∙ v.content i (omega (arith, v.counted))
            ∙ ground (arith, get_or-append rs r i, v.counted, q))
    | inr (q, a, b) ↦
        rw (a, b)
          (Writes.new_content p.bytes r (n p r bounded room) (o p r bounded room)
              (L p r bounded room) (fits p r bounded room)
            ∙ ground (arith, get_or-append rs r i, v.counted, q))
  ]

  grown-Holds : Holds grown (rs ++ r ∷ [])
  grown-Holds = record {
    page = grown-IsPage;
    counted = omega (arith, count_after p r bounded room, v.counted, length-append rs (r ∷ []));
    content = λ i h. content_after i (omega (arith, v.counted, length-append rs (r ∷ [])));
    room = omega (arith, end_after p r bounded room, v.room, total-append rs r, v.page.directory);
  }

  pub insert-room :
      (q : SlottedPage) × (insert p r ≡ ok (length rs, q))
      × Holds q (rs ++ r ∷ [])
      × (gap q + length r + slot_size ≡ gap p)
  insert-room = (
    grown,
    insert-written p r bounded room ∙ ap (λ (k : ℕ). ok (k, grown)) v.counted,
    grown-Holds,
    omega (arith, count_after p r bounded room, end_after p r bounded room, v.page.directory),
  )

-- `insert` on a page that holds the records `rs`: with room in the gap for the record and a slot it
-- returns the next slot, and the page then holds `rs` followed by the record, with that much less
-- room; without, it is an error.
pub insert-Holds :
    (p : SlottedPage) (rs : List (List ℕ)) (r : List ℕ)
    → Holds p rs
    → ((gap p < length r + slot_size) × (insert p r ≡ err other))
      ⊎ ((length r + slot_size ≤ gap p)
          × ((q : SlottedPage) × (insert p r ≡ ok (length rs, q))
              × Holds q (rs ++ r ∷ [])
              × (gap q + length r + slot_size ≡ gap p)))
unfolding insert
insert-Holds p rs r v = elim (dec_lt (gap p) (length r + slot_size)) [
  | yes h ↦ inl (h, ground (arith, free_space-gap p (IsPage-IsBounded p v.page), h))
  | no h ↦ inr (omega arith, insert-room p rs r v (omega arith))
]

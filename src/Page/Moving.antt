-- ===== src/Page/Moving.antt =====
-- The loop of `compact`: where each record goes, and when one does not fit any more.
use task_pool_concurrency_im.Prelude.{
  ℕ, zero, suc, ◌+◌, ◌%◌, ◌≤◌, ◌<◌, ◌≡◌, ◌⊎◌, inl, inr, ◌∙◌, subst, refl, ap, List, arith, length,
  page_size, u16_mod, ok, panic, dec_le, dec_lt, Bool-cases, ◌==◌,
}
use native.Mathlib.Nat.{mod-eq_of_lt}
use task_pool_concurrency_im.Page.{
  SlottedPage, slice, copy_into, u16_at, compact_slot, compact_slots, slot_offset,
}
use task_pool_concurrency_im.Page.Bytes.{length-slice, length-copy_into, u16_at-copy_into_other}
use task_pool_concurrency_im.Page.Slot.{
  IsSlot, slotted, slotted-length, slotted_other, slotted-offset, slotted-len,
}
use task_pool_concurrency_im.Page.Records.{offset_at, length_at}

-- The lengths of `k` slots from slot `i` on.
unfoldable pub lengths : SlottedPage → ℕ → ℕ → ℕ
lengths p i zero = 0
lengths p i (suc k) = length_at p i + lengths p (i + 1) k

-- The loop before slot `i`, in a page of `n` slots: what is still to be read of the directory is as it
-- was in the page `p`.
pub record Loop (p : SlottedPage) (n i : ℕ) (m : SlottedPage) (dest : ℕ) : Type 0 where
  pub sized : length m.bytes ≡ page_size
  pub counted : u16_at m.bytes 0 ≡ u16_at p.bytes 0
  pub past : slot_offset n ≤ dest
  pub offsets : (j : ℕ) → i ≤ j → j < n → offset_at m j ≡ offset_at p j
  pub lens : (j : ℕ) → i ≤ j → j < n → length_at m j ≡ length_at p j
  -- The slots that have been moved.
  pub done : (j : ℕ) → j < i → offset_at m j + length_at m j ≤ page_size

module _ (p : SlottedPage) (n i : ℕ) (m : SlottedPage) (dest : ℕ) (l : Loop p n i m dest)
    (used : i < n) (dir : slot_offset n ≤ page_size) (fits : dest + length_at p i ≤ page_size)
    (inside : offset_at p i + length_at p i ≤ page_size) where
  abbrev len : ℕ
  len = length_at p i

  abbrev source : List ℕ
  source = slice m.bytes (offset_at p i) len

  abbrev copied : List ℕ
  copied = copy_into m.bytes dest source

  abbrev moved : SlottedPage
  moved = record { bytes = slotted copied i dest len }

  size : length source ≡ len
  size = length-slice m.bytes (offset_at p i) len

  slot : IsSlot copied n i dest len
  slot = record {
    sized = length-copy_into m.bytes dest source ∙ l.sized;
    used = used;
    room = dir;
    offset_fits = omega arith;
    len_fits = omega arith;
  }

  -- The directory's other slots and the count are out of the way.
  kept :
      (a : ℕ)
      → a + 2 ≤ slot_offset n
      → (a + 2 ≤ slot_offset i) ⊎ (slot_offset i + 4 ≤ a)
      → u16_at moved.bytes a ≡ u16_at m.bytes a
  kept a h q =
      slotted_other copied n i dest len slot a q
      ∙ u16_at-copy_into_other m.bytes dest source a (omega (arith, size, l.sized))
          (omega (arith, l.past))

  moved-Loop : Loop p n (suc i) moved (dest + len)
  moved-Loop = record {
    sized = slotted-length copied n i dest len slot;
    counted = kept 0 (omega arith) (omega arith) ∙ l.counted;
    past = omega (arith, l.past);
    offsets =
        λ j a b. kept (slot_offset j) (omega arith) (omega arith) ∙ l.offsets j (omega arith) b;
    lens = λ j a b. kept (slot_offset j + 2) (omega arith) (omega arith) ∙ l.lens j (omega arith) b;
    done = moved_done;
  }
    where
      moved_done : (j : ℕ) → j < suc i → offset_at moved j + length_at moved j ≤ page_size
      moved_done j h = elim (dec_lt j i) [
        | yes q ↦ omega (
          arith,
          kept (slot_offset j) (omega arith) (omega arith),
          kept (slot_offset j + 2) (omega arith) (omega arith),
          l.done j q,
        )
        | no q ↦
            let e : j ≡ i = omega arith in
            omega (
              arith,
              ap (offset_at moved) e,
              ap (length_at moved) e,
              slotted-offset copied n i dest len slot,
              slotted-len copied n i dest len slot,
              fits,
            )
      ]

  kept-Loop : len ≡ 0 → Loop p n (suc i) m (dest + len)
  kept-Loop e = record {
    sized = l.sized;
    counted = l.counted;
    past = omega (arith, l.past);
    offsets = λ j a b. l.offsets j (omega arith) b;
    lens = λ j a b. l.lens j (omega arith) b;
    done = kept_done;
  }
    where
      kept_done : (j : ℕ) → j < suc i → offset_at m j + length_at m j ≤ page_size
      kept_done j h = elim (dec_lt j i) [
        | yes q ↦ l.done j q
        | no q ↦
            let d : j ≡ i = omega arith in
            omega (
              arith,
              ap (offset_at m) d,
              ap (length_at m) d,
              l.offsets i (omega arith) used,
              l.lens i (omega arith) used,
              inside,
            )
      ]

  step :
      (m' : SlottedPage) × (compact_slot (m, dest) i ≡ ok (m', dest + len))
      × Loop p n (suc i) m' (dest + len)
  unfolding compact_slot
  step = elim (Bool-cases (len == 0)) [
    | inl e ↦ (
      m,
      ground (arith, l.offsets i (omega arith) used, l.lens i (omega arith) used, dir),
      kept-Loop (ground arith),
    )
    | inr e ↦
        let small : dest % u16_mod ≡ dest = mod-eq_of_lt (omega arith) in
        (
          moved,
          ground (
            arith,
            l.offsets i (omega arith) used,
            l.lens i (omega arith) used,
            dir,
            small,
            inside,
          ),
          moved-Loop,
        )
  ]

pub loop :
    (p : SlottedPage) (n k i : ℕ) (m : SlottedPage) (dest : ℕ)
    → i + k ≡ n
    → slot_offset n ≤ page_size
    → ((j : ℕ) → j < n → offset_at p j + length_at p j ≤ page_size)
    → dest + lengths p i k ≤ page_size
    → Loop p n i m dest
    → (m' : SlottedPage) × (compact_slots k i (m, dest) ≡ ok (m', dest + lengths p i k))
      × Loop p n n m' (dest + lengths p i k)
unfolding compact_slots lengths
loop p n zero i m dest e dir inside fits l =
    let done : i ≡ n = omega arith in
    let stay : dest ≡ dest + 0 = omega arith in
    (
      m,
      ap (λ (d : ℕ). ok (m, d)) stay,
      subst (Loop p n n m) stay (subst (λ j. Loop p n j m dest) done l),
    )
loop p n (suc k) i m dest e dir inside fits l =
    let (m', run, l') =
      step p n i m dest l (omega arith) dir (omega arith) (inside i (omega arith)) in
    let next : Loop p n (i + 1) m' (dest + length_at p i) =
      subst (λ j. Loop p n j m' (dest + length_at p i)) (omega arith) l' in
    let (m'', run', l'') =
      loop p n k (i + 1) m' (dest + length_at p i) (omega arith) dir inside (omega arith) next in
    let sum : dest + length_at p i + lengths p (i + 1) k
        ≡ dest + (length_at p i + lengths p (i + 1) k) =
      omega arith in
    (m'', rw run (run' ∙ ap (λ (d : ℕ). ok (m'', d)) sum), subst (Loop p n n m'') sum l'')

-- A record that does not fit any more.
overflows :
    (p : SlottedPage) (n i : ℕ) (m : SlottedPage) (dest : ℕ)
    → Loop p n i m dest
    → i < n
    → slot_offset n ≤ page_size
    → dest ≤ page_size
    → offset_at p i + length_at p i ≤ page_size
    → page_size < dest + length_at p i
    → compact_slot (m, dest) i ≡ panic
unfolding compact_slot
overflows p n i m dest l used dir low inside h =
    ground (arith, l.offsets i (omega arith) used, l.lens i (omega arith) used, dir, inside, h, low)

pub loop-panic :
    (p : SlottedPage) (n k i : ℕ) (m : SlottedPage) (dest : ℕ)
    → i + k ≡ n
    → slot_offset n ≤ page_size
    → ((j : ℕ) → j < n → offset_at p j + length_at p j ≤ page_size)
    → dest ≤ page_size
    → page_size < dest + lengths p i k
    → Loop p n i m dest
    → compact_slots k i (m, dest) ≡ panic
unfolding compact_slots lengths
loop-panic p n zero i m dest e dir inside low h l = absurd (omega arith)
loop-panic p n (suc k) i m dest e dir inside low h l =
    elim (dec_le (dest + length_at p i) page_size) [
      | no q ↦
          rw (overflows p n i m dest l (omega arith) dir low (inside i (omega arith)) (omega arith))
            refl
      | yes q ↦
          let (m', run, l') = step p n i m dest l (omega arith) dir q (inside i (omega arith)) in
          let next : Loop p n (i + 1) m' (dest + length_at p i) =
            subst (λ j. Loop p n j m' (dest + length_at p i)) (omega arith) l' in
          rw run (
            loop-panic p n k (i + 1) m' (dest + length_at p i) (omega arith) dir inside q
              (omega arith) next)
    ]

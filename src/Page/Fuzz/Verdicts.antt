-- ===== src/Page/Fuzz/Verdicts.antt =====
-- What the fuzz target can find.
use task_pool_concurrency_im.Prelude.{
  ℕ, zero, suc, ◌+◌, ◌-◌, ◌%◌, ◌≤◌, ◌<◌, ◌≡◌, inl, inr, refl, arith, min, List, ok, length, get_or,
  page_size, ltb, leb, ◌==◌, if-cases, ltb→lt, leb→lt,
}
use native.Mathlib.Nat.{mod-lt}
use task_pool_concurrency_im.Page.{
  SlottedPage, slice, get_slot_count, get, compact, new, slot_offset,
}
use task_pool_concurrency_im.Page.Records.{IsBounded, IsPage-IsBounded, new-IsPage, free_space-gap}
use task_pool_concurrency_im.Page.Insert.{insert-bounds}
use task_pool_concurrency_im.Page.Delete.{delete-IsBounded}
use task_pool_concurrency_im.Page.Moving.{lengths}
use task_pool_concurrency_im.Page.Compact.{compact-cases}
use task_pool_concurrency_im.Page.Fuzz.{
  check_slots, check_invariants, Turn, goes_on, breaks, compact_fails, fails, compacted,
  insert_turn, delete_turn, turn, Verdict, passed, compact_failed, failed, fuzz_loop, fuzz_target,
  proceed, max_record_size,
}

check_slots-ok :
    (page : SlottedPage) (n slot : ℕ)
    → IsBounded page
    → slot + n ≤ get_slot_count page
    → check_slots n slot page ≡ ok tt
unfolding check_slots get
check_slots-ok page zero slot v h = refl
check_slots-ok page (suc n) slot v h = ground (
  arith,
  v.inside slot (omega arith),
  v.directory,
  v.ended,
  check_slots-ok page n (slot + 1) v (omega arith),
)

-- A page within its bounds passes the checks.
check_invariants-ok : (page : SlottedPage) → IsBounded page → check_invariants page ≡ ok tt
unfolding check_invariants
check_invariants-ok page v = ground (
  arith,
  free_space-gap page v,
  v.directory,
  v.ended,
  check_slots-ok page (get_slot_count page) 0 v (omega arith),
)

-- The directory and the records of this page, within its bounds, do not fit a page one after another.
abbrev pub Overfull : SlottedPage → Type 0
Overfull page =
    IsBounded page
    × (page_size < slot_offset (get_slot_count page) + lengths page 0 (get_slot_count page))

-- An operation goes on with a page within its bounds, further on in the input.
abbrev TurnFits : ℕ → Turn → Type 0
TurnFits cursor (goes_on cursor' page') = (cursor < cursor') × IsBounded page'
TurnFits cursor breaks = Unit
TurnFits cursor (compact_fails page') = Overfull page'
TurnFits cursor fails = ⊥

insert_turn-TurnFits :
    (input : List ℕ) (cursor : ℕ) (page : SlottedPage)
    → IsBounded page
    → TurnFits cursor (insert_turn input (cursor + 1) page)
insert_turn-TurnFits input cursor page v =
    let start = cursor + 1 + 1 in
    let stop = min (start + (get_or input (cursor + 1) 0 % max_record_size + 1)) (length input) in
    let taken = slice input start (stop - start) in
    if-cases (TurnFits cursor) (leb (length input) (cursor + 1)) _ _ (λ e. tt)
      (λ e.
        if-cases (TurnFits cursor) (leb stop start) _ _ (λ e. tt)
          (λ d. elim (insert-bounds page taken v) [
            | inl run ↦ rw run (omega (arith, leb→lt stop start d), v)
            | inr (q, run, w) ↦ rw run (omega (arith, leb→lt stop start d), w)
          ]))

delete_turn-TurnFits :
    (input : List ℕ) (cursor : ℕ) (page : SlottedPage)
    → IsBounded page
    → TurnFits cursor (delete_turn input (cursor + 1) page)
delete_turn-TurnFits input cursor page v =
    let slots = get_slot_count page in
    let slot = get_or input ((cursor + 1) % length input) 0 % slots in
    if-cases (TurnFits cursor) (slots == 0) _ _ (λ e. (omega arith, v))
      (λ e.
        let some_slot : 0 < slots = ground (arith, e) in
        let (q, run, w) =
          delete-IsBounded page slot v
            (mod-lt (get_or input ((cursor + 1) % length input) 0) some_slot) in
        rw run (omega arith, w))

compacted-TurnFits :
    (cursor : ℕ) (page : SlottedPage)
    → IsBounded page
    → TurnFits cursor (compacted (cursor + 1) page (compact page))
compacted-TurnFits cursor page v = elim (compact-cases page v) [
  | inl (fits, (q, run, count, ends, w)) ↦ rw run (omega arith, w)
  | inr (over, run) ↦ rw run (v, over)
]

turn-TurnFits :
    (input : List ℕ) (cursor : ℕ) (page : SlottedPage)
    → IsBounded page
    → TurnFits cursor (turn input cursor page)
unfolding turn
turn-TurnFits input cursor page v =
    let op = get_or input cursor 0 % 3 in
    if-cases (TurnFits cursor) (op == 0) _ _ (λ e. insert_turn-TurnFits input cursor page v)
      (λ e.
        if-cases (TurnFits cursor) (op == 1) _ _ (λ e. delete_turn-TurnFits input cursor page v)
          (λ e. compacted-TurnFits cursor page v))

-- How a run ends that starts with a page within its bounds.
abbrev pub Sound : Verdict → Type 0
Sound passed = Unit
Sound (compact_failed page) = Overfull page
Sound failed = ⊥

proceed-Sound :
    (rest : ℕ → SlottedPage → Verdict) (cursor : ℕ) (next : Turn)
    → TurnFits cursor next
    → ((cursor' : ℕ) (page : SlottedPage)
        → cursor < cursor'
        → IsBounded page
        → Sound (rest cursor' page))
    → Sound (proceed rest next)
proceed-Sound rest cursor (goes_on cursor' page) (h, v) goes =
    rw (check_invariants-ok page v) (goes cursor' page h v)
proceed-Sound rest cursor breaks h goes = tt
proceed-Sound rest cursor (compact_fails page) h goes = h
proceed-Sound rest cursor fails h goes = h

fuzz_loop-Sound :
    (fuel : ℕ) (input : List ℕ) (cursor : ℕ) (page : SlottedPage)
    → IsBounded page
    → length input - cursor < fuel
    → Sound (fuzz_loop fuel input cursor page)
unfolding fuzz_loop
fuzz_loop-Sound zero input cursor page v h = absurd (omega arith)
fuzz_loop-Sound (suc fuel) input cursor page v h =
    if-cases Sound (ltb cursor (length input)) _ _
      (λ e.
        let more = ltb→lt cursor (length input) e in
        proceed-Sound (fuzz_loop fuel input) cursor (turn input cursor page)
          (turn-TurnFits input cursor page v)
          (λ cursor' page' l w. fuzz_loop-Sound fuel input cursor' page' w (omega arith)))
      (λ e. tt)

-- On no input does the fuzz target find a check that fails, a panic in `insert`, `delete` or `get`, or a run
-- without end. Each run passes, or panics in `compact`, on a page whose directory and records do not fit a
-- page one after another.
pub fuzz_target-Sound : (input : List ℕ) → Sound (fuzz_target input)
unfolding fuzz_target
fuzz_target-Sound input =
    if-cases Sound (length input == 0) _ _ (λ e. tt)
      (λ e.
        fuzz_loop-Sound (length input + 1) input 0 new (IsPage-IsBounded new new-IsPage)
          (omega arith))

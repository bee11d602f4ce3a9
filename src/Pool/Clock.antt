-- ===== src/Pool/Clock.antt =====
-- src/storage/buffer_pool/clock_replacer.rs: the CLOCK policy. The frames' own locks are left out: a
-- frame's lock is poisoned only by a panic under it. Fuel counts the revolutions of the outer loop.
pub mod Scan
pub mod Victim
mod Tests
use task_pool_concurrency_im.Prelude.{
  ℕ, zero, suc, ◌+◌, ◌%◌, List, Bool, true, false, Option, none, some, Outcome, ok, err, panic,
  IoError, if◌then◌else◌, ◌>>=◌, ◌==◌, length, get_elem?, set,
}
use task_pool_concurrency_im.Pool.Frame.{
  Frame, is_pinned, is_reserved, is_referenced, mark_unreferenced,
}

pub record ClockReplacer : Type 0 where
  pub clock_hand : ℕ

unfoldable pub new : ClockReplacer
new = record { clock_hand = 0 }

unfoldable pub advance_hand : ClockReplacer → ℕ → ClockReplacer
advance_hand c len = record { clock_hand = (c.clock_hand + 1) % len }

-- What the loops change: the hand, and the frames' reference bits.
pub record Sweep : Type 0 where
  pub clock : ClockReplacer
  pub frames : List Frame

-- How a revolution ends: with a victim, or with whether it met an unpinned frame.
pub data Revolution : Type 0 where
  victim : ℕ → Revolution
  all_seen : Bool → Revolution

-- What one round of `while scanned < len` does with the frame under the hand.
pub data Look : Type 0 where
  skipped spared : Sweep → Look
  chosen : ℕ → Sweep → Look

abbrev moved : Sweep → ℕ → List Frame → Sweep
moved s len frames = record { clock = advance_hand s.clock len; frames = frames }

unfoldable pub look : ℕ → Sweep → Outcome IoError Look
look len s =
    let id = s.clock.clock_hand in
    elim (get_elem? s.frames id) [
      | none ↦ panic
      | some frame ↦
          if is_pinned frame
          then ok (skipped (moved s len s.frames))
          else if is_reserved frame
          then ok (skipped (moved s len s.frames))
          else if is_referenced frame
          then (mark_unreferenced frame >>= λ f. ok (spared (moved s len (set s.frames id f))))
          else ok (chosen id (moved s len s.frames))
    ]

-- The inner loop, with `n` rounds left.
unfoldable pub revolve : ℕ → ℕ → Bool → Sweep → Outcome IoError (Revolution × Sweep)
revolve zero len found_unpinned s = ok (all_seen found_unpinned, s)
revolve (suc n) len found_unpinned s = elim (look len s) [
  | err e ↦ err e
  | panic ↦ panic
  | ok (skipped s') ↦ revolve n len found_unpinned s'
  | ok (spared s') ↦ revolve n len true s'
  | ok (chosen id s') ↦ ok (victim id, s')
]

-- The outer loop; with no fuel left it would be still running, which is a panic here.
unfoldable pub revolutions : ℕ → ℕ → Sweep → Outcome IoError (Option ℕ × Sweep)
revolutions zero len s = panic
revolutions (suc fuel) len s = elim (revolve len len false s) [
  | err e ↦ err e
  | panic ↦ panic
  | ok (victim id, s') ↦ ok (some id, s')
  | ok (all_seen true, s') ↦ revolutions fuel len s'
  | ok (all_seen false, s') ↦ ok (none, s')
]

unfoldable pub find_victim : ClockReplacer → List Frame → Outcome IoError (Option ℕ × Sweep)
find_victim c frames =
    let start : Sweep = record { clock = c; frames = frames } in
    if length frames == 0 then ok (none, start) else revolutions 2 (length frames) start

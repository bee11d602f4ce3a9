-- ===== src/Pool/Clock/Victim.antt =====
-- `find_victim`: two revolutions are enough, and it gives up only when no frame may be evicted.
use task_pool_concurrency_im.Prelude.{
  ℕ, zero, suc, ◌<◌, ◌≡◌, ◌⊎◌, inl, inr, refl, sym, ◌∙◌, List, [], true, false, Option, none, some,
  ◌∷◌, panic, Outcome, ok, err, IoError, arith, length, Returns, Bool-cases, ==-ne,
}
use task_pool_concurrency_im.Pool.Frame.{Frame, is_referenced}
use task_pool_concurrency_im.Pool.Clock.{
  ClockReplacer, Sweep, Revolution, victim, all_seen, revolve, revolutions, find_victim,
}
use task_pool_concurrency_im.Pool.Clock.Scan.{
  evictable, frame_at, IsKept, IsKept-evictable, Mid, Chosen, Ended, revolve-Ended, skip-Mid,
  look-cases, hand-lt,
}

-- No evictable frame has its reference bit set.
abbrev IsClean : ℕ → List Frame → Type 0
IsClean len fs =
    (i : ℕ) → i < len → evictable (frame_at fs i) ≡ true → is_referenced (frame_at fs i) ≡ false

abbrev NotSeen : Revolution × Sweep → Type 0
NotSeen (victim id, s) = Unit {0}
NotSeen (all_seen found, s) = found ≡ false

-- A round over clean frames spares none of them.
revolve-clean :
    (n len : ℕ) (fs : List Frame) (s : Sweep)
    → Mid len n false fs s
    → IsClean len s.frames
    → Returns NotSeen (revolve n len false s)
unfolding revolve
revolve-clean zero len fs s m c = refl
revolve-clean (suc n) len fs s m c = elim (look-cases len s (hand-lt len n false fs s m)) [
  | inl (e, l) ↦ rw (l, revolve) (revolve-clean n len fs _ (skip-Mid len n false fs s m e) c)
  | inr (inl (e, r, l)) ↦ absurd (ground (arith, c s.clock.clock_hand m.in_range e))
  | inr (inr (e, r, l)) ↦ rw (l, revolve) tt
]

start-Mid :
    (c : ClockReplacer) (fs gs : List Frame)
    → length gs ≡ length fs
    → c.clock_hand < length fs
    → ((i : ℕ) → IsKept (frame_at fs i) (frame_at gs i))
    → Mid (length fs) (length fs) false fs (record { clock = c; frames = gs })
start-Mid c fs gs e h k = record {
  sized = e;
  in_range = h;
  kept = k;
  visited = λ i p q v. absurd (ground arith);
  seen = λ f. cc;
}

-- What `find_victim` answers: a frame that may be evicted and is not referenced, the hand just past
-- it; or nothing, and no frame may be evicted. Nothing but reference bits has changed.
abbrev pub Found : List Frame → Option ℕ × Sweep → Type 0
Found fs (some id, s) = Chosen (length fs) fs id s × (evictable (frame_at fs id) ≡ true)
Found fs (none, s) =
    ((i : ℕ) → IsKept (frame_at fs i) (frame_at s.frames i))
    × (length s.frames ≡ length fs)
    × ((fs ≡ []) ⊎ (s.clock.clock_hand < length fs))
    × ((i : ℕ) → i < length fs → evictable (frame_at fs i) ≡ false)

revolve-Found :
    (fs : List Frame) (id : ℕ) (s : Sweep) → Chosen (length fs) fs id s → Found fs (some id, s)
revolve-Found fs id s m = (m, sym (IsKept-evictable _ _ (m.kept id)) ∙ m.open_)

unseen-Found : (fs : List Frame) (s : Sweep) → Mid (length fs) 0 false fs s → Found fs (none, s)
unseen-Found fs s m =
    (m.kept, m.sized, inr m.in_range, λ i h. sym (IsKept-evictable _ _ (m.kept i)) ∙ unseen i h)
  where
    unseen : (i : ℕ) → i < length fs → evictable (frame_at s.frames i) ≡ false
    unseen i h = elim (Bool-cases (evictable (frame_at s.frames i))) [
      | inl e ↦ absurd (ground (arith, m.visited i h (omega arith) e))
      | inr e ↦ e
    ]

-- The outer loop goes on from the result of a revolution.
module _ (fs : List Frame) (s : Sweep) where
  abbrev Goal : ℕ → Type 0
  Goal fuel = Returns (Found fs) (revolutions (suc fuel) (length fs) s)

  -- After a revolution that met evictable frames, the next one chooses.
  second_from :
      (r : Outcome IoError (Revolution × Sweep))
      → revolve (length fs) (length fs) false s ≡ r
      → Mid (length fs) 0 true fs s
      → Returns (Ended (length fs) fs) r
      → Returns NotSeen r
      → Goal 0
  unfolding revolutions
  second_from (ok (victim id, t)) e m d u = rw (e, revolutions) (revolve-Found fs id t d)
  second_from (ok (all_seen false, t)) e m d u =
      let (i, p, v) = m.seen refl in
      absurd (ground (arith, (unseen-Found fs t d).3 i p, IsKept-evictable _ _ (m.kept i), v))
  second_from (ok (all_seen true, t)) e m d u = absurd (ground (arith, u))
  second_from (err x) e m d u = absurd d
  second_from panic e m d u = absurd d

  pub second : Mid (length fs) 0 true fs s → Goal 0
  second m =
      let again = start-Mid s.clock fs s.frames m.sized m.in_range m.kept in
      second_from (revolve (length fs) (length fs) false s) refl m
        (revolve-Ended (length fs) (length fs) false fs s again)
        (revolve-clean (length fs) (length fs) fs s again
          (λ i p v. (m.visited i p (omega arith) v).1))

module _ (fs : List Frame) (s : Sweep) where
  first_from :
      (r : Outcome IoError (Revolution × Sweep))
      → revolve (length fs) (length fs) false s ≡ r
      → Returns (Ended (length fs) fs) r
      → Goal fs s 1
  unfolding revolutions
  first_from (ok (victim id, t)) e d = rw (e, revolutions) (revolve-Found fs id t d)
  first_from (ok (all_seen false, t)) e d = rw (e, revolutions) (unseen-Found fs t d)
  first_from (ok (all_seen true, t)) e d = rw (e, revolutions) (second fs t d)
  first_from (err x) e d = absurd d
  first_from panic e d = absurd d

-- With the hand in range, `find_victim` returns, without a panic or an error, and within two
-- revolutions. It answers a frame of the pool that is neither pinned nor reserved and is not
-- referenced any more, with the hand one past it; or nothing, and then every frame is pinned or
-- reserved, and the hand is in range. Only reference bits of evictable frames have been cleared.
pub find_victim-Found :
    (c : ClockReplacer) (fs : List Frame)
    → (fs ≡ []) ⊎ (c.clock_hand < length fs)
    → Returns (Found fs) (find_victim c fs)
unfolding find_victim
find_victim-Found c [] h = (λ i. inl refl, refl, inl refl, λ i p. absurd (omega arith))
find_victim-Found c (f ∷ fs) h =
    let all = f ∷ fs in
    let start : Sweep = record { clock = c; frames = all } in
    rw (==-ne (suc (length fs)) 0 (omega arith)) (
      first_from all start (revolve (length all) (length all) false start) refl (
        revolve-Ended (length all) (length all) false all start
          (start-Mid c all all refl (ground arith) (λ i. inl refl))))

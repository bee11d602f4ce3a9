-- ===== src/Pool/Clock/Scan.antt =====
-- One revolution of the hand: what it has seen, and which reference bits it has cleared.
use native.Mathlib.Nat.{mod_self, mod-eq_of_lt, mod-lt}
use task_pool_concurrency_im.Prelude.{
  ℕ, zero, suc, ◌+◌, ◌-◌, ◌%◌, ◌≤◌, ◌<◌, ◌≡◌, ◌⊎◌, inl, inr, ◌&&◌, not, refl, List, Bool, true,
  false, none, some, ok, arith, length, get_or, set, Returns, leb, if◌then◌else◌, ℕ_discrete,
  dec_lt, get_or-set, length-set, get_elem?-get_or, ap, ◌∙◌,
}
use task_pool_concurrency_im.Pool.Frame.{
  Frame, is_pinned, is_referenced, is_reserved, mark_unreferenced, new,
}
use task_pool_concurrency_im.Pool.Clock.{
  advance_hand, Sweep, Revolution, victim, all_seen, skipped, spared, chosen, look, revolve,
}

-- A frame that may be evicted.
abbrev pub evictable : Frame → Bool
evictable f = not (is_pinned f) && not (is_reserved f)

abbrev pub frame_at : List Frame → ℕ → Frame
frame_at fs i = get_or fs i new

-- The frame with its reference bit cleared.
unfoldable pub clear : Frame → Frame
clear f = elim f.metadata [
  | none ↦ f
  | some meta ↦ record f { metadata = some (record meta { reference = false }) }
]

pub clear_lem :
    (f : Frame)
    → (evictable (clear f) ≡ evictable f)
      × (is_referenced (clear f) ≡ false)
      × (clear (clear f) ≡ clear f)
unfolding clear is_pinned is_reserved is_referenced
clear_lem f = ground arith

mark_unreferenced-clear : (f : Frame) → is_referenced f ≡ true → mark_unreferenced f ≡ ok (clear f)
unfolding clear mark_unreferenced is_referenced
mark_unreferenced-clear f h = ground arith

-- A sweep keeps every frame, but for reference bits of frames that may be evicted.
abbrev pub IsKept : Frame → Frame → Type 0
IsKept f g = (g ≡ f) ⊎ ((evictable f ≡ true) × (g ≡ clear f))

IsKept-clear : (f g : Frame) → IsKept f g → evictable g ≡ true → IsKept f (clear g)
IsKept-clear f g (inl e) h = inr (ground arith, ap clear e)
IsKept-clear f g (inr (k, e)) h = inr (k, ap clear e ∙ (clear_lem f).2)

pub IsKept-evictable : (f g : Frame) → IsKept f g → evictable g ≡ evictable f
IsKept-evictable f g (inl e) = ap evictable e
IsKept-evictable f g (inr (k, e)) = ap evictable e ∙ (clear_lem f).0

-- How far ahead of the hand a frame is.
abbrev ahead : ℕ → ℕ → ℕ → ℕ
ahead len hand i = if leb hand i then i - hand else i + len - hand

next_hand :
    (len hand : ℕ)
    → hand < len
    → ((hand + 1 < len) × ((hand + 1) % len ≡ hand + 1))
      ⊎ ((hand + 1 ≡ len) × ((hand + 1) % len ≡ 0))
next_hand len hand h = elim (dec_lt (hand + 1) len) [
  | yes p ↦ inl (p, mod-eq_of_lt p)
  | no p ↦ let e : hand + 1 ≡ len = omega arith in inr (e, rw e (mod_self len))
]

-- The state between two rounds: `n` are left, and what has been passed holds no evictable frame that
-- is still referenced.
pub record Mid (len n : ℕ) (found : Bool) (fs : List Frame) (s : Sweep) : Type 0 where
  pub sized : length s.frames ≡ len
  pub in_range : s.clock.clock_hand < len
  pub kept : (i : ℕ) → IsKept (frame_at fs i) (frame_at s.frames i)
  pub visited :
      (i : ℕ)
      → i < len
      → n ≤ ahead len s.clock.clock_hand i
      → evictable (frame_at s.frames i) ≡ true
      → (found ≡ true) × (is_referenced (frame_at s.frames i) ≡ false)
  pub seen : found ≡ true → (i : ℕ) × (i < len) × (evictable (frame_at s.frames i) ≡ true)

-- What is known of a victim.
pub record Chosen (len : ℕ) (fs : List Frame) (id : ℕ) (s : Sweep) : Type 0 where
  pub sized : length s.frames ≡ len
  pub in_range : s.clock.clock_hand < len
  pub passed : s.clock.clock_hand ≡ (id + 1) % len
  pub kept : (i : ℕ) → IsKept (frame_at fs i) (frame_at s.frames i)
  pub inside : id < len
  pub open_ : evictable (frame_at s.frames id) ≡ true
  pub unreferenced : is_referenced (frame_at s.frames id) ≡ false

-- What a round does, by the frame under the hand.
pub look-cases :
    (len : ℕ) (s : Sweep)
    → s.clock.clock_hand < length s.frames
    → let f = frame_at s.frames s.clock.clock_hand in
      let c = advance_hand s.clock len in
      ((evictable f ≡ false)
        × (look len s ≡ ok (skipped (record { clock = c; frames = s.frames }))))
      ⊎ ((evictable f ≡ true)
          × (is_referenced f ≡ true)
          × (look len s
              ≡ ok (
                  spared
                    (record { clock = c; frames = set s.frames s.clock.clock_hand (clear f) }))))
      ⊎ ((evictable f ≡ true)
          × (is_referenced f ≡ false)
          × (look len s ≡ ok (chosen s.clock.clock_hand (record { clock = c; frames = s.frames }))))
unfolding look
look-cases len s h = ground (
  arith,
  get_elem?-get_or s.frames s.clock.clock_hand new h,
  mark_unreferenced-clear (frame_at s.frames s.clock.clock_hand),
)

ahead_next :
    (len hand n i : ℕ)
    → hand < len
    → i < len
    → n ≤ ahead len ((hand + 1) % len) i
    → (i ≡ hand) ⊎ (suc n ≤ ahead len hand i)
ahead_next len hand n i h p q = ground (arith, next_hand len hand h)

module _ (len n : ℕ) (found : Bool) (fs : List Frame) (s : Sweep)
    (m : Mid len (suc n) found fs s) where
  abbrev pub hand : ℕ
  hand = s.clock.clock_hand

  abbrev pub under : Frame
  under = frame_at s.frames hand

  pub hand-lt : hand < length s.frames
  hand-lt = omega (arith, m.sized, m.in_range)

  next-lt : (hand + 1) % len < len
  next-lt = mod-lt (hand + 1) (omega (arith, m.in_range))

  pub skip-Mid :
      evictable under ≡ false
      → Mid len n found fs (record { clock = advance_hand s.clock len; frames = s.frames })
  unfolding advance_hand
  skip-Mid e = record {
    sized = m.sized;
    in_range = next-lt;
    kept = m.kept;
    visited = λ i p q v. ground (arith, ahead_next len hand n i m.in_range p q, m.visited i p);
    seen = m.seen;
  }

  kept_clear :
      evictable under ≡ true
      → (i : ℕ) → IsKept (frame_at fs i) (frame_at (set s.frames hand (clear under)) i)
  kept_clear e i = elim (ℕ_discrete hand i) [
    | yes h ↦ ground (
      arith,
      get_or-set s.frames hand i (clear under) new hand-lt,
      m.kept i,
      IsKept-clear (frame_at fs i) under,
    )
    | no h ↦ ground (arith, get_or-set s.frames hand i (clear under) new hand-lt, m.kept i)
  ]

  pub spare-Mid :
      evictable under ≡ true
      → Mid len n true fs
          (record { clock = advance_hand s.clock len; frames = set s.frames hand (clear under) })
  unfolding advance_hand
  spare-Mid e = record {
    sized = omega (arith, length-set s.frames hand (clear under), m.sized);
    in_range = next-lt;
    kept = kept_clear e;
    visited = λ i p q v. ground (
      arith,
      ahead_next len hand n i m.in_range p q,
      m.visited i p,
      get_or-set s.frames hand i (clear under) new hand-lt,
      clear_lem under,
    );
    seen = λ _. (
      hand,
      m.in_range,
      ground (arith, get_or-set s.frames hand hand (clear under) new hand-lt, clear_lem under),
    );
  }

  pub look-Chosen :
      evictable under ≡ true
      → is_referenced under ≡ false
      → Chosen len fs hand (record { clock = advance_hand s.clock len; frames = s.frames })
  unfolding advance_hand
  look-Chosen e r = record {
    sized = m.sized;
    in_range = next-lt;
    passed = refl;
    kept = m.kept;
    inside = m.in_range;
    open_ = e;
    unreferenced = r;
  }

-- How a revolution that starts in such a state ends.
abbrev pub Ended : ℕ → List Frame → Revolution × Sweep → Type 0
Ended len fs (victim id, s) = Chosen len fs id s
Ended len fs (all_seen found, s) = Mid len 0 found fs s

pub revolve-Ended :
    (n len : ℕ) (found : Bool) (fs : List Frame) (s : Sweep)
    → Mid len n found fs s
    → Returns (Ended len fs) (revolve n len found s)
unfolding revolve
revolve-Ended zero len found fs s m = m
revolve-Ended (suc n) len found fs s m = elim (look-cases len s (hand-lt len n found fs s m)) [
  | inl (e, l) ↦ rw (l, revolve) (revolve-Ended n len found fs _ (skip-Mid len n found fs s m e))
  | inr (inl (e, _, l)) ↦
      rw (l, revolve) (revolve-Ended n len true fs _ (spare-Mid len n found fs s m e))
  | inr (inr (e, r, l)) ↦ rw (l, revolve) (look-Chosen len n found fs s m e r)
]

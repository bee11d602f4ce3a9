-- ===== src/Pool/System/Victims.antt =====
-- The choice of a victim when no frame is free: what it finds is the frame of a page, which nobody has
-- reserved.
use task_pool_concurrency_im.Prelude.{
  ℕ, ◌<◌, ◌≡◌, ◌⊎◌, inl, inr, refl, [], true, Option, none, some, Outcome, ok, err, panic, IoError,
  Returns, arith, length, get_elem?-get_or, get_elem?-set, if◌then◌else◌,
}
use task_pool_concurrency_im.Pool.Frame
use task_pool_concurrency_im.Pool.Frame.{
  Frame, PageMeta, free, resident, reserved, is_pinned, is_reserved,
}
use task_pool_concurrency_im.Pool.Clock
use task_pool_concurrency_im.Pool.Clock.{ClockReplacer, Sweep}
use task_pool_concurrency_im.Pool.Clock.Scan.{frame_at, evictable}
use task_pool_concurrency_im.Pool.Clock.Victim.{Found, find_victim-Found}
use task_pool_concurrency_im.Pool.PageTable.Laws.{frame_of}
use task_pool_concurrency_im.Pool.Manager.{BufferPoolManager, Victim, find_victim, reserve_victim}
use task_pool_concurrency_im.Pool.Manager.Loads.{holding}
use task_pool_concurrency_im.Pool.Manager.Writes.{with_state}
use task_pool_concurrency_im.Pool.System.{Job}
use task_pool_concurrency_im.Pool.System.Invariant.{
  Role, vacant, mapped, busy, held, full, page_of, Fits, IsSound,
}
use task_pool_concurrency_im.Pool.System.Sweep.{swept, sweep-IsSound}

-- A victim that is found, and the pool in which it is reserved.
pub record Picked (s : BufferPoolManager) (jobs : ℕ → Job) (roles : ℕ → Role) : Type 0 where
  pub after : BufferPoolManager
  pub victim : Victim
  pub sound : IsSound after jobs roles
  pub same_loads : after.in_flight_loads ≡ s.in_flight_loads
  pub same_table : after.page_table ≡ s.page_table
  pub same_next : after.next_page_id ≡ s.next_page_id
  pub found : find_victim s ≡ (after, ok (some victim.frame_id))
  pub inside : victim.frame_id < length after.frames
  pub role : roles victim.frame_id ≡ mapped victim.old_page_id
  pub paged : page_of (frame_at after.frames victim.frame_id) ≡ some victim.old_page_id
  pub tabled : frame_of after.page_table victim.old_page_id ≡ some victim.frame_id
  pub reserves : reserve_victim victim.frame_id after ≡ (
    holding after victim.frame_id (with_state (frame_at after.frames victim.frame_id) reserved),
    ok victim,
  )

-- Nothing may be evicted.
pub record NonePicked (s : BufferPoolManager) (jobs : ℕ → Job) (roles : ℕ → Role) : Type 0 where
  pub after : BufferPoolManager
  pub sound : IsSound after jobs roles
  pub found : find_victim s ≡ (after, ok none)

evictable-mapped :
    (s : BufferPoolManager) (i : ℕ) (f : Frame) (r : Role)
    → s.free_frames.guarded ≡ []
    → evictable f ≡ true
    → Fits s i f r
    → (p : ℕ) × (r ≡ mapped p)
      × (f.state ≡ resident)
      × (page_of f ≡ some p)
      × (frame_of s.page_table p ≡ some i)
unfolding is_pinned is_reserved
evictable-mapped s i f vacant q e h = absurd (ground arith)
evictable-mapped s i f (mapped p) q e h = (p, refl, h.0, h.1, h.2)
evictable-mapped s i f (busy p t) q e h = absurd (ground arith)
evictable-mapped s i f (held t) q e h = absurd (ground arith)
evictable-mapped s i f (full p t) q e h = absurd (ground arith)

-- The victim, as `reserve_victim` describes it.
abbrev pub as_victim : ℕ → ℕ → Frame → Victim
as_victim i p f = record {
  frame_id = i;
  old_page_id = p;
  dirty = Frame.is_dirty (with_state f reserved);
  old_data =
      if Frame.is_dirty (with_state f reserved)
      then Frame.read_data (with_state f reserved)
      else Frame.zero_page;
}

reserve_victim_run :
    (s : BufferPoolManager) (i p : ℕ)
    → i < length s.frames
    → (frame_at s.frames i).state ≡ resident
    → page_of (frame_at s.frames i) ≡ some p
    → reserve_victim i s ≡ (
      holding s i (with_state (frame_at s.frames i) reserved),
      ok (as_victim i p (frame_at s.frames i)),
    )
unfolding reserve_victim Frame.reserve Frame.get_page_id
reserve_victim_run s i p near state paged =
    let f = frame_at s.frames i in
    ground (
      arith,
      get_elem?-get_or s.frames i Frame.new near,
      get_elem?-set s.frames i i (with_state f reserved) near,
    )

module _ (s : BufferPoolManager) (jobs : ℕ → Job) (roles : ℕ → Role) (v : IsSound s jobs roles)
    (no_free : s.free_frames.guarded ≡ []) where
  picks_from :
      (r : Outcome IoError (Option ℕ × Sweep))
      → Clock.find_victim s.clock_replacer s.frames ≡ r
      → Returns (Found s.frames) r
      → Picked s jobs roles ⊎ NonePicked s jobs roles
  picks_from (err e) h d = absurd d
  picks_from panic h d = absurd d
  picks_from (ok (none, w)) h (kept, sized, hand, unev) = inr (record {
    after = swept s w.frames w.clock;
    sound = sweep-IsSound s jobs roles w.frames w.clock v kept sized hand;
    found = ground (arith, h);
  })
  picks_from (ok (some i, w)) h (c, open_) =
      let after = swept s w.frames w.clock in
      let sound = sweep-IsSound s jobs roles w.frames w.clock v c.kept c.sized (inr c.in_range) in
      let near : i < length w.frames = omega (arith, c.sized, c.inside) in
      let (p, role, state, paged, tabled) =
        evictable-mapped after i (frame_at w.frames i) (roles i) no_free c.open_
          (sound.frames i near) in
      inl (record {
        after = after;
        victim = as_victim i p (frame_at w.frames i);
        sound = sound;
        same_loads = refl;
        same_table = refl;
        same_next = refl;
        found = ground (arith, h);
        inside = near;
        role = role;
        paged = paged;
        tabled = tabled;
        reserves = reserve_victim_run after i p near state paged;
      })

  pub picks : Picked s jobs roles ⊎ NonePicked s jobs roles
  picks =
      picks_from (Clock.find_victim s.clock_replacer s.frames) refl
        (find_victim-Found s.clock_replacer s.frames v.hand)

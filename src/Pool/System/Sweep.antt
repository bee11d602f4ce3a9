-- ===== src/Pool/System/Sweep.antt =====
-- What the choice of a victim changes before the victim is reserved: a claim of the page that is to
-- come, the CLOCK hand, and reference bits.
use task_pool_concurrency_im.Prelude.{
  ℕ, ◌<◌, ◌≡◌, ◌⊎◌, inl, inr, refl, List, [], ◌∷◌, true, arith, length, ◌∙◌, ap, sym,
}
use task_pool_concurrency_im.Prelude.Maps.{contains_key}
use task_pool_concurrency_im.Pool.Frame.{Frame, is_pinned, is_reserved}
use task_pool_concurrency_im.Pool.Clock.{ClockReplacer}
use task_pool_concurrency_im.Pool.Clock.Scan.{frame_at, IsKept, evictable, clear}
use task_pool_concurrency_im.Pool.Manager.{BufferPoolManager}
use task_pool_concurrency_im.Pool.System.{
  Job, idle, loading, filled, evicting, flushing, deleting, creating,
}
use task_pool_concurrency_im.Pool.System.Invariant.{
  Role, vacant, mapped, busy, held, full, Fits, Awaited, JobFits, IsSound,
}

JobFits-like :
    (s s' : BufferPoolManager) (roles : ℕ → Role) (t : ℕ) (j : Job)
    → length s'.frames ≡ length s.frames
    → ((p : ℕ) → Awaited s p → Awaited s' p)
    → s'.next_page_id ≡ s.next_page_id
    → JobFits s roles t j
    → JobFits s' roles t j
JobFits-like s s' roles t idle l a n h = tt
JobFits-like s s' roles t (loading p k) l a n h = (h.0, omega (arith, h.1), a p h.2)
JobFits-like s s' roles t (filled p k) l a n h = (h.0, omega (arith, h.1), a p h.2)
JobFits-like s s' roles t (evicting p w) l a n h = (h.0, omega (arith, h.1), a p h.2)
JobFits-like s s' roles t (flushing p k) l a n h = (h.0, omega (arith, h.1))
JobFits-like s s' roles t (deleting p k) l a n h = (h.0, omega (arith, h.1))
JobFits-like s s' roles t (creating p w) l a n h = (h.0, omega (arith, h.1), h.2 ∙ sym n)

-- More claims.
pub reload-IsSound :
    (s : BufferPoolManager) (jobs : ℕ → Job) (roles : ℕ → Role) (loads : List (ℕ × Unit {0}))
    → IsSound s jobs roles
    → ((p : ℕ) → contains_key s.in_flight_loads p ≡ true → contains_key loads p ≡ true)
    → IsSound (record s { in_flight_loads = loads }) jobs roles
reload-IsSound s jobs roles loads v more = record {
  table_sound = v.table_sound;
  queue_sound = v.queue_sound;
  hand = v.hand;
  frames = λ i p. v.frames i p;
  pages = λ p i h. v.pages p i h;
  queue = λ i h. v.queue i h;
  distinct = v.distinct;
  threads = λ t.
      JobFits-like s (record s { in_flight_loads = loads }) roles t (jobs t) refl
        (λ p a. (a.0, more p a.1, a.2)) refl (v.threads t);
  loads = λ t u p h k. v.loads t u p h k;
  below = λ p i h. v.below p i h;
}

abbrev pub swept : BufferPoolManager → List Frame → ClockReplacer → BufferPoolManager
swept s fs c = record s { frames = fs; clock_replacer = c }

clear-Fits :
    (s : BufferPoolManager) (fs : List Frame) (c : ClockReplacer) (i : ℕ) (f : Frame) (r : Role)
    → evictable f ≡ true
    → Fits s i f r
    → Fits (swept s fs c) i (clear f) r
unfolding clear is_pinned is_reserved
clear-Fits s fs c i f vacant e h = (ground arith, h.1)
clear-Fits s fs c i f (mapped p) e h = (ground arith, ground arith, h.2)
clear-Fits s fs c i f (busy p t) e h = (ground arith, ground arith, h.2)
clear-Fits s fs c i f (held t) e h = ground arith
clear-Fits s fs c i f (full p t) e h = (ground arith, ground arith, ground arith)

same-Fits :
    (s : BufferPoolManager) (fs : List Frame) (c : ClockReplacer) (i : ℕ) (f : Frame) (r : Role)
    → Fits s i f r
    → Fits (swept s fs c) i f r
same-Fits s fs c i f vacant h = h
same-Fits s fs c i f (mapped p) h = h
same-Fits s fs c i f (busy p t) h = h
same-Fits s fs c i f (held t) h = h
same-Fits s fs c i f (full p t) h = h

kept-Fits :
    (s : BufferPoolManager) (fs : List Frame) (c : ClockReplacer) (i : ℕ) (f g : Frame) (r : Role)
    → IsKept f g
    → Fits s i f r
    → Fits (swept s fs c) i g r
kept-Fits s fs c i f g r (inl e) h = rw e (same-Fits s fs c i f r h)
kept-Fits s fs c i f g r (inr (k, e)) h = rw e (clear-Fits s fs c i f r k h)

-- A sweep of the CLOCK hand.
pub sweep-IsSound :
    (s : BufferPoolManager) (jobs : ℕ → Job) (roles : ℕ → Role) (fs : List Frame)
    (c : ClockReplacer)
    → IsSound s jobs roles
    → ((i : ℕ) → IsKept (frame_at s.frames i) (frame_at fs i))
    → length fs ≡ length s.frames
    → (s.frames ≡ []) ⊎ (c.clock_hand < length s.frames)
    → IsSound (swept s fs c) jobs roles
sweep-IsSound s jobs roles fs c v kept sized hand = record {
  table_sound = v.table_sound;
  queue_sound = v.queue_sound;
  hand = hand_now;
  frames = λ i p.
      kept-Fits s fs c i (frame_at s.frames i) (frame_at fs i) (roles i) (kept i)
        (v.frames i (omega (arith, sized)));
  pages = λ p i h. let (a, b) = v.pages p i h in (omega (arith, sized), b);
  queue = λ i h. let (a, b) = v.queue i h in (omega (arith, sized), b);
  distinct = v.distinct;
  threads = λ t. JobFits-like s (swept s fs c) roles t (jobs t) sized (λ p a. a) refl (v.threads t);
  loads = λ t u p h k. v.loads t u p h k;
  below = λ p i h. v.below p i h;
}
  where
    none_left : (gs : List Frame) → length gs ≡ 0 → gs ≡ []
    none_left [] h = refl
    none_left (g ∷ gs) h = absurd (omega arith)

    hand_now : (fs ≡ []) ⊎ (c.clock_hand < length fs)
    hand_now = elim hand [
      | inl e ↦ inl (none_left fs (sized ∙ ap length e))
      | inr h ↦ inr (omega (arith, sized))
    ]

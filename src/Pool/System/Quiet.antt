-- ===== src/Pool/System/Quiet.antt =====
-- Sections that leave the bytes of every frame, the page table and the next number as they are, and clean
-- no dirty frame.
use task_pool_concurrency_im.Prelude.{
  ℕ, zero, suc, ◌∷◌, ◌<◌, ◌≡◌, ◌⊎◌, inl, inr, refl, sym, ap, ◌∙◌, subst, List, [], false, Option,
  none, some, Outcome, ok, err, panic, IoError, arith, length, set, get_elem?, length-set, Returns,
  Option-cases, Outcome-cases,
}
use mathlib.Core.Option.{some-injective}
use task_pool_concurrency_im.Pool.Frame.{Frame, is_dirty}
use task_pool_concurrency_im.Pool.FreeFrames
use task_pool_concurrency_im.Pool.FreeFrames.{FreeFrames, FreeFramesError}
use task_pool_concurrency_im.Pool.Clock
use task_pool_concurrency_im.Pool.Clock.{Sweep}
use task_pool_concurrency_im.Pool.Clock.Scan.{frame_at, IsKept, clear}
use task_pool_concurrency_im.Pool.Clock.Victim.{Found, find_victim-Found}
use task_pool_concurrency_im.Pool.System.Sweep.{swept}
use task_pool_concurrency_im.Pool.Manager.Loads.{on_frame-first}
use task_pool_concurrency_im.Pool.Manager.{
  BufferPoolManager, BufferPoolError, M, proceed, ◌>>=◌, clean_up, ◌or_else◌, on_frame, find_victim,
  take_answer, get_free_frame, add_free_frame,
}

abbrev pub InRange : BufferPoolManager → Type 0
InRange s = (s.frames ≡ []) ⊎ (s.clock_replacer.clock_hand < length s.frames)

-- The same bytes, and no dirty bit cleared.
abbrev pub Like : Frame → Frame → Type 0
Like f g = (g.bytes ≡ f.bytes) × (is_dirty g ≡ false → is_dirty f ≡ false)

pub record Quiet (s s' : BufferPoolManager) : Type 0 where
  pub same_table : s'.page_table ≡ s.page_table
  pub same_next : s'.next_page_id ≡ s.next_page_id
  pub like : (k : ℕ) → Like (frame_at s.frames k) (frame_at s'.frames k)
  pub in_range : InRange s'

pub Quiet-refl : (s : BufferPoolManager) → InRange s → Quiet s s
Quiet-refl s h = record {
  same_table = refl;
  same_next = refl;
  like = λ k. (refl, λ d. d);
  in_range = h;
}

pub Quiet-trans : (s s' s'' : BufferPoolManager) → Quiet s s' → Quiet s' s'' → Quiet s s''
Quiet-trans s s' s'' a b = record {
  same_table = b.same_table ∙ a.same_table;
  same_next = b.same_next ∙ a.same_next;
  like = λ k. ((b.like k).0 ∙ (a.like k).0, λ d. (a.like k).1 ((b.like k).1 d));
  in_range = b.in_range;
}

-- However the call ends.
pub record IsQuiet {A : Type 0} (m : M A) : Type 0 where
  pub quiet : (s : BufferPoolManager) → InRange s → Quiet s ((m s).0)

proceed-Quiet :
    {A B : Type 0} (s : BufferPoolManager) (r : BufferPoolManager × Outcome BufferPoolError A)
    (f : A → M B)
    → Quiet s r.0
    → ((a : A) → IsQuiet (f a))
    → Quiet s ((proceed r f).0)
proceed-Quiet s (s', ok a) f q g = Quiet-trans s s' _ q ((g a).quiet s' q.in_range)
proceed-Quiet s (s', err e) f q g = q
proceed-Quiet s (s', panic) f q g = q

pub bind-IsQuiet :
    {A B : Type 0} (m : M A) (f : A → M B)
    → IsQuiet m
    → ((a : A) → IsQuiet (f a))
    → IsQuiet (m >>= f)
bind-IsQuiet m f q g = record { quiet = λ s h. proceed-Quiet s (m s) f (q.quiet s h) g }

clean_up-Quiet :
    {A : Type 0} (s : BufferPoolManager) (r : BufferPoolManager × Outcome BufferPoolError A)
    (f : M (Unit {0}))
    → Quiet s r.0
    → IsQuiet f
    → Quiet s ((clean_up r f).0)
clean_up-Quiet s (s', ok a) f q g = q
clean_up-Quiet {A} s (s', err e) f q g =
    proceed-Quiet {B = A} s (f s') (λ _ x. (x, err e))
      (Quiet-trans s s' _ q (g.quiet s' q.in_range)) (λ _. record { quiet = λ x h. Quiet-refl x h })
clean_up-Quiet s (s', panic) f q g = q

pub or_else-IsQuiet :
    {A : Type 0} (m : M A) (f : M (Unit {0})) → IsQuiet m → IsQuiet f → IsQuiet (m or_else f)
or_else-IsQuiet m f q g = record { quiet = λ s h. clean_up-Quiet s (m s) f (q.quiet s h) g }

-- Such a call, on a frame.
abbrev pub KeepsBytes : (Frame → Outcome IoError Frame) → Type 0
KeepsBytes call = (f g : Frame) → call f ≡ ok g → Like f g

set-Like :
    (fs : List Frame) (i : ℕ) (f g : Frame)
    → get_elem? fs i ≡ some f
    → Like f g
    → (k : ℕ) → Like (frame_at fs k) (frame_at (set fs i g) k)
set-Like [] i f g e l k = absurd (ground (arith, e))
set-Like (h ∷ fs) zero f g e l zero = subst (λ x. Like x g) (some-injective _ _ (sym e)) l
set-Like (h ∷ fs) zero f g e l (suc k) = (refl, λ d. d)
set-Like (h ∷ fs) (suc i) f g e l zero = (refl, λ d. d)
set-Like (h ∷ fs) (suc i) f g e l (suc k) = set-Like fs i f g e l k

set-InRange :
    (s : BufferPoolManager) (i : ℕ) (g : Frame)
    → InRange s
    → InRange (record s { frames = set s.frames i g })
set-InRange s i g (inl e) = inl (ap (λ (l : List Frame). set l i g) e)
set-InRange s i g (inr h) = inr (omega (arith, h, length-set s.frames i g))

on_frame-Quiet :
    (i : ℕ) (call : Frame → Outcome IoError Frame) (s : BufferPoolManager)
    → KeepsBytes call
    → InRange s
    → Quiet s ((on_frame i call s).0)
on_frame-Quiet i call s keeps h = elim (Option-cases (get_elem? s.frames i)) [
  | inl e ↦ let run : (on_frame i call s).0 ≡ s = ground (arith, e) in rw run (Quiet-refl s h)
  | inr (f, e) ↦ elim (Outcome-cases (call f)) [
    | inl (g, c) ↦ rw (on_frame-first s i call f g e c) (record {
      same_table = refl;
      same_next = refl;
      like = set-Like s.frames i f g e (keeps f g c);
      in_range = set-InRange s i g h;
    })
    | inr (inl (x, c)) ↦
        let run : (on_frame i call s).0 ≡ s = ground (arith, e, c) in rw run (Quiet-refl s h)
    | inr (inr c) ↦
        let run : (on_frame i call s).0 ≡ s = ground (arith, e, c) in rw run (Quiet-refl s h)
  ]
]

pub on_frame-IsQuiet :
    (i : ℕ) (call : Frame → Outcome IoError Frame) → KeepsBytes call → IsQuiet (on_frame i call)
on_frame-IsQuiet i call keeps = record { quiet = λ s h. on_frame-Quiet i call s keeps h }

-- What leaves the pool as it is, or changes only the parts that are not looked at here.
pub idle-Quiet : (s s' : BufferPoolManager) → s' ≡ s → InRange s → Quiet s s'
idle-Quiet s s' e h = rw e (Quiet-refl s h)

pub take_answer-Quiet :
    {A : Type 0} (s : BufferPoolManager) (o : Outcome FreeFramesError (A × FreeFrames))
    → InRange s
    → Quiet s ((take_answer s o).0)
take_answer-Quiet s (ok (a, q)) h = record {
  same_table = refl;
  same_next = refl;
  like = λ k. (refl, λ d. d);
  in_range = h;
}
take_answer-Quiet s (err e) h = Quiet-refl s h
take_answer-Quiet s panic h = Quiet-refl s h

pub get_free_frame-IsQuiet : IsQuiet get_free_frame
get_free_frame-IsQuiet = record {
  quiet = λ s h. take_answer-Quiet s (FreeFrames.get_frame s.free_frames) h;
}

add_free_frame-Quiet :
    (i : ℕ) (s : BufferPoolManager) → InRange s → Quiet s ((add_free_frame i s).0)
add_free_frame-Quiet i s h = elim (Outcome-cases (FreeFrames.add_frame s.free_frames i)) [
  | inl (q, e) ↦
      let run : (add_free_frame i s).0 ≡ record s { free_frames = q } = ground (arith, e) in
      rw run
        (record { same_table = refl; same_next = refl; like = λ k. (refl, λ d. d); in_range = h })
  | inr (inl (x, e)) ↦ idle-Quiet s _ (ground (arith, e)) h
  | inr (inr e) ↦ idle-Quiet s _ (ground (arith, e)) h
]

pub add_free_frame-IsQuiet : (i : ℕ) → IsQuiet (add_free_frame i)
add_free_frame-IsQuiet i = record { quiet = λ s h. add_free_frame-Quiet i s h }

kept-Like : (f g : Frame) → IsKept f g → Like f g
unfolding clear is_dirty
kept-Like f g (inl e) = (ap (λ (x : Frame). x.bytes) e, λ d. ap is_dirty (sym e) ∙ d)
kept-Like f g (inr (k, e)) = (ground (arith, e), λ d. ground (arith, e, d))

empty_of : (fs : List Frame) → length fs ≡ 0 → fs ≡ []
empty_of [] e = refl
empty_of (f ∷ fs) e = absurd (omega arith)

-- A sweep of the CLOCK hand.
find_victim-Quiet : (s : BufferPoolManager) → InRange s → Quiet s ((find_victim s).0)
find_victim-Quiet s h =
    swept_from (Clock.find_victim s.clock_replacer s.frames) refl
      (find_victim-Found s.clock_replacer s.frames h)
  where
    swept-InRange :
        (w : Sweep)
        → length w.frames ≡ length s.frames
        → (s.frames ≡ []) ⊎ (w.clock.clock_hand < length s.frames)
        → InRange (swept s w.frames w.clock)
    swept-InRange w sized (inl e) = inl (empty_of w.frames (sized ∙ ap length e))
    swept-InRange w sized (inr l) = inr (omega (arith, l, sized))

    swept-Quiet :
        (w : Sweep)
        → ((k : ℕ) → IsKept (frame_at s.frames k) (frame_at w.frames k))
        → InRange (swept s w.frames w.clock)
        → Quiet s (swept s w.frames w.clock)
    swept-Quiet w kept l = record {
      same_table = refl;
      same_next = refl;
      like = λ k. kept-Like (frame_at s.frames k) (frame_at w.frames k) (kept k);
      in_range = l;
    }

    swept_from :
        (r : Outcome IoError (Option ℕ × Sweep))
        → Clock.find_victim s.clock_replacer s.frames ≡ r
        → Returns (Found s.frames) r
        → Quiet s ((find_victim s).0)
    swept_from (err e) r d = absurd d
    swept_from panic r d = absurd d
    swept_from (ok (none, w)) r (kept, sized, hand, unev) =
        rw (r, find_victim) (swept-Quiet w kept (swept-InRange w sized hand))
    swept_from (ok (some i, w)) r (c, open_) =
        rw (r, find_victim) (swept-Quiet w c.kept (swept-InRange w c.sized (inr c.in_range)))

pub find_victim-IsQuiet : IsQuiet find_victim
find_victim-IsQuiet = record { quiet = λ s h. find_victim-Quiet s h }

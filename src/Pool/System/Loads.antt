-- ===== src/Pool/System/Loads.antt =====
-- A thread that brings a page into a free frame: it takes the frame, and gives it back when the page
-- could not be read, or fills it.
use task_pool_concurrency_im.Prelude.{
  ℕ, ◌≡◌, ◌≢◌, inl, inr, refl, List, [], ◌∷◌, ◌++◌, true, false, some, arith, ◌∙◌, ap, sym, subst,
  set, length-set, Bool-cases,
}
use task_pool_concurrency_im.Prelude.Maps.{contains_key, remove, find-remove}
use task_pool_concurrency_im.Pool.Frame.{Frame, free, resident, reserved, is_pinned}
use task_pool_concurrency_im.Pool.Manager.{BufferPoolManager}
use task_pool_concurrency_im.Pool.System.{Job, idle, loading, filled, update}
use task_pool_concurrency_im.Pool.System.Moves.{Moves-IsSound}
use task_pool_concurrency_im.Pool.System.Invariant.{
  Role, vacant, held, full, page_of, Awaited, JobFits, load_of, IsSound, queued, Distinct,
}
use task_pool_concurrency_im.Pool.System.Steady.{steady, steady-IsSound, Awaited-of}
use task_pool_concurrency_im.Pool.System.Queue.{queued-push, queued-push-other, Distinct-push}

-- When a load ends, the others are still claimed.
pub claims_left :
    (s : BufferPoolManager) (jobs : ℕ → Job) (roles : ℕ → Role) (t p : ℕ)
    → IsSound s jobs roles
    → load_of (jobs t) ≡ some p
    → (u q : ℕ) → u ≢ t
    → load_of (jobs u) ≡ some q
    → contains_key (remove s.in_flight_loads p) q ≡ true
claims_left s jobs roles t p v mine u q n h =
    let other : q ≢ p = λ e. n (v.loads u t q h (mine ∙ ap some (sym e))) in
    let claimed = (Awaited-of s jobs roles u q v h).1 in
    ground (arith, find-remove s.in_flight_loads p q)

pub take_free-IsSound :
    (s : BufferPoolManager) (jobs : ℕ → Job) (roles : ℕ → Role) (t p i : ℕ) (rest : List ℕ)
    (g : Frame)
    → IsSound s jobs roles
    → s.free_frames.guarded ≡ i ∷ rest
    → g.state ≡ reserved
    → Awaited s p
    → ((u q : ℕ) → load_of (jobs u) ≡ some q → q ≢ p)
    → IsSound
        (record s {
          frames = set s.frames i g;
          free_frames = record { poisoned = s.free_frames.poisoned; guarded = rest };
        })
        (update jobs t (loading p i))
        (update roles i (held t))
take_free-IsSound s jobs roles t p i rest g v front state awaited fresh =
    let (near, role) = v.queue i (ground arith) in
    let distinct : Distinct (i ∷ rest) = subst Distinct front v.distinct in
    let s' = record s {
      frames = set s.frames i g;
      free_frames = record { poisoned = s.free_frames.poisoned; guarded = rest };
    } in
    Moves-IsSound s s' jobs roles t i g (held t) (loading p i) v (record {
      inside = near;
      written = refl;
      same_hand = refl;
      table_sound = v.table_sound;
      queue_sound = v.queue_sound;
      mine = inl (ground arith);
      own_frame = state;
      other_pages = λ q k n. (λ h. h, λ h. h);
      own_pages = λ q h. let known = (v.pages q i h).1 in absurd (ground arith);
      other_queued = λ k n. ground arith;
      own_queued = λ h. absurd (ground arith);
      distinct = distinct.1;
      own_job = (ground arith, omega (arith, length-set s.frames i g), awaited);
      other_loads = λ u q n h. (Awaited-of s jobs roles u q v h, λ e. fresh u q h (ground arith));
      other_new = λ u n d h. refl;
      below = λ q h. v.below q i h;
      grows = omega arith;
    })

pub fill-IsSound :
    (s : BufferPoolManager) (jobs : ℕ → Job) (roles : ℕ → Role) (t p i : ℕ) (g : Frame)
    → IsSound s jobs roles
    → jobs t ≡ loading p i
    → g.state ≡ resident
    → page_of g ≡ some p
    → is_pinned g ≡ true
    → IsSound
        (steady s i g s.in_flight_loads s.metrics)
        (update jobs t (filled p i))
        (update roles i (full p t))
fill-IsSound s jobs roles t p i g v job state paged pinned =
    let fits : JobFits s roles t (loading p i) = subst (JobFits s roles t) job (v.threads t) in
    let role = fits.0 in
    let near = fits.1 in
    steady-IsSound s jobs roles t i g (full p t) (filled p i) s.in_flight_loads s.metrics v near
      (inr (ground arith)) (ground arith) (ground arith) (state, paged, pinned)
      (ground arith, omega (arith, length-set s.frames i g), fits.2)
      (λ u q n h. ((Awaited-of s jobs roles u q v h).1, λ e. n (v.loads u t q h (ground arith))))

pub abandon-IsSound :
    (s : BufferPoolManager) (jobs : ℕ → Job) (roles : ℕ → Role) (t p i : ℕ) (g : Frame)
    → IsSound s jobs roles
    → jobs t ≡ loading p i
    → g.state ≡ free
    → IsSound
        (record s {
          frames = set s.frames i g;
          free_frames = record { poisoned = false; guarded = s.free_frames.guarded ++ i ∷ [] };
          in_flight_loads = remove s.in_flight_loads p;
        })
        (update jobs t idle)
        (update roles i vacant)
abandon-IsSound s jobs roles t p i g v job state =
    let fits : JobFits s roles t (loading p i) = subst (JobFits s roles t) job (v.threads t) in
    let role = fits.0 in
    let near = fits.1 in
    let unqueued : queued i s.free_frames.guarded ≡ false =
      elim (Bool-cases (queued i s.free_frames.guarded)) [
        | inl e ↦ let known = (v.queue i e).1 in absurd (ground arith)
        | inr e ↦ e
      ] in
    let s' = record s {
      frames = set s.frames i g;
      free_frames = record { poisoned = false; guarded = s.free_frames.guarded ++ i ∷ [] };
      in_flight_loads = remove s.in_flight_loads p;
    } in
    Moves-IsSound s s' jobs roles t i g vacant idle v (record {
      inside = near;
      written = refl;
      same_hand = refl;
      table_sound = v.table_sound;
      queue_sound = refl;
      mine = inr (ground arith);
      own_frame = (state, queued-push i s.free_frames.guarded);
      other_pages = λ q k n. (λ h. h, λ h. h);
      own_pages = λ q h. let known = (v.pages q i h).1 in absurd (ground arith);
      other_queued = λ k n. queued-push-other i k s.free_frames.guarded n;
      own_queued = λ h. refl;
      distinct = Distinct-push i s.free_frames.guarded unqueued v.distinct;
      own_job = tt;
      other_loads = λ u q n h.
          let awaited = Awaited-of s jobs roles u q v h in
          (
            (awaited.0, claims_left s jobs roles t p v (ground arith) u q n h, awaited.2),
            ground arith,
          );
      other_new = λ u n d h. refl;
      below = λ q h. v.below q i h;
      grows = omega arith;
    })

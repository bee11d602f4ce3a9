-- ===== src/Pool/System/Table.antt =====
-- The sections that change the page table: a page comes in, in a frame that was free or in place of a
-- page that gives way, or it is deleted.
use task_pool_concurrency_im.Prelude.{
  ℕ, ◌+◌, ◌<◌, ◌≤◌, ◌≡◌, ◌≢◌, ◌⊎◌, inl, inr, refl, List, [], ◌∷◌, ◌++◌, true, false, none, some,
  arith, length, sym, subst, set, Bool-cases, ◌==◌, if◌then◌else◌, set-get_or,
}
use task_pool_concurrency_im.Prelude.Maps.{
  contains_key, insert, remove, find, find-remove, find-insert,
}
use task_pool_concurrency_im.Pool.Frame
use task_pool_concurrency_im.Pool.Frame.{Frame, free, resident, reserved, is_pinned}
use task_pool_concurrency_im.Pool.Metrics.{BufferPoolMetrics}
use task_pool_concurrency_im.Pool.Clock.Scan.{frame_at}
use task_pool_concurrency_im.Pool.PageTable.{PageTable}
use task_pool_concurrency_im.Pool.PageTable.Laws.{frame_of, moved_find}
use task_pool_concurrency_im.Pool.Manager.{BufferPoolManager}
use task_pool_concurrency_im.Pool.System.{new_of, Job, idle, filled, update}
use task_pool_concurrency_im.Pool.System.Moves.{Moves-IsSound}
use task_pool_concurrency_im.Pool.System.Invariant.{
  Role, owner, vacant, mapped, busy, full, page_of, Fits, JobFits, load_of, IsSound, queued,
  Distinct,
}
use task_pool_concurrency_im.Pool.System.Steady.{Awaited-of}
use task_pool_concurrency_im.Pool.System.Loads.{claims_left}
use task_pool_concurrency_im.Pool.System.Queue.{queued-push, queued-push-other, Distinct-push}

abbrev pub listed : BufferPoolManager → List (ℕ × ℕ) → PageTable
listed s pages = record { poisoned = s.page_table.poisoned; guarded = pages }

pub publish-IsSound :
    (s : BufferPoolManager) (jobs : ℕ → Job) (roles : ℕ → Role) (t p i : ℕ)
    → IsSound s jobs roles
    → jobs t ≡ filled p i
    → IsSound
        (record s {
          page_table = listed s (insert s.page_table.guarded p i);
          in_flight_loads = remove s.in_flight_loads p;
        })
        (update jobs t idle)
        (update roles i (mapped p))
publish-IsSound s jobs roles t p i v job =
    let fits : JobFits s roles t (filled p i) = subst (JobFits s roles t) job (v.threads t) in
    let role = fits.0 in
    let near = fits.1 in
    let f = frame_at s.frames i in
    let own : Fits s i f (full p t) = subst (Fits s i f) role (v.frames i near) in
    let maps = λ (q : ℕ). find-insert s.page_table.guarded p q i in
    let s' = record s {
      page_table = listed s (insert s.page_table.guarded p i);
      in_flight_loads = remove s.in_flight_loads p;
    } in
    Moves-IsSound s s' jobs roles t i f (mapped p) idle v (record {
      inside = near;
      written = sym (set-get_or s.frames i Frame.new);
      same_hand = refl;
      table_sound = v.table_sound;
      queue_sound = v.queue_sound;
      mine = inr (ground arith);
      own_frame = (own.0, own.1, ground (arith, maps p));
      other_pages = λ q k n.
          let absent = fits.2.0 in (λ h. ground (arith, maps q), λ h. ground (arith, maps q));
      own_pages = λ q h.
          let known = λ (h : frame_of s.page_table q ≡ some i). (v.pages q i h).1 in
          ground (arith, maps q, known);
      other_queued = λ k n. refl;
      own_queued = λ h. let known = (v.queue i h).1 in absurd (ground arith);
      distinct = v.distinct;
      own_job = tt;
      other_loads = λ u q n h.
          let awaited = Awaited-of s jobs roles u q v h in
          let other : q ≢ p = λ e. n (v.loads u t q h (ground arith)) in
          (
            (
              ground (arith, maps q, awaited.0),
              claims_left s jobs roles t p v (ground arith) u q n h,
              awaited.2,
            ),
            ground arith,
          );
      other_new = λ u n d h. refl;
      below = λ q h.
          let mine = fits.2.2 in
          let known = λ (h : frame_of s.page_table q ≡ some i). v.below q i h in
          ground (arith, maps q, known);
      grows = omega arith;
    })

-- A page in place of another.
abbrev pub exchanged :
    BufferPoolManager
    → ℕ
    → Frame
    → ℕ
    → ℕ
    → List (ℕ × Unit {0})
    → BufferPoolMetrics
    → ℕ
    → BufferPoolManager
exchanged s i g old n loads m next = record s {
  frames = set s.frames i g;
  page_table = listed s (insert (remove s.page_table.guarded old) n i);
  in_flight_loads = loads;
  metrics = m;
  next_page_id = next;
}

pub exchange-IsSound :
    (s : BufferPoolManager) (jobs : ℕ → Job) (roles : ℕ → Role) (t i : ℕ) (g : Frame) (old n : ℕ)
    (loads : List (ℕ × Unit {0})) (m : BufferPoolMetrics) (next : ℕ)
    → IsSound s jobs roles
    → i < length s.frames
    → roles i ≡ busy old t
    → frame_of s.page_table n ≡ none
    → g.state ≡ resident
    → page_of g ≡ some n
    → n < next
    → s.next_page_id ≤ next
    → ((u q : ℕ) → u ≢ t → load_of (jobs u) ≡ some q → (q ≢ n) × (contains_key loads q ≡ true))
    → ((u q : ℕ) → u ≢ t → new_of (jobs u) ≡ some q → next ≡ s.next_page_id)
    → IsSound (exchanged s i g old n loads m next) (update jobs t idle) (update roles i (mapped n))
exchange-IsSound s jobs roles t i g old n loads m next v near role absent state paged low grows
      others news =
    let own : Fits s i (frame_at s.frames i) (busy old t) =
      subst (Fits s i (frame_at s.frames i)) role (v.frames i near) in
    let here = own.2 in
    let maps : (q : ℕ)
        → find (insert (remove s.page_table.guarded old) n i) q
          ≡ (if n == q then some i else if old == q then none else find s.page_table.guarded q) =
      moved_find s.page_table.guarded old n i in
    let known = λ (q : ℕ) (h : frame_of s.page_table q ≡ some i). (v.pages q i h).1 in
    Moves-IsSound s (exchanged s i g old n loads m next) jobs roles t i g (mapped n) idle v
      (record {
        inside = near;
        written = refl;
        same_hand = refl;
        table_sound = v.table_sound;
        queue_sound = v.queue_sound;
        mine = inr (ground arith);
        own_frame = (state, paged, ground (arith, maps n));
        other_pages = λ q k d. (λ h. ground (arith, maps q), λ h. ground (arith, maps q));
        own_pages = λ q h. ground (arith, maps q, known q);
        other_queued = λ k d. refl;
        own_queued = λ h. let free = (v.queue i h).1 in absurd (ground arith);
        distinct = v.distinct;
        own_job = tt;
        other_loads = λ u q d h.
            let awaited = Awaited-of s jobs roles u q v h in
            let (other, claimed) = others u q d h in
            ((ground (arith, maps q, awaited.0), claimed, omega (arith, awaited.2)), ground arith);
        other_new = λ u q d h. news u q d h;
        below = λ q h. ground (arith, maps q, known q);
        grows = grows;
      })

-- A page that leaves the pool; its frame is free again.
abbrev pub forgotten : BufferPoolManager → ℕ → ℕ → Frame → BufferPoolManager
forgotten s p i g = record s {
  frames = set s.frames i g;
  page_table = record { poisoned = false; guarded = remove s.page_table.guarded p };
  free_frames = record { poisoned = false; guarded = s.free_frames.guarded ++ i ∷ [] };
}

pub forget-IsSound :
    (s : BufferPoolManager) (jobs : ℕ → Job) (roles : ℕ → Role) (t p i : ℕ) (g : Frame)
    → IsSound s jobs roles
    → frame_of s.page_table p ≡ some i
    → (owner (roles i) ≡ none) ⊎ (owner (roles i) ≡ some t)
    → g.state ≡ free
    → IsSound (forgotten s p i g) (update jobs t idle) (update roles i vacant)
forget-IsSound s jobs roles t p i g v here mine state =
    let (near, page) = v.pages p i here in
    let maps = λ (q : ℕ). find-remove s.page_table.guarded p q in
    let known = λ (q : ℕ) (h : frame_of s.page_table q ≡ some i). (v.pages q i h).1 in
    let unqueued : queued i s.free_frames.guarded ≡ false =
      elim (Bool-cases (queued i s.free_frames.guarded)) [
        | inl e ↦ let empty = (v.queue i e).1 in absurd (ground arith)
        | inr e ↦ e
      ] in
    Moves-IsSound s (forgotten s p i g) jobs roles t i g vacant idle v (record {
      inside = near;
      written = refl;
      same_hand = refl;
      table_sound = refl;
      queue_sound = refl;
      mine = mine;
      own_frame = (state, queued-push i s.free_frames.guarded);
      other_pages = λ q k d. (λ h. ground (arith, maps q), λ h. ground (arith, maps q));
      own_pages = λ q h. absurd (ground (arith, maps q, known q));
      other_queued = λ k n. queued-push-other i k s.free_frames.guarded n;
      own_queued = λ h. refl;
      distinct = Distinct-push i s.free_frames.guarded unqueued v.distinct;
      own_job = tt;
      other_loads = λ u q n h.
          let awaited = Awaited-of s jobs roles u q v h in
          ((ground (arith, maps q, awaited.0), awaited.1, awaited.2), ground arith);
      other_new = λ u q d h. refl;
      below = λ q h. absurd (ground (arith, maps q, known q));
      grows = omega arith;
    })

-- A new page in the first free frame.
abbrev pub enlarged : BufferPoolManager → ℕ → List ℕ → Frame → BufferPoolManager
enlarged s i rest g = record s {
  frames = set s.frames i g;
  page_table = listed s (insert s.page_table.guarded s.next_page_id i);
  free_frames = record { poisoned = s.free_frames.poisoned; guarded = rest };
  next_page_id = s.next_page_id + 1;
}

pub enlarge-IsSound :
    (s : BufferPoolManager) (jobs : ℕ → Job) (roles : ℕ → Role) (t i : ℕ) (rest : List ℕ)
    (g : Frame)
    → IsSound s jobs roles
    → s.free_frames.guarded ≡ i ∷ rest
    → g.state ≡ resident
    → page_of g ≡ some s.next_page_id
    → ((u : ℕ) → u ≢ t → new_of (jobs u) ≡ none)
    → IsSound (enlarged s i rest g) (update jobs t idle) (update roles i (mapped s.next_page_id))
enlarge-IsSound s jobs roles t i rest g v front state paged alone =
    let (near, role) = v.queue i (ground arith) in
    let distinct : Distinct (i ∷ rest) = subst Distinct front v.distinct in
    let n = s.next_page_id in
    let maps = λ (q : ℕ). find-insert s.page_table.guarded n q i in
    let known = λ (q : ℕ) (h : frame_of s.page_table q ≡ some i). (v.pages q i h).1 in
    let low = λ (q k : ℕ) (h : frame_of s.page_table q ≡ some k). v.below q k h in
    Moves-IsSound s (enlarged s i rest g) jobs roles t i g (mapped n) idle v (record {
      inside = near;
      written = refl;
      same_hand = refl;
      table_sound = v.table_sound;
      queue_sound = v.queue_sound;
      mine = inl (ground arith);
      own_frame = (state, paged, ground (arith, maps n));
      other_pages = λ q k d. (λ h. ground (arith, maps q), λ h. ground (arith, maps q, low q k h));
      own_pages = λ q h. ground (arith, maps q, known q);
      other_queued = λ k d. ground arith;
      own_queued = λ h. absurd (ground arith);
      distinct = distinct.1;
      own_job = tt;
      other_loads = λ u q d h.
          let awaited = Awaited-of s jobs roles u q v h in
          (
            (ground (arith, maps q, awaited.0, awaited.2), awaited.1, omega (arith, awaited.2)),
            ground arith,
          );
      other_new = λ u q d h. let none_new = alone u d in absurd (ground arith);
      below = λ q h. let known_low = low q i in ground (arith, maps q, known_low);
      grows = omega arith;
    })

-- ===== src/Pool/System/Moves.antt =====
-- A section that changes one frame and its role keeps all roles right.
use task_pool_concurrency_im.Prelude.{
  ℕ, ◌≤◌, ◌<◌, ◌≡◌, ◌≢◌, ◌⊎◌, inl, inr, refl, List, true, false, none, some, arith, length, set,
  ◌==◌, if◌then◌else◌, ℕ_discrete, ◌∙◌, ap, sym, get_or-set, length-set,
}
use task_pool_concurrency_im.Pool.Frame
use task_pool_concurrency_im.Pool.Frame.{Frame, free, reserved, resident, is_pinned}
use task_pool_concurrency_im.Pool.Clock.{ClockReplacer}
use task_pool_concurrency_im.Pool.Clock.Scan.{frame_at}
use task_pool_concurrency_im.Pool.PageTable.Laws.{frame_of}
use task_pool_concurrency_im.Pool.Manager.{BufferPoolManager}
use task_pool_concurrency_im.Pool.System.{
  Job, idle, loading, filled, evicting, flushing, deleting, creating, update, new_of,
}
use task_pool_concurrency_im.Pool.System.Invariant.{
  Role, vacant, mapped, busy, held, full, role_page, owner, queued, Distinct, Fits, Awaited,
  JobFits, load_of, IsSound,
}

-- A section of thread `t` that gives the frame `i` the role `r`, and the thread the job `j`.
pub record Moves (s s' : BufferPoolManager) (jobs : ℕ → Job) (roles : ℕ → Role) (t i : ℕ)
    (f : Frame) (r : Role) (j : Job) : Type 0 where
  pub inside : i < length s.frames
  pub written : s'.frames ≡ set s.frames i f
  pub same_hand : s'.clock_replacer ≡ s.clock_replacer
  pub table_sound : s'.page_table.poisoned ≡ false
  pub queue_sound : s'.free_frames.poisoned ≡ false
  pub mine : (owner (roles i) ≡ none) ⊎ (owner (roles i) ≡ some t)
  pub own_frame : Fits s' i f r
  pub other_pages :
      (p k : ℕ)
      → k ≢ i
      → (frame_of s'.page_table p ≡ some k → frame_of s.page_table p ≡ some k)
        × (frame_of s.page_table p ≡ some k → frame_of s'.page_table p ≡ some k)
  pub own_pages : (p : ℕ) → frame_of s'.page_table p ≡ some i → role_page r ≡ some p
  pub other_queued :
      (k : ℕ) → k ≢ i → queued k s'.free_frames.guarded ≡ queued k s.free_frames.guarded
  pub own_queued : queued i s'.free_frames.guarded ≡ true → r ≡ vacant
  pub distinct : Distinct s'.free_frames.guarded
  pub own_job : JobFits s' (update roles i r) t j
  pub other_loads :
      (u p : ℕ) → u ≢ t → load_of (jobs u) ≡ some p → Awaited s' p × (load_of j ≢ some p)
  pub other_new : (u n : ℕ) → u ≢ t → new_of (jobs u) ≡ some n → s'.next_page_id ≡ s.next_page_id
  pub below : (p : ℕ) → frame_of s'.page_table p ≡ some i → p < s'.next_page_id
  pub grows : s.next_page_id ≤ s'.next_page_id

Fits-other :
    (s s' : BufferPoolManager) (k : ℕ) (f : Frame) (r : Role)
    → ((p : ℕ) → frame_of s.page_table p ≡ some k → frame_of s'.page_table p ≡ some k)
    → queued k s'.free_frames.guarded ≡ queued k s.free_frames.guarded
    → Fits s k f r
    → Fits s' k f r
Fits-other s s' k f vacant h q a = (a.0, q ∙ a.1)
Fits-other s s' k f (mapped p) h q a = (a.0, a.1, h p a.2)
Fits-other s s' k f (busy p t) h q a = (a.0, a.1, h p a.2)
Fits-other s s' k f (held t) h q a = a
Fits-other s s' k f (full p t) h q a = a

-- Another thread's job, whose frame is not the one that changes.
JobFits-other :
    (s s' : BufferPoolManager) (roles : ℕ → Role) (t i u : ℕ) (r : Role) (j : Job)
    → u ≢ t
    → (owner (roles i) ≡ none) ⊎ (owner (roles i) ≡ some t)
    → length s'.frames ≡ length s.frames
    → ((p : ℕ) → load_of j ≡ some p → Awaited s' p)
    → ((n : ℕ) → new_of j ≡ some n → s'.next_page_id ≡ s.next_page_id)
    → JobFits s roles u j
    → JobFits s' (update roles i r) u j
JobFits-other s s' roles t i u r idle n m l a b h = tt
JobFits-other s s' roles t i u r (loading p k) n m l a b h = (ground arith, omega arith, a p refl)
JobFits-other s s' roles t i u r (filled p k) n m l a b h = (ground arith, omega arith, a p refl)
JobFits-other s s' roles t i u r (evicting p v) n m l a b h = (ground arith, omega arith, a p refl)
JobFits-other s s' roles t i u r (flushing p k) n m l a b h = (ground arith, omega arith)
JobFits-other s s' roles t i u r (deleting p k) n m l a b h = (ground arith, omega arith)
JobFits-other s s' roles t i u r (creating p v) n m l a b h =
    (ground arith, omega arith, h.2 ∙ sym (b p refl))

module _ (s s' : BufferPoolManager) (jobs : ℕ → Job) (roles : ℕ → Role) (t i : ℕ) (f : Frame)
    (r : Role) (j : Job) (v : IsSound s jobs roles) (m : Moves s s' jobs roles t i f r j) where
  abbrev roles' : ℕ → Role
  roles' = update roles i r

  abbrev jobs' : ℕ → Job
  jobs' = update jobs t j

  same_length : length s'.frames ≡ length s.frames
  same_length = ap length m.written ∙ length-set s.frames i f

  frame_now : (k : ℕ) → frame_at s'.frames k ≡ (if i == k then f else frame_at s.frames k)
  frame_now k =
      ap (λ (l : List Frame). frame_at l k) m.written ∙ get_or-set s.frames i k f Frame.new m.inside

  frames_now : (k : ℕ) → k < length s'.frames → Fits s' k (frame_at s'.frames k) (roles' k)
  frames_now k p = elim (ℕ_discrete i k) [
    | yes e ↦
        let here : frame_at s'.frames k ≡ f = ground (arith, frame_now k) in
        let role : roles' k ≡ r = ground arith in rw (here, role, sym e) m.own_frame
    | no n ↦
        let here : frame_at s'.frames k ≡ frame_at s.frames k = ground (arith, frame_now k) in
        let role : roles' k ≡ roles k = ground arith in
        rw (here, role)
          (Fits-other s s' k (frame_at s.frames k) (roles k)
            (λ p. (m.other_pages p k (λ e. n (sym e))).1) (m.other_queued k (λ e. n (sym e)))
            (v.frames k (omega (arith, same_length))))
  ]

  pages_now :
      (p k : ℕ)
      → frame_of s'.page_table p ≡ some k
      → (k < length s'.frames) × (role_page (roles' k) ≡ some p)
  pages_now p k h = elim (ℕ_discrete i k) [
    | yes e ↦ (omega (arith, m.inside, same_length), ground (arith, m.own_pages p))
    | no n ↦
        let (a, b) = v.pages p k ((m.other_pages p k (λ e. n (sym e))).0 h) in
        (omega (arith, same_length), ground arith)
  ]

  queue_now :
      (k : ℕ)
      → queued k s'.free_frames.guarded ≡ true
      → (k < length s'.frames) × (roles' k ≡ vacant)
  queue_now k h = elim (ℕ_discrete i k) [
    | yes e ↦ (omega (arith, m.inside, same_length), ground (arith, m.own_queued))
    | no n ↦
        let same = m.other_queued k (λ e. n (sym e)) in
        let (a, b) = v.queue k (sym same ∙ h) in (omega (arith, same_length), ground arith)
  ]

  threads_now : (u : ℕ) → JobFits s' roles' u (jobs' u)
  threads_now u = elim (ℕ_discrete t u) [
    | yes e ↦ let job : jobs' u ≡ j = ground arith in rw (job, sym e) m.own_job
    | no n ↦
        let job : jobs' u ≡ jobs u = ground arith in
        rw job (
          JobFits-other s s' roles t i u r (jobs u) (λ e. n (sym e)) m.mine same_length
            (λ p h. (m.other_loads u p (λ e. n (sym e)) h).0)
            (λ p h. m.other_new u p (λ e. n (sym e)) h) (v.threads u))
  ]

  loads_now : (u w p : ℕ) → load_of (jobs' u) ≡ some p → load_of (jobs' w) ≡ some p → u ≡ w
  loads_now u w p a b = elim (ℕ_discrete t u) [
    | yes e ↦ elim (ℕ_discrete t w) [
      | yes d ↦ sym e ∙ d
      | no n ↦
          let (x, y) = m.other_loads w p (λ d. n (sym d)) (ground arith) in
          absurd (ground (arith, y))
    ]
    | no n ↦ elim (ℕ_discrete t w) [
      | yes d ↦
          let (x, y) = m.other_loads u p (λ e. n (sym e)) (ground arith) in
          absurd (ground (arith, y))
      | no k ↦ v.loads u w p (ground arith) (ground arith)
    ]
  ]

  below_now : (p k : ℕ) → frame_of s'.page_table p ≡ some k → p < s'.next_page_id
  below_now p k h = elim (ℕ_discrete i k) [
    | yes e ↦ m.below p (ground arith)
    | no n ↦
        let old = v.below p k ((m.other_pages p k (λ e. n (sym e))).0 h) in omega (arith, m.grows)
  ]

  hand_now : s'.clock_replacer.clock_hand < length s'.frames
  hand_now = elim v.hand [
    | inl e ↦ absurd (omega (arith, ap length e, m.inside))
    | inr h ↦ omega (arith, same_length, ap (λ (c : ClockReplacer). c.clock_hand) m.same_hand)
  ]

  -- Such a section keeps the pool sound.
  pub Moves-IsSound : IsSound s' jobs' roles'
  Moves-IsSound = record {
    table_sound = m.table_sound;
    queue_sound = m.queue_sound;
    hand = inr hand_now;
    frames = frames_now;
    pages = pages_now;
    queue = queue_now;
    distinct = m.distinct;
    threads = threads_now;
    loads = loads_now;
    below = below_now;
  }

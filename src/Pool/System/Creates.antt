-- ===== src/Pool/System/Creates.antt =====
-- A thread that makes a new page.
use task_pool_concurrency_im.Prelude.{
  ℕ, ◌+◌, ◌<◌, ◌≡◌, ◌≢◌, ◌⊎◌, inl, inr, refl, List, [], ◌∷◌, false, none, Outcome, ok, arith,
  length-set, ap, sym, subst, get_elem?-get_or, get_elem?-lt, Option-cases, dec_lt,
}
use task_pool_concurrency_im.Pool.Frame
use task_pool_concurrency_im.Pool.Frame.{Frame, free, resident, reserved, zero_page}
use task_pool_concurrency_im.Pool.FreeFrames
use task_pool_concurrency_im.Pool.FreeFrames.{FreeFrames}
use task_pool_concurrency_im.Pool.PageTable.Laws.{frame_of}
use task_pool_concurrency_im.Pool.Clock.Scan.{frame_at}
use task_pool_concurrency_im.Pool.Manager.{BufferPoolManager, BufferPoolError, Victim, on_frame}
use task_pool_concurrency_im.Pool.Manager.Create
use task_pool_concurrency_im.Pool.Manager.Create.{Begun, made, begin_new_page, commit_new_page}
use task_pool_concurrency_im.Pool.Manager.Loads.{
  holding, on_frame-first, on_frame-holding, load_page-fresh, pin-fresh, mark-pinned,
}
use task_pool_concurrency_im.Pool.Manager.Writes.{with_state}
use task_pool_concurrency_im.Pool.Manager.Evictions.{replace_run, IsEvicting}
use task_pool_concurrency_im.Pool.Manager.Creates.{
  zero_page-length, new_frame, mark_dirty-loaded, make_run,
}
use task_pool_concurrency_im.Pool.System.{new_of, Job, idle, creating, update, begun_job}
use task_pool_concurrency_im.Pool.System.Invariant.{Role, mapped, busy, JobFits, IsSound}
use task_pool_concurrency_im.Pool.System.Steady.{Awaited-of, same_job-IsSound}
use task_pool_concurrency_im.Pool.System.Touch.{IsConsistent}
use task_pool_concurrency_im.Pool.System.Reserve.{busy-Owned, release-IsSound, reserve-IsSound}
use task_pool_concurrency_im.Pool.System.Table.{
  exchanged, exchange-IsSound, enlarged, enlarge-IsSound,
}
use task_pool_concurrency_im.Pool.System.Victims.{Picked, NonePicked, picks}

module _ (s : BufferPoolManager) (jobs : ℕ → Job) (t : ℕ) where
  abbrev Begins : BufferPoolManager × Outcome BufferPoolError Begun → Type 0
  Begins r = IsConsistent r.0 (update jobs t (begun_job r.1))

  Begins-at_rest :
      (r : BufferPoolManager × Outcome BufferPoolError Begun) (s' : BufferPoolManager)
      (roles : ℕ → Role)
      → jobs t ≡ idle
      → r.0 ≡ s'
      → begun_job r.1 ≡ idle
      → IsSound s' jobs roles
      → Begins r
  Begins-at_rest r s' roles rests e d v =
      (roles, rw (e, d) (same_job-IsSound s' jobs roles t idle rests v))

  grows :
      (roles : ℕ → Role) (i : ℕ) (rest : List ℕ)
      → IsSound s jobs roles
      → ((u : ℕ) → u ≢ t → new_of (jobs u) ≡ none)
      → s.next_page_id < 65535
      → s.free_frames.guarded ≡ i ∷ rest
      → Begins (begin_new_page s)
  unfolding begin_new_page FreeFrames.get_frame
  grows roles i rest v alone room front =
      let n = s.next_page_id in
      let (near, role) = v.queue i (ground arith) in
      let there = get_elem?-get_or s.frames i Frame.new near in
      let taken = record s {
        free_frames = record { poisoned = s.free_frames.poisoned; guarded = rest };
      } in
      let run : begin_new_page s ≡ (enlarged s i rest (new_frame n), ok (made n i)) = ground (
        arith,
        v.queue_sound,
        front,
        room,
        make_run taken n i (frame_at s.frames i) there v.table_sound,
      ) in
      rw run (
        update roles i (mapped n),
        enlarge-IsSound s jobs roles t i rest (new_frame n) v front refl refl alone,
      )

  -- With no frame free, a victim is chosen in the pool `s`.
  Begins-evicting :
      (s' : BufferPoolManager) (roles : ℕ → Role)
      → s' ≡ record s { free_frames = record s.free_frames { guarded = [] } }
      → IsSound s' jobs roles
      → jobs t ≡ idle
      → s.free_frames.poisoned ≡ false
      → s.next_page_id < 65535
      → s.free_frames.guarded ≡ []
      → Picked (record s { free_frames = record s.free_frames { guarded = [] } }) jobs roles
        ⊎ NonePicked (record s { free_frames = record s.free_frames { guarded = [] } }) jobs roles
      → Begins (begin_new_page s)
  unfolding begin_new_page FreeFrames.get_frame
  Begins-evicting s' roles same v rests good room no_free (inl k) =
      let n = s.next_page_id in
      let i = k.victim.frame_id in
      let g = with_state (frame_at k.after.frames i) reserved in
      let run : begin_new_page s ≡ (holding k.after i g, ok (Create.evicting n k.victim)) =
        ground (arith, good, room, no_free, k.found, k.reserves) in
      rw run (
        update roles i (busy k.victim.old_page_id t),
        reserve-IsSound k.after jobs roles k.victim.old_page_id t i g (creating n k.victim) k.sound
            k.inside k.role refl k.paged k.tabled
            (ground arith, omega (arith, k.inside, length-set k.after.frames i g), sym k.same_next)
            (λ u q d h. ground arith),
      )
  Begins-evicting s' roles same v rests good room no_free (inr k) =
      let found = k.found in
      Begins-at_rest (begin_new_page s) k.after roles rests (ground arith) (ground arith) k.sound

  list_cases : (is : List ℕ) → (is ≡ []) ⊎ ((i : ℕ) × (rest : List ℕ) × (is ≡ i ∷ rest))
  list_cases [] = inl refl
  list_cases (i ∷ rest) = inr (i, rest, refl)

  pub Begins-new :
      IsConsistent s jobs
      → jobs t ≡ idle
      → ((u : ℕ) → u ≢ t → new_of (jobs u) ≡ none)
      → Begins (begin_new_page s)
  Begins-new (roles, v) rests alone = elim (dec_lt s.next_page_id 65535) [
    | no h ↦
        Begins-at_rest (begin_new_page s) s roles rests (unfold begin_new_page in ground arith)
          (unfold begin_new_page in ground arith) v
    | yes room ↦ elim (list_cases s.free_frames.guarded) [
      | inr (i, rest, e) ↦ grows roles i rest v alone room e
      | inl e ↦
          let emptied = record s { free_frames = record s.free_frames { guarded = [] } } in
          let same : s ≡ emptied =
            ap (λ (l : List ℕ). record s { free_frames = record s.free_frames { guarded = l } })
              e in
          let v' = subst (λ (x : BufferPoolManager). IsSound x jobs roles) same v in
          Begins-evicting emptied roles refl v' rests v.queue_sound room e
            (picks emptied jobs roles v' refl)
    ]
  ]

  module _ (n : ℕ) (w : Victim) where
    -- The victim could not be written.
    pub keeps_new :
        IsConsistent s jobs
        → jobs t ≡ creating n w
        → IsConsistent ((on_frame w.frame_id Frame.set_resident s).0) (update jobs t idle)
    keeps_new (roles, v) job =
        let i = w.frame_id in
        let fits : JobFits s roles t (creating n w) = subst (JobFits s roles t) job (v.threads t) in
        let own = busy-Owned s jobs roles w.old_page_id t i v fits.1 fits.0 in
        let f = frame_at s.frames i in
        let g = with_state f resident in
        let done : Frame.set_resident f ≡ ok g = unfold Frame.set_resident in refl in
        (
          update roles i (mapped w.old_page_id),
          rw (on_frame-first s i Frame.set_resident f g own.there done) (
              release-IsSound s jobs roles w.old_page_id t i g s.in_flight_loads s.metrics v fits.1
                fits.0 refl own.paged (λ u q d h. (Awaited-of s jobs roles u q v h).1)),
        )

    pub commit_new_run :
        IsEvicting s n w
        → commit_new_page n w s ≡ (
          exchanged s w.frame_id (new_frame n) w.old_page_id n s.in_flight_loads s.metrics (n + 1),
          ok (n, w.frame_id),
        )
    unfolding commit_new_page
    commit_new_run e =
        let i = w.frame_id in
        let near = get_elem?-lt s.frames i e.frame e.in_frame in
        let load = λ (f : Frame). Frame.load_page f n zero_page in
        rw
          (
            on_frame-first s i load e.frame _ e.in_frame
                (load_page-fresh e.frame n zero_page zero_page-length),
            on_frame-holding s i Frame.pin _ _ near (pin-fresh n zero_page),
            on_frame-holding s i Frame.mark_referenced _ _ near (mark-pinned n zero_page),
            on_frame-holding s i Frame.mark_dirty _ _ near (mark_dirty-loaded n),
            replace_run s n w e,
          )
          refl

    pub commits_new :
        IsConsistent s jobs
        → jobs t ≡ creating n w
        → ((u : ℕ) → u ≢ t → new_of (jobs u) ≡ none)
        → IsConsistent ((commit_new_page n w s).0) (update jobs t idle)
    commits_new (roles, v) job alone =
        let i = w.frame_id in
        let fits : JobFits s roles t (creating n w) = subst (JobFits s roles t) job (v.threads t) in
        let own = busy-Owned s jobs roles w.old_page_id t i v fits.1 fits.0 in
        let next = fits.2 in
        let absent : frame_of s.page_table n ≡ none =
          elim (Option-cases (frame_of s.page_table n)) [
            | inl e ↦ e
            | inr (k, e) ↦ let low = v.below n k e in absurd (omega (arith, low, next))
          ] in
        let evicts : IsEvicting s n w = record {
          sound = v.table_sound;
          frame = frame_at s.frames i;
          in_frame = own.there;
          mapped = own.tabled;
          absent = absent;
        } in
        (
          update roles i (mapped n),
          rw (commit_new_run evicts) (
              exchange-IsSound s jobs roles t i (new_frame n) w.old_page_id n s.in_flight_loads
                s.metrics (n + 1) v fits.1 fits.0 absent refl refl (omega arith)
                (omega (arith, next))
                (λ u q d h.
                  let awaited = Awaited-of s jobs roles u q v h in
                  (λ e. omega (arith, e, awaited.2, next), awaited.1))
                (λ u q d h. let none_new = alone u d in absurd (ground arith))),
        )

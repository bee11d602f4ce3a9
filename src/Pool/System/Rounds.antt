-- ===== src/Pool/System/Rounds.antt =====
-- A round of `fetch_page`, on every branch.
use task_pool_concurrency_im.Prelude.{
  ℕ, ◌<◌, ◌≡◌, ◌≢◌, ◌⊎◌, inl, inr, refl, List, [], ◌∷◌, Bool, true, false, none, some, Outcome, ok,
  arith, ◌∙◌, ap, sym, subst, get_elem?-get_or, length-set, Option-cases, Bool-cases,
}
use task_pool_concurrency_im.Prelude.Maps.{contains_key, insert, find-insert}
use task_pool_concurrency_im.Pool.Frame
use task_pool_concurrency_im.Pool.Frame.{Frame, free, resident, reserved}
use task_pool_concurrency_im.Pool.Metrics
use task_pool_concurrency_im.Pool.PageTable
use task_pool_concurrency_im.Pool.FreeFrames
use task_pool_concurrency_im.Pool.FreeFrames.{FreeFrames}
use task_pool_concurrency_im.Pool.Clock.Scan.{frame_at}
use task_pool_concurrency_im.Pool.PageTable.Laws.{frame_of}
use task_pool_concurrency_im.Pool.Manager.{BufferPoolManager, BufferPoolError}
use task_pool_concurrency_im.Pool.Manager.Fetch.{
  Decision, load_into, evict, decide, miss, choose_frame, choose_victim, claim_load, use_resident,
}
use task_pool_concurrency_im.Pool.Manager.Loads.{holding}
use task_pool_concurrency_im.Pool.Manager.Writes.{with_state}
use task_pool_concurrency_im.Pool.System.{Job, idle, evicting, update, decided}
use task_pool_concurrency_im.Pool.System.Invariant.{
  Role, vacant, busy, held, Fits, Awaited, load_of, IsSound,
}
use task_pool_concurrency_im.Pool.System.Steady.{recount-IsSound, same_job-IsSound, Awaited-of}
use task_pool_concurrency_im.Pool.System.Touch.{IsConsistent}
use task_pool_concurrency_im.Pool.System.Uses.{hit-IsSound, use_resident-idle}
use task_pool_concurrency_im.Pool.System.Sweep.{reload-IsSound}
use task_pool_concurrency_im.Pool.System.Reserve.{reserve-IsSound}
use task_pool_concurrency_im.Pool.System.Loads.{take_free-IsSound}
use task_pool_concurrency_im.Pool.System.Victims.{Picked, picks}

-- How the round leaves the pool, with the thread's new job.
abbrev pub Goes : (ℕ → Job) → ℕ → ℕ → BufferPoolManager × Outcome BufferPoolError Decision → Type 0
Goes jobs t p r = IsConsistent r.0 (update jobs t (decided p r.1))

module _ (jobs : ℕ → Job) (t p : ℕ) (rests : jobs t ≡ idle) where
  idle-Goes :
      (r : BufferPoolManager × Outcome BufferPoolError Decision) (s : BufferPoolManager)
      (roles : ℕ → Role)
      → r.0 ≡ s
      → decided p r.1 ≡ idle
      → IsSound s jobs roles
      → Goes jobs t p r
  idle-Goes r s roles e d v = (roles, rw (e, d) (same_job-IsSound s jobs roles t idle rests v))

  module _ (s : BufferPoolManager) (roles : ℕ → Role) (v : IsSound s jobs roles)
      (awaited : Awaited s p) (fresh : (u q : ℕ) → load_of (jobs u) ≡ some q → q ≢ p) where
    evict-Goes : Picked s jobs roles → Goes jobs t p (choose_victim s)
    unfolding choose_victim
    evict-Goes k =
        let i = k.victim.frame_id in
        let g = with_state (frame_at k.after.frames i) reserved in
        let run : choose_victim s ≡ (holding k.after i g, ok (evict k.victim)) =
          ground (arith, k.found, k.reserves) in
        let awaited' : Awaited k.after p = (
          ap (λ t. frame_of t p) k.same_table ∙ awaited.0,
          ap (λ (l : List (ℕ × Unit {0})). contains_key l p) k.same_loads ∙ awaited.1,
          omega (arith, k.same_next, awaited.2),
        ) in
        rw run (
          update roles i (busy k.victim.old_page_id t),
          reserve-IsSound k.after jobs roles k.victim.old_page_id t i g (evicting p k.victim)
              k.sound k.inside k.role refl k.paged k.tabled
              (ground arith, omega (arith, k.inside, length-set k.after.frames i g), awaited')
              (λ u q n h e. fresh u q h (ground arith)),
        )

    choose_victim-Goes : s.free_frames.guarded ≡ [] → Goes jobs t p (choose_victim s)
    choose_victim-Goes no_free = elim (picks s jobs roles v no_free) [
      | inl k ↦ evict-Goes k
      | inr k ↦
          let found = k.found in
          idle-Goes (choose_victim s) k.after roles (unfold choose_victim in ground arith)
            (unfold choose_victim in ground arith) k.sound
    ]

    take-Goes :
        (i : ℕ) (rest : List ℕ)
        → s.free_frames.guarded ≡ i ∷ rest
        → Goes jobs t p (choose_frame p s)
    unfolding choose_frame FreeFrames.get_frame Frame.reserve
    take-Goes i rest front =
        let (near, role) = v.queue i (ground arith) in
        let f = frame_at s.frames i in
        let fits : Fits s i f vacant = subst (Fits s i f) role (v.frames i near) in
        let g = with_state f reserved in
        let taken = record s {
          free_frames = record { poisoned = s.free_frames.poisoned; guarded = rest };
        } in
        let there = get_elem?-get_or s.frames i Frame.new near in
        let run : choose_frame p s ≡ (holding taken i g, ok (load_into i)) =
          ground (arith, v.queue_sound, front, there, fits.0) in
        rw run (
          update roles i (held t),
          take_free-IsSound s jobs roles t p i rest g v front refl awaited fresh,
        )

    list_cases : (is : List ℕ) → (is ≡ []) ⊎ ((i : ℕ) × (rest : List ℕ) × (is ≡ i ∷ rest))
    list_cases [] = inl refl
    list_cases (i ∷ rest) = inr (i, rest, refl)

    choose_frame-Goes : Goes jobs t p (choose_frame p s)
    choose_frame-Goes = elim (list_cases s.free_frames.guarded) [
      | inl e ↦
          let same : record s.free_frames { guarded = [] } ≡ s.free_frames =
            ap (λ (l : List ℕ). record s.free_frames { guarded = l }) (sym e) in
          let same_pool : record s { free_frames = record s.free_frames { guarded = [] } } ≡ s =
            ap (λ (q : FreeFrames). record s { free_frames = q }) same in
          let run : choose_frame p s
              ≡ choose_victim (record s { free_frames = record s.free_frames { guarded = [] } }) =
            unfold choose_frame FreeFrames.get_frame in ground (arith, v.queue_sound, e) in
          subst (Goes jobs t p) (sym (run ∙ ap choose_victim same_pool)) (choose_victim-Goes e)
      | inr (i, rest, e) ↦ take-Goes i rest e
    ]

  miss-Goes :
      (s : BufferPoolManager) (roles : ℕ → Role)
      → IsSound s jobs roles
      → frame_of s.page_table p ≡ none
      → p < s.next_page_id
      → Goes jobs t p (miss p s)
  unfolding miss claim_load
  miss-Goes s roles v absent low = elim (Bool-cases (contains_key s.in_flight_loads p)) [
    | inl e ↦ idle-Goes (miss p s) s roles (ground arith) (ground arith) v
    | inr e ↦
        let loads = insert s.in_flight_loads p tt in
        let claimed = record s { in_flight_loads = loads } in
        let run : miss p s ≡ choose_frame p claimed = ground arith in
        let has = λ (q : ℕ). find-insert s.in_flight_loads p q tt in
        rw run (
          choose_frame-Goes claimed roles
            (reload-IsSound s jobs roles loads v (λ q h. ground (arith, has q)))
            (absent, ground (arith, has p), low)
            (λ u q h d. let awaited = (Awaited-of s jobs roles u q v h).1 in absurd (ground arith)))
  ]

  -- A round keeps the pool right, whatever it decides.
  pub decide-Goes :
      (s : BufferPoolManager) (b : Bool)
      → IsConsistent s jobs
      → p < s.next_page_id
      → Goes jobs t p (decide b p s)
  unfolding decide PageTable.get_frame_id
  decide-Goes s b (roles, v) low = elim (Option-cases (frame_of s.page_table p)) [
    | inr (i, e) ↦
        let run : decide b p s ≡ use_resident i s = ground (arith, v.table_sound) in
        rw run (
          idle-Goes (use_resident i s) ((use_resident i s).0) roles refl (use_resident-idle s p i)
            (hit-IsSound s jobs roles p i v e))
    | inl e ↦ elim b as (λ k. Goes jobs t p (decide k p s)) [
      | true ↦
          let run : decide true p s ≡ miss p s = ground (arith, v.table_sound) in
          rw run (miss-Goes s roles v e low)
      | false ↦
          let m = Metrics.record_miss s.metrics in
          let run : decide false p s ≡ miss p (record s { metrics = m }) =
            ground (arith, v.table_sound) in
          rw run
            (miss-Goes (record s { metrics = m }) roles (recount-IsSound s jobs roles m v) e low)
    ]
  ]

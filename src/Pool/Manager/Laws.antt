-- ===== src/Pool/Manager/Laws.antt =====
-- What the sections of the buffer pool do on each of their branches.
use task_pool_concurrency_im.Prelude.{
  ℕ, ◌≡◌, ◌≢◌, inl, inr, refl, Bool, true, false, Option, none, some, Outcome, ok, err, panic,
  arith, Option-cases, Bool-cases,
}
use task_pool_concurrency_im.Prelude.Maps.{find, insert, find-insert, contains_key}
use task_pool_concurrency_im.Pool.Metrics
use task_pool_concurrency_im.Pool.PageTable
use task_pool_concurrency_im.Pool.FreeFrames
use task_pool_concurrency_im.Pool.FreeFrames.{FreeFrames, FreeFramesError}
use task_pool_concurrency_im.Pool.Manager.{
  BufferPoolManager, BufferPoolError, no_evictable_frame, reserve_victim, proceed, take_answer,
}
use task_pool_concurrency_im.Pool.Manager.Fetch.{
  decide, choose_frame, choose_victim, claim_load, miss, use_resident, wait_for_load, Decision,
  claim_frame,
}

-- Neither the table nor the loads of a pool have changed.
abbrev SameLoads : BufferPoolManager → BufferPoolManager → Type 0
SameLoads s s' = (s'.page_table ≡ s.page_table) × (s'.in_flight_loads ≡ s.in_flight_loads)

choose_victim-same :
    (s s' : BufferPoolManager) → choose_victim s ≡ (s', err no_evictable_frame) → SameLoads s s'
unfolding choose_victim reserve_victim
choose_victim-same s s' h = ground arith

use_resident-evictable :
    (s s' : BufferPoolManager) (frame_id : ℕ)
    → use_resident frame_id s ≢ (s', err no_evictable_frame)
unfolding use_resident
use_resident-evictable s s' frame_id h = ground arith

-- `choose_frame` by the answer of the queue of free frames.
abbrev chosen_by :
    ℕ
    → BufferPoolManager
    → Outcome FreeFramesError (Option ℕ × FreeFrames)
    → BufferPoolManager × Outcome BufferPoolError Decision
chosen_by page_id s r = proceed (take_answer s r) (claim_frame page_id)

choose_frame-same :
    (s s' : BufferPoolManager) (page_id : ℕ)
    → choose_frame page_id s ≡ (s', err no_evictable_frame)
    → SameLoads s s'
unfolding choose_frame
choose_frame-same s s' page_id h = on_free (FreeFrames.get_frame s.free_frames) h
  where
    on_free :
        (r : Outcome FreeFramesError (Option ℕ × FreeFrames))
        → chosen_by page_id s r ≡ (s', err no_evictable_frame)
        → SameLoads s s'
    on_free (err e) g = ground arith
    on_free panic g = ground arith
    on_free (ok (none, q)) g = choose_victim-same (record s { free_frames = q }) s' g
    on_free (ok (some frame_id, q)) g = ground arith

-- The pool has no frame for the page, and a load of it is under way.
record IsLoading (page_id : ℕ) (s : BufferPoolManager) : Type 0 where
  sound : s.page_table.poisoned ≡ false
  absent : find s.page_table.guarded page_id ≡ none
  claimed : contains_key s.in_flight_loads page_id ≡ true

miss-IsLoading :
    (s s' : BufferPoolManager) (page_id : ℕ)
    → s.page_table.poisoned ≡ false
    → find s.page_table.guarded page_id ≡ none
    → miss page_id s ≡ (s', err no_evictable_frame)
    → IsLoading page_id s'
unfolding miss claim_load
miss-IsLoading s s' page_id p q h = elim (Bool-cases (contains_key s.in_flight_loads page_id)) [
  | inl there ↦ absurd (ground arith)
  | inr new ↦
      let claim = record s { in_flight_loads = insert s.in_flight_loads page_id tt } in
      let (t, l) = choose_frame-same claim s' page_id (ground arith) in
      record {
        sound = ground arith;
        absent = rw t q;
        claimed = rw l (ground (arith, find-insert s.in_flight_loads page_id page_id tt));
      }
]

decide-waits :
    (s : BufferPoolManager) (page_id : ℕ) (b : Bool)
    → IsLoading page_id s
    → (decide b page_id s).1 ≡ ok wait_for_load
unfolding decide miss claim_load PageTable.get_frame_id
decide-waits s page_id true l = rw (l.sound, l.absent, l.claimed) refl
decide-waits s page_id false l = rw (l.sound, l.absent, l.claimed) refl

-- A round that fails for want of a victim had not found the page.
failed-IsLoading :
    (s s' : BufferPoolManager) (page_id : ℕ) (b : Bool)
    → s.page_table.poisoned ≡ false
    → find s.page_table.guarded page_id ≡ none
    → decide b page_id s ≡ (s', err no_evictable_frame)
    → IsLoading page_id s'
unfolding decide PageTable.get_frame_id
failed-IsLoading s s' page_id true p q h = miss-IsLoading s s' page_id p q (ground arith)
failed-IsLoading s s' page_id false p q h =
    miss-IsLoading (record s { metrics = Metrics.record_miss s.metrics }) s' page_id p q
      (ground arith)

-- A round of `fetch_page` that fails for want of a frame to evict leaves its claim to the load behind:
-- in the pool as it leaves it, a round of any fetch of that page decides to wait for a load to end.
pub decide-strands :
    (s s' : BufferPoolManager) (page_id : ℕ) (first then_first : Bool)
    → decide first page_id s ≡ (s', err no_evictable_frame)
    → (decide then_first page_id s').1 ≡ ok wait_for_load
unfolding decide PageTable.get_frame_id
decide-strands s s' page_id first then_first h = elim (Bool-cases s.page_table.poisoned) [
  | inl bad ↦ absurd (ground arith)
  | inr good ↦ elim (Option-cases (find s.page_table.guarded page_id)) [
    | inr (v, e) ↦ absurd (use_resident-evictable s s' v (ground arith))
    | inl e ↦ decide-waits s' page_id then_first (failed-IsLoading s s' page_id first good e h)
  ]
]

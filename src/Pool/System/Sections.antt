-- ===== src/Pool/System/Sections.antt =====
-- The sections that leave the bytes of every frame, the page table and the next number as they are.
use task_pool_concurrency_im.Prelude.{
  ℕ, ◌≡◌, refl, List, Bool, true, false, Option, none, some, Outcome, IoError, arith, if◌then◌else◌,
  Bool-cases, inl, inr,
}
use task_pool_concurrency_im.Prelude.Maps.{contains_key, insert}
use task_pool_concurrency_im.Pool.Frame
use task_pool_concurrency_im.Pool.Frame.{Frame, is_dirty}
use task_pool_concurrency_im.Pool.Metrics
use task_pool_concurrency_im.Pool.Metrics.{BufferPoolMetrics}
use task_pool_concurrency_im.Pool.Manager
use task_pool_concurrency_im.Pool.Manager.{
  BufferPoolManager, BufferPoolError, M, ◌>>=◌, ◌>>◌, ◌or_else◌, on_frame, find_victim, end_load,
  count, lookup, get_free_frame, add_free_frame, reserve_victim, return, fail, lift, Victim,
  no_evictable_frame,
}
use task_pool_concurrency_im.Pool.Manager.Fetch.{
  resident_in, wait_for_frame, wait_for_load, load_into, evict, use_resident, claim_load,
  choose_victim, claim_frame, choose_frame, miss, decide, abandon_free_frame, keep_victim,
}
use task_pool_concurrency_im.Pool.Manager.Flush.{unpin_page, mark_dirty_page, begin_flush}
use task_pool_concurrency_im.Pool.System.{
  System, Step, counts, decides, abandons, fills, publishes, keeps, commits, unpins, marks,
  begins_flush, finishes_flush, begins_delete, finishes_delete, begins_new, keeps_new, commits_new,
}
use task_pool_concurrency_im.Pool.System.Quiet.{
  InRange, Quiet, IsQuiet, bind-IsQuiet, or_else-IsQuiet, on_frame-IsQuiet, idle-Quiet,
  get_free_frame-IsQuiet, add_free_frame-IsQuiet, find_victim-IsQuiet,
}
use task_pool_concurrency_im.Pool.System.Rules.{
  reserve-KeepsBytes, set_resident-KeepsBytes, set_free-KeepsBytes, pin-KeepsBytes,
  unpin-KeepsBytes, mark_referenced-KeepsBytes, mark_dirty-KeepsBytes, return-IsQuiet, fail-IsQuiet,
  frame_at-IsQuiet, count-IsQuiet, end_load-IsQuiet, if-IsQuiet, lift-IsQuiet, option-IsQuiet,
  lookup-IsQuiet, pool-IsQuiet,
}

use_resident-IsQuiet : (i : ℕ) → IsQuiet (use_resident i)
unfolding use_resident
use_resident-IsQuiet i = bind-IsQuiet (Manager.frame_at i) _ (frame_at-IsQuiet i) (λ f.
    if-IsQuiet (Frame.is_reserved f) _ _ (return-IsQuiet wait_for_frame) (
      bind-IsQuiet (count Metrics.record_hit) _ (count-IsQuiet Metrics.record_hit) (λ _.
        bind-IsQuiet (on_frame i Frame.pin) _ (on_frame-IsQuiet i Frame.pin pin-KeepsBytes) (λ _.
          bind-IsQuiet (on_frame i Frame.mark_referenced) _
            (on_frame-IsQuiet i Frame.mark_referenced mark_referenced-KeepsBytes)
            (λ _. return-IsQuiet (resident_in i))))))

pub reserve_victim-IsQuiet : (i : ℕ) → IsQuiet (reserve_victim i)
unfolding reserve_victim
reserve_victim-IsQuiet i =
    bind-IsQuiet (on_frame i Frame.reserve) _ (on_frame-IsQuiet i Frame.reserve reserve-KeepsBytes)
      (λ _. bind-IsQuiet (Manager.frame_at i) _ (frame_at-IsQuiet i) (λ f.
        bind-IsQuiet (lift Manager.frame_error (Frame.get_page_id f)) _
          (lift-IsQuiet Manager.frame_error (Frame.get_page_id f)) (λ p. return-IsQuiet _)))

choose_victim-IsQuiet : IsQuiet choose_victim
unfolding choose_victim
choose_victim-IsQuiet = bind-IsQuiet find_victim _ find_victim-IsQuiet (λ found.
    bind-IsQuiet Manager.pool _ pool-IsQuiet (λ s.
      option-IsQuiet found _ _
        (if-IsQuiet _ _ _ (return-IsQuiet wait_for_frame) (fail-IsQuiet no_evictable_frame))
        (λ i.
          bind-IsQuiet (reserve_victim i) _ (reserve_victim-IsQuiet i)
            (λ v. return-IsQuiet (evict v)))))

claim_load-Quiet : (p : ℕ) (s : BufferPoolManager) → InRange s → Quiet s ((claim_load p s).0)
unfolding claim_load
claim_load-Quiet p s h = elim (Bool-cases (contains_key s.in_flight_loads p)) [
  | inl e ↦ idle-Quiet s _ (ground (arith, e)) h
  | inr e ↦
      let run : (claim_load p s).0 ≡ record s { in_flight_loads = insert s.in_flight_loads p tt } =
        ground (arith, e) in
      rw run
        (record { same_table = refl; same_next = refl; like = λ k. (refl, λ d. d); in_range = h })
]

claim_load-IsQuiet : (p : ℕ) → IsQuiet (claim_load p)
claim_load-IsQuiet p = record { quiet = λ s h. claim_load-Quiet p s h }

claim_frame-IsQuiet : (p : ℕ) (free : Option ℕ) → IsQuiet (claim_frame p free)
claim_frame-IsQuiet p none = choose_victim-IsQuiet
claim_frame-IsQuiet p (some i) =
    bind-IsQuiet (on_frame i Frame.reserve or_else (add_free_frame i >> end_load p)) _
      (or_else-IsQuiet (on_frame i Frame.reserve) (add_free_frame i >> end_load p)
        (on_frame-IsQuiet i Frame.reserve reserve-KeepsBytes)
        (bind-IsQuiet (add_free_frame i) _ (add_free_frame-IsQuiet i) (λ _. end_load-IsQuiet p)))
      (λ _. return-IsQuiet (load_into i))

miss-IsQuiet : (p : ℕ) → IsQuiet (miss p)
unfolding miss choose_frame
miss-IsQuiet p = bind-IsQuiet (claim_load p) _ (claim_load-IsQuiet p) (λ mine.
    if-IsQuiet mine _ _
      (bind-IsQuiet get_free_frame _ get_free_frame-IsQuiet (λ free. claim_frame-IsQuiet p free))
      (return-IsQuiet wait_for_load))

-- A round of `fetch_page`, whatever it decides.
pub decide-IsQuiet : (miss_recorded : Bool) (p : ℕ) → IsQuiet (decide miss_recorded p)
unfolding decide
decide-IsQuiet miss_recorded p = bind-IsQuiet (lookup p) _ (lookup-IsQuiet p) (λ found.
    option-IsQuiet found _ _
      (bind-IsQuiet (if miss_recorded then return tt else count Metrics.record_miss) _
        (if-IsQuiet miss_recorded _ _ (return-IsQuiet tt) (count-IsQuiet Metrics.record_miss))
        (λ _. miss-IsQuiet p))
      (λ i. use_resident-IsQuiet i))

pub abandon_free_frame-IsQuiet : (p i : ℕ) → IsQuiet (abandon_free_frame p i)
unfolding abandon_free_frame
abandon_free_frame-IsQuiet p i =
    bind-IsQuiet (on_frame i Frame.set_free) _
      (on_frame-IsQuiet i Frame.set_free set_free-KeepsBytes)
      (λ _. bind-IsQuiet (add_free_frame i) _ (add_free_frame-IsQuiet i) (λ _. end_load-IsQuiet p))

pub keep_victim-IsQuiet : (p i : ℕ) → IsQuiet (keep_victim p i)
unfolding keep_victim
keep_victim-IsQuiet p i =
    bind-IsQuiet (on_frame i Frame.set_resident) _
      (on_frame-IsQuiet i Frame.set_resident set_resident-KeepsBytes) (λ _. end_load-IsQuiet p)

pub unpin_page-IsQuiet : (p : ℕ) → IsQuiet (unpin_page p)
unfolding unpin_page
unpin_page-IsQuiet p = bind-IsQuiet (lookup p) _ (lookup-IsQuiet p) (λ found.
    option-IsQuiet found _ _ (fail-IsQuiet (Manager.page_not_found p)) (λ i.
      bind-IsQuiet (Manager.frame_at i) _ (frame_at-IsQuiet i) (λ f.
        if-IsQuiet (Frame.is_reserved f) _ _ (fail-IsQuiet Manager.frame_reserved)
          (on_frame-IsQuiet i Frame.unpin unpin-KeepsBytes))))

pub mark_dirty_page-IsQuiet : (p : ℕ) → IsQuiet (mark_dirty_page p)
unfolding mark_dirty_page
mark_dirty_page-IsQuiet p = bind-IsQuiet (lookup p) _ (lookup-IsQuiet p) (λ found.
    option-IsQuiet found _ _ (fail-IsQuiet (Manager.page_not_found p)) (λ i.
      bind-IsQuiet (Manager.frame_at i) _ (frame_at-IsQuiet i) (λ f.
        if-IsQuiet (Frame.is_reserved f) _ _ (fail-IsQuiet Manager.frame_reserved)
          (on_frame-IsQuiet i Frame.mark_dirty mark_dirty-KeepsBytes))))

pub begin_flush-IsQuiet :
    (write_page : ℕ → List ℕ → Outcome IoError (Unit {0})) (p : ℕ)
    → IsQuiet (begin_flush write_page p)
unfolding begin_flush
begin_flush-IsQuiet write_page p = bind-IsQuiet (lookup p) _ (lookup-IsQuiet p) (λ found.
    option-IsQuiet found _ _ (fail-IsQuiet (Manager.page_not_found p)) (λ i.
      bind-IsQuiet (Manager.frame_at i) _ (frame_at-IsQuiet i) (λ f.
        if-IsQuiet (Frame.is_reserved f) _ _ (fail-IsQuiet Manager.frame_reserved) (
          bind-IsQuiet (on_frame i Frame.reserve) _
            (on_frame-IsQuiet i Frame.reserve reserve-KeepsBytes)
            (λ _. if-IsQuiet (Frame.is_dirty f) _ _ (return-IsQuiet (some i)) (
              bind-IsQuiet (on_frame i Frame.set_resident) _
                (on_frame-IsQuiet i Frame.set_resident set_resident-KeepsBytes)
                (λ _. return-IsQuiet none)))))))

-- The sections that take no page into a frame and none out of it, and write none back.
abbrev pub leaves_pages : {z x : System} → Step z x → Bool
leaves_pages counts = true
leaves_pages (decides t p b rests low) = true
leaves_pages (abandons t p i job) = true
leaves_pages (keeps t p v job) = true
leaves_pages (unpins p) = true
leaves_pages (marks p) = true
leaves_pages (begins_flush write_page t p rests) = true
leaves_pages (keeps_new t n v job) = true
leaves_pages _ = false

-- With the CLOCK hand in range, a section that starts a round of `fetch_page` or a flush, that gives up a
-- load or an eviction, that unpins or marks a page, or that counts, on any pool and however it ends: the
-- bytes of every frame, the page table and the next number are as before, no dirty bit has been cleared,
-- and the hand is in range.
pub Step-Quiet :
    (z x : System) (step : Step z x)
    → InRange z.pool
    → leaves_pages step ≡ true
    → Quiet z.pool x.pool
Step-Quiet z x counts h l = (count-IsQuiet Metrics.record_fetch).quiet z.pool h
Step-Quiet z x (decides t p b rests low) h l = (decide-IsQuiet b p).quiet z.pool h
Step-Quiet z x (abandons t p i job) h l = (abandon_free_frame-IsQuiet p i).quiet z.pool h
Step-Quiet z x (keeps t p v job) h l = (keep_victim-IsQuiet p v.frame_id).quiet z.pool h
Step-Quiet z x (unpins p) h l = (unpin_page-IsQuiet p).quiet z.pool h
Step-Quiet z x (marks p) h l = (mark_dirty_page-IsQuiet p).quiet z.pool h
Step-Quiet z x (begins_flush write_page t p rests) h l =
    (begin_flush-IsQuiet write_page p).quiet z.pool h
Step-Quiet z x (keeps_new t n v job) h l =
    (on_frame-IsQuiet v.frame_id Frame.set_resident set_resident-KeepsBytes).quiet z.pool h
Step-Quiet z x (fills t p i buffer job sized) h l = absurd (ground (arith, l))
Step-Quiet z x (publishes t p i job) h l = absurd (ground (arith, l))
Step-Quiet z x (commits t p v buffer job sized) h l = absurd (ground (arith, l))
Step-Quiet z x (finishes_flush write_page t p i job total) h l = absurd (ground (arith, l))
Step-Quiet z x (begins_delete write_page t p rests) h l = absurd (ground (arith, l))
Step-Quiet z x (finishes_delete write_page t p i job takes) h l = absurd (ground (arith, l))
Step-Quiet z x (begins_new t rests alone) h l = absurd (ground (arith, l))
Step-Quiet z x (commits_new t n v job) h l = absurd (ground (arith, l))

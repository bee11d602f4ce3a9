-- ===== src/Pool/System/Growth.antt =====
-- Making a page keeps the bytes of the pages that stay in the table, as any other section does.
use task_pool_concurrency_im.Prelude.{
  ℕ, ◌+◌, ◌<◌, ◌≡◌, ◌⊎◌, inl, inr, refl, sym, subst, List, [], ◌∷◌, true, none, some, Outcome, ok,
  IoError, arith, get_elem?-get_or, dec_lt, Option-cases,
}
use task_pool_concurrency_im.Prelude.Maps.{find-insert}
use task_pool_concurrency_im.Pool.Frame
use task_pool_concurrency_im.Pool.FreeFrames
use task_pool_concurrency_im.Pool.Clock.Scan.{frame_at}
use task_pool_concurrency_im.Pool.PageTable.Laws.{frame_of, moved_find}
use task_pool_concurrency_im.Pool.Manager
use task_pool_concurrency_im.Pool.Manager.{
  BufferPoolManager, M, Victim, ◌>>=◌, find_victim, reserve_victim, return, fail,
  no_evictable_frame,
}
use task_pool_concurrency_im.Pool.Manager.Evictions.{IsEvicting}
use task_pool_concurrency_im.Pool.Manager.Create
use task_pool_concurrency_im.Pool.Manager.Create.{Begun, made, begin_new_page, commit_new_page}
use task_pool_concurrency_im.Pool.Manager.Creates.{new_frame, make_run}
use task_pool_concurrency_im.Pool.System.{
  Job, System, Step, Reach, at_rest, creating, counts, decides, abandons, fills, publishes, keeps,
  commits, unpins, marks, begins_flush, finishes_flush, begins_delete, finishes_delete, begins_new,
  keeps_new, commits_new,
}
use task_pool_concurrency_im.Pool.System.Invariant.{Role, JobFits, IsSound}
use task_pool_concurrency_im.Pool.System.Reserve.{busy-Owned}
use task_pool_concurrency_im.Pool.System.Table.{enlarged, exchanged}
use task_pool_concurrency_im.Pool.System.Creates.{commit_new_run}
use task_pool_concurrency_im.Pool.System.Quiet.{IsQuiet, bind-IsQuiet, find_victim-IsQuiet}
use task_pool_concurrency_im.Pool.System.Rules.{option-IsQuiet, fail-IsQuiet, return-IsQuiet}
use task_pool_concurrency_im.Pool.System.Sections.{reserve_victim-IsQuiet, Step-Quiet, leaves_pages}
use task_pool_concurrency_im.Pool.System.Stays.{
  Stays, Quiet-Stays, one_frame-Stays, page_role, fill-Stays, publish-Stays, commit-Stays,
  finish_flush-Stays, begin_delete-Stays, finish_delete-Stays, idle-Stays,
}
use task_pool_concurrency_im.Pool.System.Touch.{IsConsistent}
use task_pool_concurrency_im.Pool.System.Steps.{Reach-Right, at_rest-Right}

-- What `new_page` does when no frame is free.
abbrev replace_page : ℕ → M Begun
replace_page n = find_victim >>= λ found. elim found [
  | none ↦ fail no_evictable_frame
  | some frame_id ↦ reserve_victim frame_id >>= λ v. return (Create.evicting n v)
]

replace_page-IsQuiet : (n : ℕ) → IsQuiet (replace_page n)
replace_page-IsQuiet n = bind-IsQuiet find_victim _ find_victim-IsQuiet (λ found.
    option-IsQuiet found _ _ (fail-IsQuiet no_evictable_frame) (λ i.
      bind-IsQuiet (reserve_victim i) _ (reserve_victim-IsQuiet i)
        (λ v. return-IsQuiet (Create.evicting n v))))

module _ (s : BufferPoolManager) (jobs : ℕ → Job) (roles : ℕ → Role) (t : ℕ)
    (v : IsSound s jobs roles) where
  abbrev emptied : BufferPoolManager
  emptied = record s { free_frames = record s.free_frames { guarded = [] } }

  full-Stays : s.next_page_id < 65535 → s.free_frames.guarded ≡ [] → Stays s ((begin_new_page s).0)
  unfolding begin_new_page FreeFrames.get_frame
  full-Stays room e =
      let run : begin_new_page s ≡ replace_page s.next_page_id emptied =
        ground (arith, v.queue_sound, room, e) in
      let same : Stays s ((replace_page s.next_page_id emptied).0) =
        Quiet-Stays emptied ((replace_page s.next_page_id emptied).0)
          ((replace_page-IsQuiet s.next_page_id).quiet emptied v.hand) in
      subst (λ r. Stays s (r.0)) (sym run) same

  grow-Stays :
      (i : ℕ) (rest : List ℕ)
      → s.next_page_id < 65535
      → s.free_frames.guarded ≡ i ∷ rest
      → Stays s ((begin_new_page s).0)
  unfolding begin_new_page FreeFrames.get_frame
  grow-Stays i rest room front =
      let n = s.next_page_id in
      let (near, role) = v.queue i (ground arith) in
      let there = get_elem?-get_or s.frames i Frame.new near in
      let taken = record s {
        free_frames = record { poisoned = s.free_frames.poisoned; guarded = rest };
      } in
      let run : begin_new_page s ≡ (enlarged s i rest (new_frame n), ok (made n i)) = ground (
        arith,
        v.queue_sound,
        front,
        room,
        make_run taken n i (frame_at s.frames i) there v.table_sound,
      ) in
      rw run (
        one_frame-Stays s (enlarged s i rest (new_frame n)) i (new_frame n) near refl
          (λ q k d h. ground (arith, d, h, find-insert s.page_table.guarded n q i))
          (λ q k a b.
            let low = v.below q k a in
            let find = find-insert s.page_table.guarded n q i in
            let here : frame_of s.page_table q ≡ some i = ground (arith, b, find, low) in
            absurd (ground (arith, page_role s jobs roles t n v q i here, role))))

  list_cases : (is : List ℕ) → (is ≡ []) ⊎ ((i : ℕ) × (rest : List ℕ) × (is ≡ i ∷ rest))
  list_cases [] = inl refl
  list_cases (i ∷ rest) = inr (i, rest, refl)

  begin_new-Stays : Stays s ((begin_new_page s).0)
  begin_new-Stays = elim (dec_lt s.next_page_id 65535) [
    | no h ↦
        idle-Stays s jobs roles t 0 v ((begin_new_page s).0) (unfold begin_new_page in ground arith)
    | yes room ↦ elim (list_cases s.free_frames.guarded) [
      | inl e ↦ full-Stays room e
      | inr (i, rest, e) ↦ grow-Stays i rest room e
    ]
  ]

  commit_new-Stays :
      (n : ℕ) (w : Victim) → jobs t ≡ creating n w → Stays s ((commit_new_page n w s).0)
  commit_new-Stays n w job =
      let i = w.frame_id in
      let fits : JobFits s roles t (creating n w) = subst (JobFits s roles t) job (v.threads t) in
      let own = busy-Owned s jobs roles w.old_page_id t i v fits.1 fits.0 in
      let next = fits.2 in
      let absent : frame_of s.page_table n ≡ none = elim (Option-cases (frame_of s.page_table n)) [
        | inl e ↦ e
        | inr (k, e) ↦ let low = v.below n k e in absurd (omega (arith, low, next))
      ] in
      let evicts : IsEvicting s n w = record {
        sound = v.table_sound;
        frame = frame_at s.frames i;
        in_frame = own.there;
        mapped = own.tabled;
        absent = absent;
      } in
      rw (commit_new_run s jobs t n w evicts) (
        one_frame-Stays s
          (exchanged s i (new_frame n) w.old_page_id n s.in_flight_loads s.metrics (n + 1)) i
          (new_frame n) fits.1 refl
          (λ q k d h. ground (arith, d, h, moved_find s.page_table.guarded w.old_page_id n i q))
          (λ q k a b. absurd (
            ground (
              arith,
              a,
              b,
              absent,
              fits.0,
              page_role s jobs roles t n v q k a,
              moved_find s.page_table.guarded w.old_page_id n i q,
            ))))

still-Stays :
    (z x : System) (step : Step z x)
    → IsConsistent z.pool z.jobs
    → leaves_pages step ≡ true
    → Stays z.pool x.pool
still-Stays z x step (roles, v) l = Quiet-Stays z.pool x.pool (Step-Quiet z x step v.hand l)

Step-Stays : (z x : System) (step : Step z x) → IsConsistent z.pool z.jobs → Stays z.pool x.pool
Step-Stays z x counts v = still-Stays z x counts v refl
Step-Stays z x (decides t p b rests low) v = still-Stays z x (decides t p b rests low) v refl
Step-Stays z x (abandons t p i job) v = still-Stays z x (abandons t p i job) v refl
Step-Stays z x (keeps t p w job) v = still-Stays z x (keeps t p w job) v refl
Step-Stays z x (unpins p) v = still-Stays z x (unpins p) v refl
Step-Stays z x (marks p) v = still-Stays z x (marks p) v refl
Step-Stays z x (begins_flush write_page t p rests) v =
    still-Stays z x (begins_flush write_page t p rests) v refl
Step-Stays z x (keeps_new t n w job) v = still-Stays z x (keeps_new t n w job) v refl
Step-Stays z x (fills t p i buffer job sized) (roles, v) =
    fill-Stays z.pool z.jobs roles t p v i buffer job sized
Step-Stays z x (publishes t p i job) (roles, v) = publish-Stays z.pool z.jobs roles t p v i job
Step-Stays z x (commits t p w buffer job sized) (roles, v) =
    commit-Stays z.pool z.jobs roles t p v w buffer job sized
Step-Stays z x (finishes_flush write_page t p i job total) (roles, v) =
    finish_flush-Stays z.pool z.jobs roles t p v write_page i job total
Step-Stays z x (begins_delete write_page t p rests) (roles, v) =
    begin_delete-Stays z.pool z.jobs roles t p v write_page
Step-Stays z x (finishes_delete write_page t p i job takes) (roles, v) =
    finish_delete-Stays z.pool z.jobs roles t p v write_page i job takes
Step-Stays z x (begins_new t rests alone) (roles, v) = begin_new-Stays z.pool z.jobs roles t v
Step-Stays z x (commits_new t n w job) (roles, v) = commit_new-Stays z.pool z.jobs roles t v n w job

-- Fetches are of pages that have been made, no `new_page` starts while another evicts, and a deletion
-- goes on only once the disk has taken a dirty page. In a pool that `new` has made, of any size, after
-- any number of sections of any threads in any order under these rules, whatever section comes next
-- under them, a page that is in the table before and after it has the same frame, with the same bytes.
pub Reach-Stays :
    (disk : Outcome IoError (Unit {0})) (pool_size : ℕ) (s : BufferPoolManager) (z x : System)
    → Manager.new disk pool_size ≡ ok s
    → Reach (at_rest s) z
    → Step z x
    → Stays z.pool x.pool
Reach-Stays disk pool_size s z x made_new run step =
    Step-Stays z x step (Reach-Right (at_rest s) z (at_rest-Right disk pool_size s made_new) run).0

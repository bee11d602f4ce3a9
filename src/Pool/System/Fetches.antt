-- ===== src/Pool/System/Fetches.antt =====
-- The sections of `fetch_page` after its round: the page comes in, or the disk has failed.
use task_pool_concurrency_im.Prelude.{
  ℕ, ◌≡◌, refl, List, [], ◌∷◌, ◌++◌, false, some, arith, length, ◌∙◌, ap, sym, subst,
  get_elem?-get_or, set, page_size,
}
use task_pool_concurrency_im.Prelude.Maps.{insert, remove}
use task_pool_concurrency_im.Pool.Frame
use task_pool_concurrency_im.Pool.Frame.{Frame, free, resident, reserved, is_pinned}
use task_pool_concurrency_im.Pool.Metrics
use task_pool_concurrency_im.Pool.PageTable
use task_pool_concurrency_im.Pool.FreeFrames
use task_pool_concurrency_im.Pool.Clock.Scan.{frame_at}
use task_pool_concurrency_im.Pool.Manager.{BufferPoolManager, Victim}
use task_pool_concurrency_im.Pool.Manager.Fetch.{
  abandon_free_frame, fill_free_frame, publish, keep_victim, commit_eviction,
}
use task_pool_concurrency_im.Pool.Manager.Loads.{loaded, fill_run}
use task_pool_concurrency_im.Pool.Manager.Evictions.{keep_run, commit_run, IsEvicting}
use task_pool_concurrency_im.Pool.System.{Job, idle, loading, filled, evicting, update}
use task_pool_concurrency_im.Pool.System.Invariant.{vacant, mapped, full, JobFits, load_of}
use task_pool_concurrency_im.Pool.System.Touch.{IsConsistent}
use task_pool_concurrency_im.Pool.System.Reserve.{busy-Owned, release-IsSound}
use task_pool_concurrency_im.Pool.System.Loads.{claims_left, fill-IsSound, abandon-IsSound}
use task_pool_concurrency_im.Pool.System.Table.{listed, publish-IsSound, exchange-IsSound}

module _ (s : BufferPoolManager) (jobs : ℕ → Job) (t p : ℕ) where
  pub abandons :
      (i : ℕ)
      → IsConsistent s jobs
      → jobs t ≡ loading p i
      → IsConsistent ((abandon_free_frame p i s).0) (update jobs t idle)
  unfolding abandon_free_frame Frame.set_free FreeFrames.add_frame
  abandons i (roles, v) job =
      let fits : JobFits s roles t (loading p i) = subst (JobFits s roles t) job (v.threads t) in
      let f = frame_at s.frames i in
      let g : Frame = record f { state = free } in
      let run : (abandon_free_frame p i s).0 ≡ record s {
        frames = set s.frames i g;
        free_frames = record { poisoned = false; guarded = s.free_frames.guarded ++ i ∷ [] };
        in_flight_loads = remove s.in_flight_loads p;
      } =
        ground (arith, v.queue_sound, get_elem?-get_or s.frames i Frame.new fits.1) in
      (update roles i vacant, rw run (abandon-IsSound s jobs roles t p i g v job refl))

  pub fills :
      (i : ℕ) (buffer : List ℕ)
      → IsConsistent s jobs
      → jobs t ≡ loading p i
      → length buffer ≡ page_size
      → IsConsistent ((fill_free_frame p i buffer s).0) (update jobs t (filled p i))
  unfolding is_pinned
  fills i buffer (roles, v) job sized =
      let fits : JobFits s roles t (loading p i) = subst (JobFits s roles t) job (v.threads t) in
      let there = get_elem?-get_or s.frames i Frame.new fits.1 in
      let run = fill_run s p i (frame_at s.frames i) buffer there sized in
      (
        update roles i (full p t),
        rw run (fill-IsSound s jobs roles t p i (loaded p buffer) v job refl refl refl),
      )

  pub publishes :
      (i : ℕ)
      → IsConsistent s jobs
      → jobs t ≡ filled p i
      → IsConsistent ((publish p i s).0) (update jobs t idle)
  unfolding publish PageTable.put
  publishes i (roles, v) job =
      let run : (publish p i s).0 ≡ record s {
        page_table = listed s (insert s.page_table.guarded p i);
        in_flight_loads = remove s.in_flight_loads p;
      } =
        ground (arith, v.table_sound) in
      (update roles i (mapped p), rw run (publish-IsSound s jobs roles t p i v job))

  pub keeps :
      (w : Victim)
      → IsConsistent s jobs
      → jobs t ≡ evicting p w
      → IsConsistent ((keep_victim p w.frame_id s).0) (update jobs t idle)
  keeps w (roles, v) job =
      let i = w.frame_id in
      let fits : JobFits s roles t (evicting p w) = subst (JobFits s roles t) job (v.threads t) in
      let own = busy-Owned s jobs roles w.old_page_id t i v fits.1 fits.0 in
      let f = frame_at s.frames i in
      let g : Frame = record f { state = resident } in
      let loads = remove s.in_flight_loads p in
      (
        update roles i (mapped w.old_page_id),
        rw (keep_run s p i f own.there) (
            release-IsSound s jobs roles w.old_page_id t i g loads s.metrics v fits.1 fits.0 refl
              own.paged (claims_left s jobs roles t p v (ap load_of job))),
      )

  pub commits :
      (w : Victim) (buffer : List ℕ)
      → IsConsistent s jobs
      → jobs t ≡ evicting p w
      → length buffer ≡ page_size
      → IsConsistent ((commit_eviction p w buffer s).0) (update jobs t idle)
  commits w buffer (roles, v) job sized =
      let i = w.frame_id in
      let fits : JobFits s roles t (evicting p w) = subst (JobFits s roles t) job (v.threads t) in
      let own = busy-Owned s jobs roles w.old_page_id t i v fits.1 fits.0 in
      let (absent, claimed, low) = fits.2 in
      let evicts : IsEvicting s p w = record {
        sound = v.table_sound;
        frame = frame_at s.frames i;
        in_frame = own.there;
        mapped = own.tabled;
        absent = absent;
      } in
      let loads = remove s.in_flight_loads p in
      let left = claims_left s jobs roles t p v (ap load_of job) in
      (
        update roles i (mapped p),
        rw (commit_run s p w buffer evicts sized) (
            exchange-IsSound s jobs roles t i (loaded p buffer) w.old_page_id p loads
              (Metrics.record_eviction s.metrics) s.next_page_id v fits.1 fits.0 absent refl refl
              low (omega arith)
              (λ u q n h.
                (λ e. n (v.loads u t q h (ap load_of job ∙ ap some (sym e))), left u q n h))
              (λ u q n h. refl)),
      )

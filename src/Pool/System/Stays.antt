-- ===== src/Pool/System/Stays.antt =====
-- No section changes the bytes of a page that stays in the table, or moves it to another frame.
use task_pool_concurrency_im.Prelude.{
  ℕ, ◌<◌, ◌≡◌, ◌≢◌, ◌∙◌, inl, inr, refl, ap, sym, subst, List, none, some, Outcome, ok, panic,
  IoError, arith, length, set, get_elem?-get_or, get_or-set, ℕ_discrete, page_size, Option-cases,
  Bool-cases,
}
use task_pool_concurrency_im.Prelude.Maps.{find-insert, find-remove}
use task_pool_concurrency_im.Pool.Frame
use task_pool_concurrency_im.Pool.Frame.{Frame, reserved, resident}
use task_pool_concurrency_im.Pool.Clock.Scan.{frame_at}
use task_pool_concurrency_im.Pool.PageTable
use task_pool_concurrency_im.Pool.PageTable.Laws.{frame_of, moved_find}
use task_pool_concurrency_im.Pool.Manager.{BufferPoolManager, Victim}
use task_pool_concurrency_im.Pool.Manager.Loads.{holding, loaded, fill_run, on_frame-first}
use task_pool_concurrency_im.Pool.Manager.Evictions.{IsEvicting, replaced, commit_run}
use task_pool_concurrency_im.Pool.Manager.Deletes.{deleted, forget_run}
use task_pool_concurrency_im.Pool.Manager.Fetch.{fill_free_frame, publish, commit_eviction}
use task_pool_concurrency_im.Pool.Manager.Flush.{finish_flush, finish_delete, begin_delete}
use task_pool_concurrency_im.Pool.System.{Job, loading, filled, evicting, flushing, deleting}
use task_pool_concurrency_im.Pool.System.Invariant.{Role, role_page, JobFits, IsSound}
use task_pool_concurrency_im.Pool.Manager.Writes.{with_state, reserve_run}
use task_pool_concurrency_im.Pool.System.Deletes
use task_pool_concurrency_im.Pool.System.Touch.{table-Found}
use task_pool_concurrency_im.Pool.System.Reserve.{busy-Owned}
use task_pool_concurrency_im.Pool.System.Quiet.{Quiet}
use task_pool_concurrency_im.Pool.System.Flushes
use task_pool_concurrency_im.Pool.System.Flushes.{page_meta}

-- A page of both tables has the same frame, with the same bytes.
abbrev pub Stays : BufferPoolManager → BufferPoolManager → Type 0
Stays s s' =
    (q k j : ℕ)
    → frame_of s.page_table q ≡ some k
    → frame_of s'.page_table q ≡ some j
    → (j ≡ k) × ((frame_at s'.frames k).bytes ≡ (frame_at s.frames k).bytes)

pub Quiet-Stays : (s s' : BufferPoolManager) → Quiet s s' → Stays s s'
Quiet-Stays s s' h q k j a b =
    (ground (arith, a, b, ap (λ t. frame_of t q) h.same_table), (h.like k).0)

-- One frame is replaced, and the table gives no other frame to a page that it had.
pub one_frame-Stays :
    (s s' : BufferPoolManager) (i : ℕ) (g : Frame)
    → i < length s.frames
    → s'.frames ≡ set s.frames i g
    → ((q k : ℕ) → k ≢ i → frame_of s'.page_table q ≡ some k → frame_of s.page_table q ≡ some k)
    → ((q k : ℕ)
        → frame_of s.page_table q ≡ some k
        → frame_of s'.page_table q ≡ some i
        → (k ≡ i) × (g.bytes ≡ (frame_at s.frames i).bytes))
    → Stays s s'
one_frame-Stays s s' i g near written others own q k j a b = elim (ℕ_discrete j i) [
  | yes e ↦
      let (same, bytes) = own q k a (b ∙ ap some e) in
      let here : frame_at s'.frames k ≡ g =
        ap (λ (l : List Frame). frame_at l k) written
        ∙ get_or-set s.frames i k g Frame.new near
        ∙ ground (arith, same) in
      (
        e ∙ sym same,
        ap (λ (f : Frame). f.bytes) here ∙ bytes ∙ ap (λ n. (frame_at s.frames n).bytes) (sym same),
      )
  | no n ↦
      let d : j ≡ k = ground (arith, a, others q j n b) in
      let here : frame_at s'.frames k ≡ frame_at s.frames k =
        ap (λ (l : List Frame). frame_at l k) written
        ∙ get_or-set s.frames i k g Frame.new near
        ∙ ground (arith, n, d) in
      (d, ap (λ (f : Frame). f.bytes) here)
]

module _ (s : BufferPoolManager) (jobs : ℕ → Job) (roles : ℕ → Role) (t p : ℕ)
    (v : IsSound s jobs roles) where
  -- The frame of a page, by its role.
  pub page_role : (q i : ℕ) → frame_of s.page_table q ≡ some i → role_page (roles i) ≡ some q
  page_role q i h = (v.pages q i h).1

  pub fill-Stays :
      (i : ℕ) (buffer : List ℕ)
      → jobs t ≡ loading p i
      → length buffer ≡ page_size
      → Stays s ((fill_free_frame p i buffer s).0)
  fill-Stays i buffer job sized =
      let fits : JobFits s roles t (loading p i) = subst (JobFits s roles t) job (v.threads t) in
      let there = get_elem?-get_or s.frames i Frame.new fits.1 in
      rw (fill_run s p i (frame_at s.frames i) buffer there sized) (
        one_frame-Stays s (holding s i (loaded p buffer)) i (loaded p buffer) fits.1 refl
          (λ q k n h. h) (λ q k a b. absurd (ground (arith, page_role q i b, fits.0))))

  pub publish-Stays : (i : ℕ) → jobs t ≡ filled p i → Stays s ((publish p i s).0)
  unfolding publish PageTable.put
  publish-Stays i job q k j a b =
      let fits : JobFits s roles t (filled p i) = subst (JobFits s roles t) job (v.threads t) in
      let find = find-insert s.page_table.guarded p q i in
      (ground (arith, v.table_sound, a, b, fits.2.0, find), ground (arith, v.table_sound))

  pub commit-Stays :
      (w : Victim) (buffer : List ℕ)
      → jobs t ≡ evicting p w
      → length buffer ≡ page_size
      → Stays s ((commit_eviction p w buffer s).0)
  commit-Stays w buffer job sized =
      let i = w.frame_id in
      let fits : JobFits s roles t (evicting p w) = subst (JobFits s roles t) job (v.threads t) in
      let own = busy-Owned s jobs roles w.old_page_id t i v fits.1 fits.0 in
      let evicts : IsEvicting s p w = record {
        sound = v.table_sound;
        frame = frame_at s.frames i;
        in_frame = own.there;
        mapped = own.tabled;
        absent = fits.2.0;
      } in
      rw (commit_run s p w buffer evicts sized) (
        one_frame-Stays s (replaced s p w buffer) i (loaded p buffer) fits.1 refl
          (λ q k n h. ground (arith, n, h, moved_find s.page_table.guarded w.old_page_id p i q))
          (λ q k a b. absurd (
            ground (
              arith,
              a,
              b,
              fits.2.0,
              fits.0,
              page_role q k a,
              moved_find s.page_table.guarded w.old_page_id p i q,
            ))))

  pub finish_flush-Stays :
      (write_page : ℕ → List ℕ → Outcome IoError (Unit {0})) (i : ℕ)
      → jobs t ≡ flushing p i
      → ((q : ℕ) (bytes : List ℕ) → write_page q bytes ≢ panic)
      → Stays s ((finish_flush write_page i s).0)
  finish_flush-Stays write_page i job total =
      let fits : JobFits s roles t (flushing p i) = subst (JobFits s roles t) job (v.threads t) in
      let own = busy-Owned s jobs roles p t i v fits.1 fits.0 in
      let f = frame_at s.frames i in
      let (meta, metadata, same) = page_meta f p own.paged in
      let (g, run, state, paged, bytes) =
        Flushes.finish_run write_page s jobs t p i f meta fits.1 own.there own.state metadata
          (total meta.page_id f.bytes) in
      rw run (
        one_frame-Stays s (holding s i g) i g fits.1 refl (λ q k n h. h)
          (λ q k a b. (ground (arith, a, b), bytes)))

  -- The page leaves the table, and its frame is emptied.
  deleted-Stays :
      (i : ℕ) → i < length s.frames → frame_of s.page_table p ≡ some i → Stays s (deleted s p i)
  deleted-Stays i near tabled =
      one_frame-Stays s (deleted s p i) i Frame.new near refl
        (λ q k n h. ground (arith, h, find-remove s.page_table.guarded p q))
        (λ q k a b.
          let gone = find-remove s.page_table.guarded p q in
          let here : frame_of s.page_table q ≡ some i = ground (arith, b, gone) in
          absurd (ground (arith, b, gone, page_role p i tabled, page_role q i here)))

  pub idle-Stays : (s' : BufferPoolManager) → s' ≡ s → Stays s s'
  idle-Stays s' e q k j a b = (
    ground (arith, a, b, ap (λ x. frame_of x.page_table q) e),
    ap (λ x. (frame_at x.frames k).bytes) e,
  )

  module _ (write_page : ℕ → List ℕ → Outcome IoError (Unit {0})) where
    pub begin_delete-Stays : Stays s ((begin_delete write_page p s).0)
    unfolding begin_delete PageTable.get_frame_id Frame.is_reserved
    begin_delete-Stays = elim (Option-cases (frame_of s.page_table p)) [
      | inl e ↦ idle-Stays ((begin_delete write_page p s).0) (ground (arith, v.table_sound, e))
      | inr (i, e) ↦
          let found = table-Found s jobs roles p i v e in
          let there = found.there in
          let f = frame_at s.frames i in
          elim found.role [
            | inr (u, role, state) ↦
                idle-Stays ((begin_delete write_page p s).0) (ground (arith, v.table_sound, e))
            | inl (role, state) ↦
                let g = with_state f reserved in
                let first = on_frame-first s i Frame.reserve f g there (reserve_run f state) in
                elim (Bool-cases (Frame.is_pinned f)) [
                  | inl d ↦
                      idle-Stays ((begin_delete write_page p s).0)
                        (ground (arith, v.table_sound, e))
                  | inr c ↦ elim (Bool-cases (Frame.is_dirty f)) [
                    | inl d ↦
                        let run : begin_delete write_page p s ≡ (holding s i g, ok (some i)) =
                          ground (arith, v.table_sound, first) in
                        rw run (
                          one_frame-Stays s (holding s i g) i g found.inside refl (λ q k n h. h)
                            (λ q k a b. (ground (arith, a, b), refl)))
                    | inr d ↦
                        let second =
                          forget_run write_page s p i g v.table_sound v.queue_sound found.inside in
                        let run : begin_delete write_page p s ≡ (deleted s p i, ok none) =
                          ground (arith, v.table_sound, first, second) in
                        rw run (deleted-Stays i found.inside e)
                  ]
                ]
          ]
    ]

    pub finish_delete-Stays :
        (i : ℕ)
        → jobs t ≡ deleting p i
        → ((q : ℕ) (bytes : List ℕ) → write_page q bytes ≡ ok tt)
        → Stays s ((finish_delete write_page p i s).0)
    unfolding finish_delete
    finish_delete-Stays i job takes =
        let fits : JobFits s roles t (deleting p i) = subst (JobFits s roles t) job (v.threads t) in
        let own = busy-Owned s jobs roles p t i v fits.1 fits.0 in
        let f = frame_at s.frames i in
        let (meta, metadata, same) = page_meta f p own.paged in
        let (g, first) =
          Deletes.finish_run write_page s jobs t p i f meta fits.1 own.there own.state metadata
            (takes meta.page_id f.bytes) in
        let second = forget_run write_page s p i g v.table_sound v.queue_sound fits.1 in
        let run : finish_delete write_page p i s ≡ (deleted s p i, ok tt) =
          rw (first, second) refl in
        rw run (deleted-Stays i fits.1 own.tabled)

-- ===== src/Pool/PageTable/Laws.antt =====
-- The page table as a finite map, and when it stays one-to-one.
use task_pool_concurrency_im.Prelude.{
  ℕ, ◌≡◌, ◌≢◌, ◌⊎◌, inl, inr, refl, subst, List, false, Option, none, some, ok, err, arith, ◌==◌,
  if◌then◌else◌, Option-cases, Bool-cases, ℕ_discrete,
}
use task_pool_concurrency_im.Prelude.Maps.{find, insert, remove, find-insert, find-remove}
use task_pool_concurrency_im.Pool.PageTable.{
  PageTable, poisoned_mapping, old_page_missing, page_already_exist, put, replace, remove_page,
}

-- What the table says of a page.
abbrev pub frame_of : PageTable → ℕ → Option ℕ
frame_of t page_id = find t.guarded page_id

-- No two pages share a frame.
abbrev pub IsInjective : PageTable → Type 0
IsInjective t = (p q v : ℕ) → frame_of t p ≡ some v → frame_of t q ≡ some v → p ≡ q

-- What `replace` has done to an unpoisoned table: the old page is gone, the new one has its frame, and
-- every other page has what it had.
pub record Replaced (t : PageTable) (old_page new_page frame_id : ℕ) (u : PageTable) : Type 0 where
  pub moved : frame_of u new_page ≡ some frame_id
  pub gone : frame_of u old_page ≡ none
  pub others : (p : ℕ) → p ≢ old_page → p ≢ new_page → frame_of u p ≡ frame_of t p
  pub sound : u.poisoned ≡ t.poisoned

pub moved_find :
    (m : List (ℕ × ℕ)) (old_page new_page frame_id j : ℕ)
    → find (insert (remove m old_page) new_page frame_id) j
      ≡ (if new_page == j then some frame_id else if old_page == j then none else find m j)
moved_find m old_page new_page frame_id j =
    ground (arith, find-insert (remove m old_page) new_page j frame_id, find-remove m old_page j)

moved-Replaced :
    (t : PageTable) (old_page new_page frame_id : ℕ)
    → frame_of t old_page ≡ some frame_id
    → frame_of t new_page ≡ none
    → Replaced t old_page new_page frame_id
        (record t { guarded = insert (remove t.guarded old_page) new_page frame_id })
moved-Replaced t old_page new_page frame_id h k =
    let at = moved_find t.guarded old_page new_page frame_id in
    record {
      moved = ground (arith, at new_page);
      gone = ground (arith, at old_page);
      others = λ p a b. ground (arith, at p);
      sound = refl;
    }

-- `replace` on a table whose lock is not poisoned: it moves the frame from the old page to the new one
-- when the old page has that very frame and the new one has none. Otherwise it names what is wrong:
-- the old page is missing, it has another frame, or the new page is already there.
pub replace-cases :
    (t : PageTable) (old_page new_page frame_id : ℕ)
    → t.poisoned ≡ false
    → ((frame_of t old_page ≡ none) × (replace t old_page new_page frame_id ≡ err old_page_missing))
      ⊎ ((v : ℕ) × (frame_of t old_page ≡ some v)
          × (v ≢ frame_id)
          × (replace t old_page new_page frame_id ≡ err poisoned_mapping))
      ⊎ ((v : ℕ) × (frame_of t old_page ≡ some frame_id)
          × (frame_of t new_page ≡ some v)
          × (replace t old_page new_page frame_id ≡ err page_already_exist))
      ⊎ ((u : PageTable) × (frame_of t old_page ≡ some frame_id)
          × (frame_of t new_page ≡ none)
          × (replace t old_page new_page frame_id ≡ ok u)
          × Replaced t old_page new_page frame_id u)
unfolding replace
replace-cases t old_page new_page frame_id h = elim (Option-cases (frame_of t old_page)) [
  | inl e ↦ inl (e, ground arith)
  | inr (v, e) ↦ elim (ℕ_discrete v frame_id) [
    | no n ↦ inr (inl (v, e, n, ground arith))
    | yes s ↦ elim (Option-cases (frame_of t new_page)) [
      | inr (w, k) ↦ inr (inr (inl (w, ground arith, k, ground arith)))
      | inl k ↦ inr (
          inr (
            inr (
              record t { guarded = insert (remove t.guarded old_page) new_page frame_id },
              ground arith,
              k,
              ground arith,
              moved-Replaced t old_page new_page frame_id (ground arith) k,
            )))
    ]
  ]
]

Replaced-IsInjective :
    (t u : PageTable) (old_page new_page frame_id : ℕ)
    → IsInjective t
    → frame_of t old_page ≡ some frame_id
    → Replaced t old_page new_page frame_id u
    → IsInjective u
Replaced-IsInjective t u old_page new_page frame_id i h r p q v hp hq = ground (
  arith,
  r.moved,
  r.gone,
  r.others p,
  r.others q,
  i old_page p frame_id h,
  i old_page q frame_id h,
  i p q v,
)

-- Whenever `replace` succeeds, a one-to-one table stays one-to-one. So it does when `put` gives a page
-- a frame that no other page has, and when `remove_page` forgets a page.
pub table-IsInjective :
    (t u : PageTable) (page other frame_id : ℕ)
    → IsInjective t
    → (replace t other page frame_id ≡ ok u)
      ⊎ ((put t page frame_id ≡ ok u) × ((p : ℕ) → frame_of t p ≡ some frame_id → p ≡ page))
      ⊎ (remove_page t page ≡ ok u)
    → IsInjective u
unfolding put remove_page
table-IsInjective t u page other frame_id i (inl e) = elim (Bool-cases t.poisoned) [
  | inl bad ↦ absurd (unfold replace in ground arith)
  | inr good ↦ elim (replace-cases t other page frame_id good) [
    | inl (_, f) ↦ absurd (ground arith)
    | inr (inl (_, _, _, f)) ↦ absurd (ground arith)
    | inr (inr (inl (_, _, _, f))) ↦ absurd (ground arith)
    | inr (inr (inr (w, h, _, f, r))) ↦
        let same : w ≡ u = ground arith in
        subst IsInjective same (Replaced-IsInjective t w other page frame_id i h r)
  ]
]
table-IsInjective t u page other frame_id i (inr (inl (e, unused))) = λ p q v hp hq. ground (
  arith,
  find-insert t.guarded page p frame_id,
  find-insert t.guarded page q frame_id,
  i p q v,
  unused p,
  unused q,
)
table-IsInjective t u page other frame_id i (inr (inr e)) = λ p q v hp hq.
    ground (arith, find-remove t.guarded page p, find-remove t.guarded page q, i p q v)

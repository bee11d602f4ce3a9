-- ===== src/Fsm/Leaf.antt =====
-- `find_leaf`: the descent by the first child that has the bucket.
use task_pool_concurrency_im.Prelude.{
  ℕ, zero, suc, ◌+◌, ◌-◌, ◌*◌, ◌≤◌, ◌<◌, ◌≡◌, ◌⊎◌, inl, inr, refl, ap, subst, [], Option, none,
  some, Outcome, ok, arith, Returns, length, dec_lt,
}
use task_pool_concurrency_im.Fsm.{
  FreeSpaceMap, FreeSpaceMapError, rank, larger, contains, find_leaf,
}
use task_pool_concurrency_im.Fsm.Tree.{bucket, node_at-at, IsTree}
use task_pool_concurrency_im.Fsm.Find.{Under-root, Under-bucket, IsSuitable, Finds}

larger-cases : (a b : Option ℕ) → (rank (larger a b) ≡ rank a) ⊎ (rank (larger a b) ≡ rank b)
unfolding larger
larger-cases a b = ground arith

-- A node that has the bucket leads to a page; one that has not, to none.
Leads : FreeSpaceMap → ℕ → ℕ → Outcome FreeSpaceMapError (Option ℕ) → Type 0
Leads m b i r =
    ((suc b ≤ rank (bucket m.nodes i)) × ((p : ℕ) × (r ≡ ok (some p)) × IsSuitable m b [] p))
    ⊎ ((rank (bucket m.nodes i) < suc b) × (r ≡ ok none))

leaf-Leads :
    (fuel : ℕ) (m : FreeSpaceMap) (b p : ℕ)
    → IsTree m
    → p < m.capacity
    → Leads m b (m.capacity - 1 + p) (find_leaf (suc fuel) m b (m.capacity - 1 + p))
unfolding Leads find_leaf contains
leaf-Leads fuel m b p t h =
    let i = m.capacity - 1 + p in
    let there = node_at-at m.nodes i (omega (arith, t.sized)) in
    elim (dec_lt (rank (bucket m.nodes i)) (suc b)) [
      | yes small ↦ inr (small, ground (arith, there))
      | no big ↦ elim (t.leaves p h) [
        | inl (k, e) ↦ absurd (ground arith)
        | inr (k, _) ↦ inl (
          omega arith,
          (
            p,
            ground (arith, there, k),
            record { in_range = h; known = k; roomy = omega arith; allowed = refl },
          ),
        )
      ]
    ]

inner-Leads :
    (fuel : ℕ) (m : FreeSpaceMap) (b i : ℕ)
    → IsTree m
    → i < m.capacity - 1
    → Leads m b (2 * i + 1) (find_leaf fuel m b (2 * i + 1))
    → Leads m b (2 * i + 2) (find_leaf fuel m b (2 * i + 2))
    → Leads m b i (find_leaf (suc fuel) m b i)
unfolding Leads find_leaf larger
inner-Leads fuel m b i t h x y =
    let l = node_at-at m.nodes (2 * i + 1) (omega (arith, t.sized)) in
    let r = node_at-at m.nodes (2 * i + 2) (omega (arith, t.sized)) in
    let top = ap rank (t.inner i h) in
    let low = larger-cases (bucket m.nodes (2 * i + 1)) (bucket m.nodes (2 * i + 2)) in
    elim x [
      | inl (big, (p, run, s)) ↦ inl (ground (arith, top), (p, ground (arith, l, run), s))
      | inr (small, _) ↦ elim y [
        | inl (big, (p, run, s)) ↦ inl (ground (arith, top), (p, ground (arith, l, r, run), s))
        | inr (small', _) ↦ inr (ground (arith, top), ground (arith, l, r))
      ]
    ]

find_leaf-Leads :
    (fuel : ℕ) (m : FreeSpaceMap) (b i : ℕ)
    → IsTree m
    → i < length m.nodes
    → length m.nodes ≤ i + fuel
    → Leads m b i (find_leaf fuel m b i)
find_leaf-Leads zero m b i t h f = absurd (omega arith)
find_leaf-Leads (suc fuel) m b i t h f = elim (dec_lt i (m.capacity - 1)) [
  | yes q ↦
      inner-Leads fuel m b i t q
        (find_leaf-Leads fuel m b (2 * i + 1) t (omega (arith, t.sized)) (omega arith))
        (find_leaf-Leads fuel m b (2 * i + 2) t (omega (arith, t.sized)) (omega arith))
  | no q ↦
      let e : m.capacity - 1 + (i - (m.capacity - 1)) ≡ i = omega arith in
      subst (λ (j : ℕ). Leads m b j (find_leaf (suc fuel) m b j)) e
        (leaf-Leads fuel m b (i - (m.capacity - 1)) t (omega (arith, t.sized, t.positive)))
]

-- In a tree, with as much fuel as there are nodes, `find_leaf` from the root returns: it answers a
-- registered page whose bucket is at least the required one, and answers nothing only when there is no
-- such page.
pub find_leaf-Finds :
    (fuel : ℕ) (m : FreeSpaceMap) (b : ℕ)
    → IsTree m
    → length m.nodes ≤ fuel
    → Returns (Finds m b []) (find_leaf fuel m b 0)
unfolding Leads
find_leaf-Finds fuel m b t f =
    elim (find_leaf-Leads fuel m b 0 t (omega (arith, t.sized, t.positive)) (omega arith)) [
      | inl (big, (p, run, s)) ↦ rw run s
      | inr (small, run) ↦ rw run (λ p s. omega (
        arith,
        s.roomy,
        Under-bucket m 0 (m.capacity - 1 + p) t (omega (arith, t.sized, s.in_range))
            (Under-root (suc (m.capacity - 1 + p)) (m.capacity - 1 + p) (omega arith)),
      ))
    ]

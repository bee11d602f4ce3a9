-- ===== src/Fsm/Update.antt =====
-- Writing a leaf and recomputing the nodes above it restores the tree.
use task_pool_concurrency_im.Prelude.{
  ℕ, zero, suc, ◌+◌, ◌-◌, ◌*◌, ◌/◌, ◌≤◌, ◌<◌, ◌≡◌, ◌≢◌, ◌⊎◌, inl, inr, refl, ap, ◌∙◌, sym, subst,
  List, arith, length, set, ◌==◌, get_or-set, length-set, Bool-cases, ℕ_discrete, Returns,
  Returns-map, Returns-value, ge→ltb,
}
use task_pool_concurrency_im.Fsm.{
  Node, FreeSpaceMap, empty_node, larger, recompute_ancestors, write_leaf,
}
use task_pool_concurrency_im.Fsm.Tree.{at, bucket, node_at-at, IsMax, IsLeaf, IsTree}

-- What a run of `recompute_ancestors` must leave: every inner node has its larger bucket, and leaves
-- and page numbers are as before.
record Restored (capacity : ℕ) (before after : List Node) : Type 0 where
  sized : length after ≡ length before
  inner : (i : ℕ) → i < capacity - 1 → IsMax after i
  leaves : (i : ℕ) → capacity - 1 ≤ i → at after i ≡ at before i

-- One round at the inner node `i`: it gets the larger bucket of its children, and nothing else changes.
record Refreshed (i : ℕ) (before after : List Node) : Type 0 where
  sized : length after ≡ length before
  fresh : bucket after i ≡ larger (bucket before (2 * i + 1)) (bucket before (2 * i + 2))
  others : (k : ℕ) → k ≢ i → at after k ≡ at before k

abbrev refreshed : List Node → ℕ → Node
refreshed nodes i = record (at nodes i) {
  max_bucket = larger (bucket nodes (2 * i + 1)) (bucket nodes (2 * i + 2));
}

abbrev refresh : List Node → ℕ → List Node
refresh nodes i = set nodes i (refreshed nodes i)

at-set :
    (nodes : List Node) (i k : ℕ) (node : Node)
    → i < length nodes
    → ((k ≡ i) × (at (set nodes i node) k ≡ node))
      ⊎ ((k ≢ i) × (at (set nodes i node) k ≡ at nodes k))
at-set nodes i k node h = elim (ℕ_discrete k i) [
  | yes e ↦ inl (e, ground (arith, get_or-set nodes i k node empty_node h))
  | no e ↦ inr (e, ground (arith, get_or-set nodes i k node empty_node h))
]

at-set_self :
    (nodes : List Node) (i : ℕ) (node : Node) → i < length nodes → at (set nodes i node) i ≡ node
at-set_self nodes i node h = elim (at-set nodes i i node h) [
  | inl (_, e) ↦ e
  | inr (n, _) ↦ absurd (n refl)
]

at-set_ne :
    (nodes : List Node) (i k : ℕ) (node : Node)
    → i < length nodes
    → k ≢ i
    → at (set nodes i node) k ≡ at nodes k
at-set_ne nodes i k node h n = elim (at-set nodes i k node h) [
  | inl (e, _) ↦ absurd (n e)
  | inr (_, e) ↦ e
]

refresh-Refreshed :
    (nodes : List Node) (i : ℕ) → i < length nodes → Refreshed i nodes (refresh nodes i)
refresh-Refreshed nodes i h = record {
  sized = length-set nodes i (refreshed nodes i);
  fresh = ap (λ (x : Node). x.max_bucket) (at-set_self nodes i (refreshed nodes i) h);
  others = λ k e. at-set_ne nodes i k (refreshed nodes i) h e;
}

-- Afterwards only the parent of `i` may still be wrong.
Refreshed-IsMax :
    (bound i j : ℕ) (before after : List Node)
    → Refreshed i before after
    → ((k : ℕ) → k < bound → k ≢ i → IsMax before k)
    → j < bound
    → (i ≡ 0) ⊎ (j ≢ (i - 1) / 2)
    → IsMax after j
Refreshed-IsMax bound i j before after r good h away =
    let left = ap (λ (x : Node). x.max_bucket) (r.others (2 * j + 1) (omega arith)) in
    let right = ap (λ (x : Node). x.max_bucket) (r.others (2 * j + 2) (omega arith)) in
    elim (ℕ_discrete j i) [
      | yes e ↦ rw (left, right, e) r.fresh
      | no e ↦ rw (left, right) (ap (λ (x : Node). x.max_bucket) (r.others j e) ∙ good j h e)
    ]

-- From a tree that is right but for the inner node `i`, the run ends with all of it right.
recompute_ancestors-Restored :
    (fuel capacity i : ℕ) (nodes : List Node)
    → i < fuel
    → i < capacity - 1
    → length nodes ≡ 2 * capacity - 1
    → ((k : ℕ) → k < capacity - 1 → k ≢ i → IsMax nodes k)
    → Returns (Restored capacity nodes) (recompute_ancestors fuel capacity nodes i)
unfolding recompute_ancestors
recompute_ancestors-Restored zero capacity i nodes f h size good = absurd (omega arith)
recompute_ancestors-Restored (suc fuel) capacity i nodes f h size good =
    let r = refresh-Refreshed nodes i (omega arith) in
    let size' : length (refresh nodes i) ≡ 2 * capacity - 1 = r.sized ∙ size in
    let keep = λ (k : ℕ) (q : capacity - 1 ≤ k). r.others k (omega arith) in
    rw
      (
        ge→ltb (capacity - 1) i (omega arith),
        node_at-at nodes i (omega arith),
        node_at-at nodes (2 * i + 1) (omega arith),
        node_at-at nodes (2 * i + 2) (omega arith),
      )
      (elim (Bool-cases (i == 0)) [
        | inl e ↦ rw e (record {
          sized = r.sized;
          inner = λ j q.
              Refreshed-IsMax (capacity - 1) i j nodes (refresh nodes i) r good q
                (inl (ground arith));
          leaves = keep;
        })
        | inr e ↦ rw e (
            Returns-map (Restored capacity (refresh nodes i)) (Restored capacity nodes)
              (recompute_ancestors fuel capacity (refresh nodes i) ((i - 1) / 2))
              (λ after s. record {
                sized = s.sized ∙ r.sized;
                inner = s.inner;
                leaves = λ k q. s.leaves k q ∙ keep k q;
              })
              (recompute_ancestors-Restored fuel capacity ((i - 1) / 2) (refresh nodes i)
                (ground arith) (omega arith) size'
                (λ k q n.
                  Refreshed-IsMax (capacity - 1) i k nodes (refresh nodes i) r good q (inr n))))
      ])

abbrev pub leaf_of : FreeSpaceMap → ℕ → Node
leaf_of m p = at m.nodes (m.capacity - 1 + p)

-- The leaf of page `p` holds `node`, and nothing else about the pages has changed.
pub record Written (m : FreeSpaceMap) (p : ℕ) (node : Node) (m' : FreeSpaceMap) : Type 0 where
  pub tree : IsTree m'
  pub same_capacity : m'.capacity ≡ m.capacity
  pub written : leaf_of m' p ≡ node
  pub others : (q : ℕ) → q < m.capacity → q ≢ p → leaf_of m' q ≡ leaf_of m q

module _ (m : FreeSpaceMap) (t : IsTree m) (p : ℕ) (node : Node) (h : p < m.capacity)
    (fit : IsLeaf node p) where
  abbrev leaf_index : ℕ
  leaf_index = m.capacity - 1 + p

  abbrev changed : List Node
  changed = set m.nodes leaf_index node

  pub inside : leaf_index < length m.nodes
  inside = omega (arith, t.sized)

  -- Whatever restores the inner nodes after the write completes it.
  recompute_ancestors-Written :
      (after : List Node)
      → Restored m.capacity changed after
      → Written m p node (record m { nodes = after })
  recompute_ancestors-Written after r = record {
    tree = record {
      positive = t.positive;
      sized = r.sized ∙ length-set m.nodes leaf_index node ∙ t.sized;
      inner = r.inner;
      leaves = λ q k. elim (ℕ_discrete q p) [
        | yes e ↦
            subst (λ j. IsLeaf (at after (m.capacity - 1 + j)) j) (sym e)
              (subst (λ x. IsLeaf x p) (sym here) fit)
        | no e ↦ subst (λ x. IsLeaf x q) (sym (there q e)) (t.leaves q k)
      ];
    };
    same_capacity = refl;
    written = here;
    others = λ q k e. there q e;
  }
    where
      here : at after leaf_index ≡ node
      here = r.leaves leaf_index (omega arith) ∙ at-set_self m.nodes leaf_index node inside

      there : (q : ℕ) → q ≢ p → at after (m.capacity - 1 + q) ≡ leaf_of m q
      there q e =
          r.leaves (m.capacity - 1 + q) (omega arith)
          ∙ at-set_ne m.nodes leaf_index (m.capacity - 1 + q) node inside (omega arith)

  changed-IsMax : (k : ℕ) → k < m.capacity - 1 → k ≢ (leaf_index - 1) / 2 → IsMax changed k
  changed-IsMax k q n =
      let away = λ (j : ℕ) (e : j ≢ leaf_index).
        ap (λ (x : Node). x.max_bucket) (at-set_ne m.nodes leaf_index j node inside e) in
      rw (away k (omega arith), away (2 * k + 1) (omega arith), away (2 * k + 2) (omega arith))
        (t.inner k q)

  pub write_leaf-Written : Returns (Written m p node) (write_leaf m leaf_index node)
  unfolding write_leaf
  write_leaf-Written = elim (Bool-cases (leaf_index == 0)) [
    | inl e ↦ rw e (
        recompute_ancestors-Written changed
          (record { sized = refl; inner = λ i q. absurd (ground arith); leaves = λ i q. refl }))
    | inr e ↦
        let (after, run, r) =
          Returns-value (Restored m.capacity changed)
            (recompute_ancestors (leaf_index + 1) m.capacity changed ((leaf_index - 1) / 2))
            (recompute_ancestors-Restored (leaf_index + 1) m.capacity ((leaf_index - 1) / 2) changed
              (omega arith) (ground arith) (length-set m.nodes leaf_index node ∙ t.sized)
              changed-IsMax) in
        rw (e, run) (recompute_ancestors-Written after r)
  ]

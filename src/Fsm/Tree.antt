-- ===== src/Fsm/Tree.antt =====
-- The shape of the map: an inner node has the larger bucket of its children, a leaf knows its page.
use task_pool_concurrency_im.Prelude.{
  ℕ, zero, suc, ◌+◌, ◌-◌, ◌*◌, ◌<◌, ◌≡◌, ◌⊎◌, inl, inr, refl, List, Option, none, some, ok, err,
  arith, length, get_or, get_elem?-get_or, get_or-replicate, length-replicate, replicate,
}
use task_pool_concurrency_im.Fsm.{
  Node, FreeSpaceMap, empty_node, node_at, larger, new, invalid_argument, usize_mod,
}

abbrev pub at : List Node → ℕ → Node
at nodes i = get_or nodes i empty_node

abbrev pub bucket : List Node → ℕ → Option ℕ
bucket nodes i = (at nodes i).max_bucket

pub node_at-at : (nodes : List Node) (i : ℕ) → i < length nodes → node_at nodes i ≡ ok (at nodes i)
unfolding node_at
node_at-at nodes i h = ground (arith, get_elem?-get_or nodes i empty_node h)

-- The inner node `i` has the larger bucket of its children.
abbrev pub IsMax : List Node → ℕ → Type 0
IsMax nodes i = bucket nodes i ≡ larger (bucket nodes (2 * i + 1)) (bucket nodes (2 * i + 2))

-- The leaf of page `p`: unregistered, and then empty; or with the page and a bucket.
abbrev pub IsLeaf : Node → ℕ → Type 0
IsLeaf node p =
    ((node.page_id ≡ none) × (node.max_bucket ≡ none))
    ⊎ ((node.page_id ≡ some p) × ((b : ℕ) × (node.max_bucket ≡ some b)))

pub record IsTree (m : FreeSpaceMap) : Type 0 where
  pub positive : 0 < m.capacity
  pub sized : length m.nodes ≡ 2 * m.capacity - 1
  pub inner : (i : ℕ) → i < m.capacity - 1 → IsMax m.nodes i
  pub leaves : (p : ℕ) → p < m.capacity → IsLeaf (at m.nodes (m.capacity - 1 + p)) p

-- A map for no pages is refused; any other that the machine can index is a tree of unregistered pages.
pub new-IsTree :
    (capacity : ℕ)
    → 2 * capacity < usize_mod
    → ((capacity ≡ 0) × (new capacity ≡ err invalid_argument))
      ⊎ ((m : FreeSpaceMap) × (new capacity ≡ ok m)
          × IsTree m
          × (m.capacity ≡ capacity)
          × ((i : ℕ) → at m.nodes i ≡ empty_node))
unfolding new larger
new-IsTree zero h = inl (refl, ground arith)
new-IsTree (suc c) h =
    let nodes = replicate (2 * suc c - 1) empty_node in
    let blank = λ (i : ℕ). get_or-replicate (2 * suc c - 1) i empty_node in
    inr (
      record { nodes = nodes; capacity = suc c },
      ground arith,
      record {
        positive = omega arith;
        sized = length-replicate (2 * suc c - 1) empty_node;
        inner = λ i p. ground (arith, blank i, blank (2 * i + 1), blank (2 * i + 2));
        leaves = λ p q.
            inl (ground (arith, blank (suc c - 1 + p)), ground (arith, blank (suc c - 1 + p)));
      },
      refl,
      blank,
    )

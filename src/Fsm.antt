-- ===== src/Fsm.antt =====
-- src/storage/fsm/tree.rs: the free-space map, a complete binary tree in an array. The leaves, from
-- index `capacity - 1` on, are the pages with the bucket of their free space; an inner node has the
-- larger bucket of its two children. Fuel counts the levels of a recursion; without it left the call
-- would still be running, which is a panic here.
pub mod Bucket
pub mod Tree
pub mod Update
pub mod Register
pub mod Find
pub mod Leaf
mod Tests
use task_pool_concurrency_im.Prelude.{
  ℕ, zero, suc, ◌+◌, ◌-◌, ◌*◌, ◌/◌, ◌^◌, List, [], ◌∷◌, Bool, true, false, not, ◌||◌, Option, none,
  some, Outcome, ok, err, panic, ◌>>=◌, ◌>>◌, guard, assert, ltb, leb, ◌==◌, if◌then◌else◌, length,
  get_elem?, set, replicate,
}

pub record Node : Type 0 where
  pub max_bucket : Option ℕ
  pub page_id : Option ℕ

pub record FreeSpaceMap : Type 0 where
  pub nodes : List Node
  pub capacity : ℕ

pub data FreeSpaceMapError : Type 0 where
  invalid_argument invalid_free_space invalid_page_id page_does_not_exist : FreeSpaceMapError

abbrev pub usize_mod : ℕ
usize_mod = 2 ^ 64

abbrev pub empty_node : Node
empty_node = record { max_bucket = none; page_id = none }

unfoldable pub new : ℕ → Outcome FreeSpaceMapError FreeSpaceMap
new capacity = do
  guard (ltb 0 capacity) invalid_argument
  assert (ltb (2 * capacity) usize_mod)
  ok (record { nodes = replicate (2 * capacity - 1) empty_node; capacity = capacity })

unfoldable pub get_bucket_id : ℕ → Outcome FreeSpaceMapError ℕ
get_bucket_id free_space =
    if ltb free_space 512
    then ok 0
    else if ltb free_space 1024
    then ok 1
    else if ltb free_space 1536
    then ok 2
    else if ltb free_space 2048
    then ok 3
    else if ltb free_space 2560
    then ok 4
    else if ltb free_space 3072
    then ok 5
    else if ltb free_space 3584
    then ok 6
    else if ltb free_space 4096
    then ok 7
    else err invalid_free_space

-- `nodes[i]`.
unfoldable pub node_at : List Node → ℕ → Outcome FreeSpaceMapError Node
node_at nodes i = elim (get_elem? nodes i) [ none ↦ panic | some node ↦ ok node ]

-- The order of `Option<Bucket>`: `None` is below every bucket.
abbrev pub rank : Option ℕ → ℕ
rank none = 0
rank (some b) = suc b

unfoldable pub larger : Option ℕ → Option ℕ → Option ℕ
larger left right = if ltb (rank right) (rank left) then left else right

unfoldable pub recompute_ancestors : ℕ → ℕ → List Node → ℕ → Outcome FreeSpaceMapError (List Node)
recompute_ancestors zero capacity nodes internal_node = panic
recompute_ancestors (suc fuel) capacity nodes internal_node =
    if ltb (capacity - 1) internal_node then ok nodes else (do
      node ← node_at nodes internal_node
      left ← node_at nodes (2 * internal_node + 1)
      right ← node_at nodes (2 * internal_node + 2)
      let written =
          set nodes internal_node
            (record node { max_bucket = larger left.max_bucket right.max_bucket })
      elim (internal_node == 0) [
        | true ↦ ok written
        | false ↦ recompute_ancestors fuel capacity written ((internal_node - 1) / 2)
      ])

-- The leaf is written, and then the nodes above it.
unfoldable pub write_leaf : FreeSpaceMap → ℕ → Node → Outcome FreeSpaceMapError FreeSpaceMap
write_leaf m leaf_index node = do
  let written = set m.nodes leaf_index node
  nodes ←
      (if leaf_index == 0
        then ok written
        else recompute_ancestors (leaf_index + 1) m.capacity written ((leaf_index - 1) / 2))
  ok (record m { nodes = nodes })

unfoldable pub register_page : FreeSpaceMap → ℕ → ℕ → Outcome FreeSpaceMapError (ℕ × FreeSpaceMap)
register_page m page_id free_space = do
  guard (ltb page_id m.capacity) invalid_page_id
  req_bucket ← get_bucket_id free_space
  let leaf_index = m.capacity - 1 + page_id
  _ ← node_at m.nodes leaf_index
  m' ← write_leaf m leaf_index (record { max_bucket = some req_bucket; page_id = some page_id })
  ok (req_bucket, m')

abbrev is_page : Option ℕ → ℕ → Bool
is_page none p = false
is_page (some q) p = q == p

unfoldable pub update_page : FreeSpaceMap → ℕ → ℕ → Outcome FreeSpaceMapError (ℕ × FreeSpaceMap)
update_page m page_id free_space = do
  guard (ltb page_id m.capacity) invalid_page_id
  new_bucket ← get_bucket_id free_space
  let leaf_index = m.capacity - 1 + page_id
  node ← node_at m.nodes leaf_index
  guard (is_page node.page_id page_id) page_does_not_exist
  m' ← write_leaf m leaf_index (record node { max_bucket = some new_bucket })
  ok (new_bucket, m')

abbrev at_least : ℕ → Node → Bool
at_least req_bucket node = leb (rank (some req_bucket)) (rank node.max_bucket)

-- A page below a node, by the first child that has the bucket. Nothing calls it.
unfoldable pub find_leaf : ℕ → FreeSpaceMap → ℕ → ℕ → Outcome FreeSpaceMapError (Option ℕ)
find_leaf zero m req_bucket node = panic
find_leaf (suc fuel) m req_bucket node =
    let left = 2 * node + 1 in
    let right = 2 * node + 2 in
    let in_left = find_leaf fuel m req_bucket left in
    let in_right = find_leaf fuel m req_bucket right in
    if leb (m.capacity - 1) node
    then (node_at m.nodes node >>= λ n. ok (if at_least req_bucket n then n.page_id else none))
    else (node_at m.nodes left >>= λ l.
        if at_least req_bucket l
        then in_left
        else (node_at m.nodes right >>= λ r. if at_least req_bucket r then in_right else ok none))

-- A `HashSet` of pages.
unfoldable pub contains : List ℕ → ℕ → Bool
contains [] p = false
contains (q ∷ qs) p = q == p || contains qs p

-- What `find_page_recursive` answers at a leaf.
unfoldable pub leaf_page : Node → List ℕ → Option ℕ
leaf_page node excluded = elim node.page_id [
  | none ↦ none
  | some page_id ↦ if contains excluded page_id then none else some page_id
]

-- `if let Some(page_id) = first? { return Ok(Some(page_id)) }`, and then what comes next.
abbrev pub or_next :
    Outcome FreeSpaceMapError (Option ℕ)
    → Outcome FreeSpaceMapError (Option ℕ)
    → Outcome FreeSpaceMapError (Option ℕ)
or_next first next = first >>= elim [ none ↦ next | some page_id ↦ ok (some page_id) ]

unfoldable pub find_page_recursive :
    ℕ → FreeSpaceMap → ℕ → ℕ → List ℕ → Outcome FreeSpaceMapError (Option ℕ)
find_page_recursive zero m node_index required_bucket excluded = panic
find_page_recursive (suc fuel) m node_index required_bucket excluded = do
  node ← node_at m.nodes node_index
  let left = 2 * node_index + 1
  let right = 2 * node_index + 2
  let in_left = find_page_recursive fuel m left required_bucket excluded
  let in_right = find_page_recursive fuel m right required_bucket excluded
  if ltb (rank node.max_bucket) (rank (some required_bucket))
      then ok none
      else if leb (m.capacity - 1) node_index
      then ok (leaf_page node excluded)
      else or_next (if ltb left (length m.nodes) then in_left else ok none)
          (or_next (if ltb right (length m.nodes) then in_right else ok none) (ok none))

unfoldable pub find_page_excluding :
    FreeSpaceMap → ℕ → List ℕ → Outcome FreeSpaceMapError (Option ℕ)
find_page_excluding m required_space excluded = do
  required_bucket ← get_bucket_id required_space
  if length m.nodes == 0
      then ok none
      else find_page_recursive (length m.nodes) m 0 required_bucket excluded

unfoldable pub find_page : FreeSpaceMap → ℕ → Outcome FreeSpaceMapError (Option ℕ)
find_page m required_space = find_page_excluding m required_space []

unfoldable pub get_leaf_bucket : FreeSpaceMap → ℕ → Outcome FreeSpaceMapError (Option ℕ)
get_leaf_bucket m page_id = do
  guard (ltb page_id m.capacity) invalid_page_id
  node ← node_at m.nodes (m.capacity - 1 + page_id)
  ok node.max_bucket

unfoldable pub get_len : FreeSpaceMap → ℕ
get_len m = length m.nodes

unfoldable pub get_capacity : FreeSpaceMap → ℕ
get_capacity m = m.capacity

unfoldable pub get_root : FreeSpaceMap → Outcome FreeSpaceMapError Node
get_root m = node_at m.nodes 0

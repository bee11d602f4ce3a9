-- ===== src/Fsm/Register.antt =====
-- `register_page` and `update_page` on every branch.
use task_pool_concurrency_im.Prelude.{
  ℕ, ◌+◌, ◌-◌, ◌/◌, ◌≤◌, ◌<◌, ◌≡◌, ◌⊎◌, inl, inr, refl, none, some, ok, err, arith, dec_lt,
  Returns-value, page_size,
}
use task_pool_concurrency_im.Fsm.{
  Node, FreeSpaceMap, invalid_page_id, page_does_not_exist, invalid_free_space, write_leaf,
  register_page, update_page,
}
use task_pool_concurrency_im.Fsm.Bucket.{get_bucket_id_lem}
use task_pool_concurrency_im.Fsm.Tree.{node_at-at, IsLeaf, IsTree}
use task_pool_concurrency_im.Fsm.Update.{leaf_of, Written, write_leaf-Written, inside}

-- The leaf of page `p` once it is registered with this much free space.
abbrev pub registered : ℕ → ℕ → Node
registered p free_space = record { max_bucket = some (free_space / 512); page_id = some p }

-- `register_page` refuses a page past the capacity, and then a free space of a page or more. Otherwise
-- it returns the bucket, writes the page and the bucket to the page's leaf, restores the inner nodes,
-- and leaves the other pages alone.
pub register_page_lem :
    (m : FreeSpaceMap) (p free_space : ℕ)
    → IsTree m
    → ((m.capacity ≤ p) × (register_page m p free_space ≡ err invalid_page_id))
      ⊎ ((p < m.capacity)
          × (page_size ≤ free_space)
          × (register_page m p free_space ≡ err invalid_free_space))
      ⊎ ((p < m.capacity)
          × (free_space < page_size)
          × ((m' : FreeSpaceMap) × (register_page m p free_space ≡ ok (free_space / 512, m'))
              × Written m p (registered p free_space) m'))
unfolding register_page
register_page_lem m p free_space t = elim (dec_lt p m.capacity) [
  | no h ↦ inl (omega arith, ground arith)
  | yes h ↦ elim (get_bucket_id_lem free_space) [
    | inr (big, e) ↦ inr (inl (h, big, ground (arith, e)))
    | inl (small, e, _) ↦
        let node = registered p free_space in
        let (m', run, w) =
          Returns-value (Written m p node) (write_leaf m (m.capacity - 1 + p) node)
            (write_leaf-Written m t p node h (inr (refl, (free_space / 512, refl)))) in
        inr (
          inr (
            h,
            small,
            (
              m',
              ground (
                arith,
                e,
                run,
                h,
                node_at-at m.nodes (m.capacity - 1 + p)
                    (inside m t p node h (inr (refl, (free_space / 512, refl)))),
              ),
              w,
            ),
          ))
  ]
]

-- `update_page` refuses a page past the capacity, then a free space of a page or more, then a page
-- that is not registered. Otherwise it returns the bucket, writes it to the page's leaf, restores the
-- inner nodes, and leaves the other pages alone.
pub update_page_lem :
    (m : FreeSpaceMap) (p free_space : ℕ)
    → IsTree m
    → ((m.capacity ≤ p) × (update_page m p free_space ≡ err invalid_page_id))
      ⊎ ((p < m.capacity)
          × (page_size ≤ free_space)
          × (update_page m p free_space ≡ err invalid_free_space))
      ⊎ ((p < m.capacity)
          × (free_space < page_size)
          × ((leaf_of m p).page_id ≡ none)
          × (update_page m p free_space ≡ err page_does_not_exist))
      ⊎ ((p < m.capacity)
          × (free_space < page_size)
          × ((leaf_of m p).page_id ≡ some p)
          × ((m' : FreeSpaceMap) × (update_page m p free_space ≡ ok (free_space / 512, m'))
              × Written m p (registered p free_space) m'))
unfolding update_page
update_page_lem m p free_space t = elim (dec_lt p m.capacity) [
  | no h ↦ inl (omega arith, ground arith)
  | yes h ↦
      let node = registered p free_space in
      let fit : IsLeaf node p = inr (refl, (free_space / 512, refl)) in
      let read = node_at-at m.nodes (m.capacity - 1 + p) (inside m t p node h fit) in
      elim (get_bucket_id_lem free_space) [
        | inr (big, e) ↦ inr (inl (h, big, ground (arith, e)))
        | inl (small, e, _) ↦ elim (t.leaves p h) [
          | inl (k, _) ↦ inr (inr (inl (h, small, k, ground (arith, e, read, k))))
          | inr (k, _) ↦
              let (m', run, w) =
                Returns-value (Written m p node) (write_leaf m (m.capacity - 1 + p) node)
                  (write_leaf-Written m t p node h fit) in
              inr (inr (inr (h, small, k, (m', ground (arith, e, run, read, k, h), w))))
        ]
      ]
]

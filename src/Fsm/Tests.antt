-- ===== src/Fsm/Tests.antt =====
-- A map of two pages, of which one is registered.
use task_pool_concurrency_im.Prelude.{
  ℕ, zero, suc, ◌+◌, ◌/◌, ◌<◌, ◌≤◌, ◌≡◌, ◌⊎◌, inl, inr, refl, [], ◌∷◌, none, some, ok, err, arith,
  page_size, Returns,
}
use task_pool_concurrency_im.Fsm.{
  find_leaf, FreeSpaceMap, register_page, update_page, find_page_excluding, invalid_page_id,
  invalid_free_space, page_does_not_exist, larger,
}
use task_pool_concurrency_im.Fsm.Tree.{at, IsMax, IsLeaf, IsTree}
use task_pool_concurrency_im.Fsm.Update.{leaf_of, Written}
use task_pool_concurrency_im.Fsm.Register.{registered, register_page_lem, update_page_lem}
use task_pool_concurrency_im.Fsm.Leaf.{find_leaf-Finds}
use task_pool_concurrency_im.Fsm.Find.{Finds, find_page_excluding-Finds}

abbrev a_map : FreeSpaceMap
a_map = record {
  nodes =
      record { max_bucket = some 3; page_id = none }
      ∷ record { max_bucket = some 3; page_id = some 0 }
      ∷ record { max_bucket = none; page_id = none }
      ∷ [];
  capacity = 2;
}

a_map-inner : (i : ℕ) → i < 1 → IsMax a_map.nodes i
unfolding larger
a_map-inner zero h = refl
a_map-inner (suc i) h = absurd (omega arith)

a_map-leaves : (p : ℕ) → p < 2 → IsLeaf (at a_map.nodes (1 + p)) p
a_map-leaves zero h = inr (refl, (3, refl))
a_map-leaves (suc zero) h = inl (refl, refl)
a_map-leaves (suc (suc p)) h = absurd (omega arith)

a_map-IsTree : IsTree a_map
a_map-IsTree = record {
  positive = omega arith;
  sized = refl;
  inner = a_map-inner;
  leaves = a_map-leaves;
}

register_page_lem_example :
    ((2 ≤ 1) × (register_page a_map 1 700 ≡ err invalid_page_id))
    ⊎ ((1 < 2) × (page_size ≤ 700) × (register_page a_map 1 700 ≡ err invalid_free_space))
    ⊎ ((1 < 2)
        × (700 < page_size)
        × ((m' : FreeSpaceMap) × (register_page a_map 1 700 ≡ ok (1, m'))
            × Written a_map 1 (registered 1 700) m'))
register_page_lem_example = register_page_lem a_map 1 700 a_map-IsTree

update_page_lem_example :
    ((2 ≤ 0) × (update_page a_map 0 700 ≡ err invalid_page_id))
    ⊎ ((0 < 2) × (page_size ≤ 700) × (update_page a_map 0 700 ≡ err invalid_free_space))
    ⊎ ((0 < 2)
        × (700 < page_size)
        × ((leaf_of a_map 0).page_id ≡ none)
        × (update_page a_map 0 700 ≡ err page_does_not_exist))
    ⊎ ((0 < 2)
        × (700 < page_size)
        × ((leaf_of a_map 0).page_id ≡ some 0)
        × ((m' : FreeSpaceMap) × (update_page a_map 0 700 ≡ ok (1, m'))
            × Written a_map 0 (registered 0 700) m'))
update_page_lem_example = update_page_lem a_map 0 700 a_map-IsTree

find_page_excluding-Finds_example :
    ((page_size ≤ 1000) × (find_page_excluding a_map 1000 (1 ∷ []) ≡ err invalid_free_space))
    ⊎ ((1000 < page_size)
        × Returns (Finds a_map (1000 / 512) (1 ∷ [])) (find_page_excluding a_map 1000 (1 ∷ [])))
find_page_excluding-Finds_example = find_page_excluding-Finds a_map 1000 (1 ∷ []) a_map-IsTree

find_leaf-Finds_example : Returns (Finds a_map 1 []) (find_leaf 3 a_map 1 0)
find_leaf-Finds_example = find_leaf-Finds 3 a_map 1 a_map-IsTree (omega arith)

-- ===== src/Pool/PageTable/Tests.antt =====
-- The page table at concrete values.
use task_pool_concurrency_im.Prelude.{
  ℕ, ◌≡◌, ◌≢◌, ◌⊎◌, inl, refl, [], ◌∷◌, false, none, some, ok, err, arith,
}
use task_pool_concurrency_im.Pool.PageTable.{
  PageTable, replace, old_page_missing, poisoned_mapping, page_already_exist,
}
use task_pool_concurrency_im.Pool.PageTable.Laws.{
  frame_of, IsInjective, Replaced, replace-cases, table-IsInjective,
}

abbrev two_pages : PageTable
two_pages = record { poisoned = false; guarded = (4, 0) ∷ (5, 1) ∷ [] }

abbrev moved_page : PageTable
moved_page = record { poisoned = false; guarded = (9, 0) ∷ (5, 1) ∷ [] }

replace-cases_example :
    ((frame_of two_pages 4 ≡ none) × (replace two_pages 4 9 0 ≡ err old_page_missing))
    ⊎ ((v : ℕ) × (frame_of two_pages 4 ≡ some v)
        × (v ≢ 0)
        × (replace two_pages 4 9 0 ≡ err poisoned_mapping))
    ⊎ ((v : ℕ) × (frame_of two_pages 4 ≡ some 0)
        × (frame_of two_pages 9 ≡ some v)
        × (replace two_pages 4 9 0 ≡ err page_already_exist))
    ⊎ ((u : PageTable) × (frame_of two_pages 4 ≡ some 0)
        × (frame_of two_pages 9 ≡ none)
        × (replace two_pages 4 9 0 ≡ ok u)
        × Replaced two_pages 4 9 0 u)
replace-cases_example = replace-cases two_pages 4 9 0 refl

two_pages-IsInjective : IsInjective two_pages
two_pages-IsInjective p q v hp hq = ground arith

two_pages-replace : replace two_pages 4 9 0 ≡ ok moved_page
unfolding replace
two_pages-replace = refl

table-IsInjective_example : IsInjective moved_page
table-IsInjective_example =
    table-IsInjective two_pages moved_page 9 4 0 two_pages-IsInjective (inl two_pages-replace)

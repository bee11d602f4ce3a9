-- ===== src/Stores/Tests.antt =====
-- Three rows, on pages of two.
use task_pool_concurrency_im.Prelude.{ℕ, List, [], ◌∷◌, arith, refl}
use task_pool_concurrency_im.Stores.{row_store, col_store, pax_store}
use task_pool_concurrency_im.Stores.Tables.{Tabulates, stores-Tabulates}

abbrev row_of : ℕ → List ℕ
row_of n = n ∷ 1 ∷ 2 ∷ 3 ∷ 4 ∷ 5 ∷ 6 ∷ 7 ∷ 8 ∷ 9 ∷ []

abbrev three_rows : List (List ℕ)
three_rows = row_of 10 ∷ row_of 20 ∷ row_of 30 ∷ []

stores-Tabulates_example :
    Tabulates row_store three_rows
    × Tabulates col_store three_rows
    × Tabulates (pax_store 2) three_rows
stores-Tabulates_example = stores-Tabulates 2 three_rows (omega arith) (refl, (refl, (refl, tt)))

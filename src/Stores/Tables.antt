-- ===== src/Stores/Tables.antt =====
-- What each of the three layouts shows of its rows: all of them are the same table.
use task_pool_concurrency_im.Prelude.{
  ℕ, zero, suc, ◌<◌, ◌≡◌, refl, List, [], ◌∷◌, ◌++◌, ok, arith, length, get_or, ◌∙◌, ap, sym, subst,
  append_assoc, append-nil,
}
use task_pool_concurrency_im.Stores.{
  ColumnTable, row_store, col_store, pax_store, add_column, add_all, insert_all,
}
use task_pool_concurrency_im.Stores.Columns.{
  AreColumns, push_each-AreColumns, empty-AreColumns, column, column-length, column-get, index-ok,
  add_column-add_all,
}
use task_pool_concurrency_im.Stores.Pax.{
  IsPacked, insert-IsPacked, add_pages-IsPacked, value_at-IsPacked,
}

-- Rows of ten values.
abbrev pub AllTen : List (List ℕ) → Type 0
AllTen [] = Unit
AllTen (row ∷ rows) = (length row ≡ 10) × AllTen rows

-- A layout, and when a store of it shows these rows.
pub record IsTable (table : ColumnTable) : Type 1 where
  pub Shows : table.Store → List (List ℕ) → Type 0
  pub new_shows : Shows table.new []
  pub insert_shows :
      (s : table.Store) (rows : List (List ℕ)) (row : List ℕ)
      → Shows s rows
      → length row ≡ 10
      → (s' : table.Store) × (table.insert s row ≡ ok s') × Shows s' (rows ++ row ∷ [])
  pub get_shows :
      (s : table.Store) (rows : List (List ℕ)) (i j : ℕ)
      → Shows s rows
      → i < length rows
      → j < 10
      → table.get s i j ≡ ok (get_or (get_or rows i []) j 0)
  pub sum_shows :
      (s : table.Store) (rows : List (List ℕ)) (j : ℕ)
      → Shows s rows
      → j < 10
      → table.get_col_sum s j ≡ add_all 0 (column j rows)

ten_at :
    (rows : List (List ℕ)) (i : ℕ) → AllTen rows → i < length rows → length (get_or rows i []) ≡ 10
ten_at [] i a h = absurd (omega arith)
ten_at (row ∷ rows) zero a h = a.0
ten_at (row ∷ rows) (suc i) a h = ten_at rows i a.1 (omega arith)

AllTen-append :
    (rows : List (List ℕ)) (row : List ℕ)
    → AllTen rows
    → length row ≡ 10
    → AllTen (rows ++ row ∷ [])
AllTen-append [] row a h = (h, tt)
AllTen-append (r ∷ rows) row a h = (a.0, AllTen-append rows row a.1 h)

pub row_store-IsTable : IsTable row_store
row_store-IsTable = record {
  Shows = λ s rows. (s.rows ≡ rows) × AllTen rows;
  new_shows = (refl, tt);
  insert_shows = λ s rows row v h. (
    record { rows = s.rows ++ row ∷ [] },
    refl,
    (ap (λ (l : List (List ℕ)). l ++ row ∷ []) v.0, AllTen-append rows row v.1 h),
  );
  get_shows = λ s rows i j v h k.
      let width = ten_at rows i v.1 h in
      rw (v.0, index-ok rows i [] h) (index-ok (get_or rows i []) j 0 (omega arith));
  sum_shows = λ s rows j v k.
      ap (add_column j 0) v.0
      ∙ add_column-add_all j 0 rows (λ i h. let width = ten_at rows i v.1 h in omega arith);
}

pub col_store-IsTable : IsTable col_store
col_store-IsTable = record {
  Shows = λ s rows. AreColumns s.columns rows;
  new_shows = empty-AreColumns;
  insert_shows = λ s rows row v h.
      let (cols, run, w) = push_each-AreColumns s.columns rows row v h in
      (record { columns = cols }, rw run refl, w);
  get_shows = λ s rows i j v h k.
      let width = v.ten in
      rw (index-ok s.columns j [] (omega arith), v.columns j k)
        (index-ok (column j rows) i 0 (omega (arith, column-length j rows))
          ∙ ap ok (column-get j rows i h));
  sum_shows = λ s rows j v k.
      let width = v.ten in
      rw (index-ok s.columns j [] (omega arith)) (ap (add_all 0) (v.columns j k));
}

pub pax_store-IsTable : (page_rows : ℕ) → 0 < page_rows → IsTable (pax_store page_rows)
pax_store-IsTable page_rows pos = record {
  Shows = λ s rows. IsPacked page_rows s.pages rows;
  new_shows = refl;
  insert_shows = λ s rows row v h.
      let (pages, run, some_pages, w) = insert-IsPacked page_rows pos row h s.pages rows v in
      (record { pages = pages }, rw run refl, w);
  get_shows = λ s rows i j v h k.
      let run = value_at-IsPacked page_rows s.pages rows i j pos k h v in ground (arith, run);
  sum_shows = λ s rows j v k. add_pages-IsPacked page_rows j 0 s.pages rows k v;
}

module _ (table : ColumnTable) where
  -- After these rows have been inserted, `get` gives each value, and `get_col_sum` adds up each column
  -- from its first row to its last.
  pub record Tabulates (rows : List (List ℕ)) : Type 0 where
    pub store : table.Store
    pub inserted : insert_all table table.new rows ≡ ok store
    pub values :
        (i j : ℕ)
        → i < length rows
        → j < 10
        → table.get store i j ≡ ok (get_or (get_or rows i []) j 0)
    pub sums : (j : ℕ) → j < 10 → table.get_col_sum store j ≡ add_all 0 (column j rows)

module _ (table : ColumnTable) (law : IsTable table) where
  insert_all-Shows :
      (s : table.Store) (before rows : List (List ℕ))
      → law.Shows s before
      → AllTen rows
      → (s' : table.Store) × (insert_all table s rows ≡ ok s') × law.Shows s' (before ++ rows)
  unfolding insert_all
  insert_all-Shows s before [] v a = (s, refl, subst (law.Shows s) (sym (append-nil before)) v)
  insert_all-Shows s before (row ∷ rows) v a =
      let (s1, run, w) = law.insert_shows s before row v a.0 in
      let (s2, more, u) = insert_all-Shows s1 (before ++ row ∷ []) rows w a.1 in
      (s2, rw run more, subst (law.Shows s2) (append_assoc before (row ∷ []) rows) u)

  pub insert_all-Tabulates : (rows : List (List ℕ)) → AllTen rows → Tabulates table rows
  insert_all-Tabulates rows a =
      let (s, run, v) = insert_all-Shows table.new [] rows law.new_shows a in
      record {
        store = s;
        inserted = run;
        values = λ i j h k. law.get_shows s rows i j v h k;
        sums = λ j k. law.sum_shows s rows j v k;
      }

-- Any rows of ten values can be inserted into a store of each layout, where the pages of the third one
-- take at least one row. Each store then gives every value of every row, and the sum of every column,
-- taken from its first row to its last with a panic on overflow: the three agree.
pub stores-Tabulates :
    (page_rows : ℕ) (rows : List (List ℕ))
    → 0 < page_rows
    → AllTen rows
    → Tabulates row_store rows × Tabulates col_store rows × Tabulates (pax_store page_rows) rows
stores-Tabulates page_rows rows pos a = (
  insert_all-Tabulates row_store row_store-IsTable rows a,
  insert_all-Tabulates col_store col_store-IsTable rows a,
  insert_all-Tabulates (pax_store page_rows) (pax_store-IsTable page_rows pos) rows a,
)

-- ===== src/Stores.antt =====
-- src/foundations/row_vs_col.rs: one table of ten columns of `i64`, kept by rows, by columns, and by pages
-- of columns. An `i64` is its 64 bits; a sum that overflows is a panic.
pub mod Columns
pub mod Pax
pub mod Tables
mod Tests
use task_pool_concurrency_im.Prelude.{
  ℕ, zero, suc, ◌+◌, ◌-◌, ◌%◌, ◌/◌, List, [], ◌∷◌, ◌++◌, Bool, true, false, not, Option, none, some,
  Outcome, ok, err, panic, IoError, ◌>>=◌, leb, ◌==◌, if◌then◌else◌, length, get_elem?, set,
  replicate,
}

-- `xs[i]`.
abbrev pub index : {A : Type 0} → List A → ℕ → Outcome IoError A
index xs i = elim (get_elem? xs i) [ none ↦ panic | some x ↦ ok x ]

abbrev is_negative : ℕ → Bool
is_negative x = leb 9223372036854775808 x

abbrev same_sign : Bool → Bool → Bool
same_sign true true = true
same_sign false false = true
same_sign _ _ = false

unfoldable pub add_i64 : ℕ → ℕ → Outcome IoError ℕ
add_i64 x y =
    let sum = (x + y) % 18446744073709551616 in
    if same_sign (is_negative x) (is_negative y)
    then (if same_sign (is_negative x) (is_negative sum) then ok sum else panic)
    else ok sum

-- What is left of `iter().sum()`, with the sum so far.
unfoldable pub add_all : ℕ → List ℕ → Outcome IoError ℕ
add_all sum [] = ok sum
add_all sum (v ∷ vs) = add_i64 sum v >>= λ t. add_all t vs

-- The operations of a table.
pub record ColumnTable : Type 1 where
  pub Store : Type 0
  pub new : Store
  pub insert : Store → List ℕ → Outcome IoError Store
  pub get : Store → ℕ → ℕ → Outcome IoError ℕ
  pub get_col_sum : Store → ℕ → Outcome IoError ℕ

-- Its field `data`, and that of `ColStore`, are named for what they hold.
pub record RowStore : Type 0 where
  pub rows : List (List ℕ)

unfoldable pub add_column : ℕ → ℕ → List (List ℕ) → Outcome IoError ℕ
add_column column sum [] = ok sum
add_column column sum (row ∷ rows) =
    index row column >>= λ v. add_i64 sum v >>= λ t. add_column column t rows

abbrev pub row_store : ColumnTable
row_store = record {
  Store = RowStore;
  new = record { rows = [] };
  insert = λ s row. ok (record { rows = s.rows ++ row ∷ [] });
  get = λ s row column. index s.rows row >>= λ r. index r column;
  get_col_sum = λ s column. add_column column 0 s.rows;
}

pub record ColStore : Type 0 where
  pub columns : List (List ℕ)

-- The values of a row, each at the end of its column, from column `col` on.
unfoldable pub push_each : List (List ℕ) → ℕ → List ℕ → Outcome IoError (List (List ℕ))
push_each cols col [] = ok cols
push_each cols col (v ∷ vs) =
    index cols col >>= λ c. push_each (set cols col (c ++ v ∷ [])) (col + 1) vs

abbrev pub col_store : ColumnTable
col_store = record {
  Store = ColStore;
  new = record { columns = replicate 10 [] };
  insert = λ s row. push_each s.columns 0 row >>= λ cols. ok (record { columns = cols });
  get = λ s row column. index s.columns column >>= λ c. index c row;
  get_col_sum = λ s column. index s.columns column >>= λ c. add_all 0 c;
}

pub record PaxPage : Type 0 where
  pub columns : List (List ℕ)
  pub rows : ℕ

pub record PaxStore : Type 0 where
  pub pages : List PaxPage

abbrev pub empty_page : PaxPage
empty_page = record { columns = replicate 10 []; rows = 0 }

-- `pages.last()`.
abbrev pub last : List PaxPage → Option PaxPage
last [] = none
last (p ∷ []) = some p
last (p ∷ q ∷ ps) = last (q ∷ ps)

-- The pages, with a new one at the end where there is none or the last one is full.
abbrev pub with_room : ℕ → List PaxPage → List PaxPage
with_room page_rows pages = elim (last pages) [
  | none ↦ pages ++ empty_page ∷ []
  | some page ↦ if page.rows == page_rows then pages ++ empty_page ∷ [] else pages
]

abbrev pub add_row : PaxPage → List ℕ → Outcome IoError PaxPage
add_row page row = push_each page.columns 0 row >>= λ columns.
    ok (record { columns = columns; rows = page.rows + 1 })

-- On the page that `last_mut().unwrap()` gives.
unfoldable pub add_to_last : List PaxPage → List ℕ → Outcome IoError (List PaxPage)
add_to_last [] row = panic
add_to_last (p ∷ []) row = add_row p row >>= λ p'. ok (p' ∷ [])
add_to_last (p ∷ q ∷ ps) row = add_to_last (q ∷ ps) row >>= λ pages. ok (p ∷ pages)

unfoldable pub add_pages : ℕ → ℕ → List PaxPage → Outcome IoError ℕ
add_pages column sum [] = ok sum
add_pages column sum (page ∷ pages) =
    index page.columns column >>= λ c. add_all sum c >>= λ t. add_pages column t pages

abbrev pub pax_store : ℕ → ColumnTable
pax_store page_rows = record {
  Store = PaxStore;
  new = record { pages = [] };
  insert = λ s row.
      add_to_last (with_room page_rows s.pages) row >>= λ pages. ok (record { pages = pages });
  get = λ s row column.
      if page_rows == 0
      then panic
      else (index s.pages (row / page_rows) >>= λ page.
          index page.columns column >>= λ c. index c (row % page_rows));
  get_col_sum = λ s column. add_pages column 0 s.pages;
}

-- Rows inserted one after another.
unfoldable pub insert_all :
    (table : ColumnTable) → table.Store → List (List ℕ) → Outcome IoError table.Store
insert_all table s [] = ok s
insert_all table s (row ∷ rows) = table.insert s row >>= λ s'. insert_all table s' rows

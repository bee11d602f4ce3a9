-- ===== src/Stores/Columns.antt =====
-- The columns of a table, and what the insertion of a row does to them.
use task_pool_concurrency_im.Prelude.{
  ℕ, zero, suc, ◌+◌, ◌≤◌, ◌<◌, ◌≡◌, refl, List, [], ◌∷◌, ◌++◌, Outcome, ok, arith, length, get_or,
  set, length-set, get_or-set, get_elem?-get_or, ◌∙◌, ap, sym, subst, length-replicate,
  get_or-replicate, replicate, IoError, ◌>>=◌,
}
use mathlib.Core.Path.{fun_ext}
use task_pool_concurrency_im.Stores.{push_each, index, add_all, add_column, add_i64}

abbrev pub column : ℕ → List (List ℕ) → List ℕ
column j [] = []
column j (row ∷ rows) = get_or row j 0 ∷ column j rows

pub column-append :
    (j : ℕ) (rows more : List (List ℕ)) → column j (rows ++ more) ≡ column j rows ++ column j more
column-append j [] more = refl
column-append j (row ∷ rows) more = ap (get_or row j 0 ∷◌) (column-append j rows more)

pub column-length : (j : ℕ) (rows : List (List ℕ)) → length (column j rows) ≡ length rows
column-length j [] = refl
column-length j (row ∷ rows) = ap suc (column-length j rows)

pub column-get :
    (j : ℕ) (rows : List (List ℕ)) (i : ℕ)
    → i < length rows
    → get_or (column j rows) i 0 ≡ get_or (get_or rows i []) j 0
column-get j [] i h = absurd (omega arith)
column-get j (row ∷ rows) zero h = refl
column-get j (row ∷ rows) (suc i) h = column-get j rows i (omega arith)

pub index-ok :
    {A : Type 0} → (xs : List A) (i : ℕ) (d : A) → i < length xs → index xs i ≡ ok (get_or xs i d)
index-ok xs i d h = ground (arith, get_elem?-get_or xs i d h)

-- The columns that `push_each` leaves.
record Pushed (cols cols' : List (List ℕ)) (col : ℕ) (vs : List ℕ) : Type 0 where
  same_length : length cols' ≡ length cols
  before : (j : ℕ) → j < col → get_or cols' j [] ≡ get_or cols j []
  pushed :
      (k : ℕ)
      → k < length vs
      → get_or cols' (col + k) [] ≡ get_or cols (col + k) [] ++ get_or vs k 0 ∷ []

push_each-Pushed :
    (cols : List (List ℕ)) (col : ℕ) (vs : List ℕ)
    → col + length vs ≤ length cols
    → (cols' : List (List ℕ)) × (push_each cols col vs ≡ ok cols') × Pushed cols cols' col vs
unfolding push_each
push_each-Pushed cols col [] h = (
  cols,
  refl,
  record { same_length = refl; before = λ j p. refl; pushed = λ k p. absurd (omega arith) },
)
push_each-Pushed cols col (v ∷ vs) h =
    let c = get_or cols col [] in
    let there = index-ok cols col [] (omega arith) in
    let next = set cols col (c ++ v ∷ []) in
    let at = λ (j : ℕ). get_or-set cols col j (c ++ v ∷ []) [] (omega arith) in
    let sized = length-set cols col (c ++ v ∷ []) in
    let (cols', run, p) = push_each-Pushed next (col + 1) vs (omega (arith, sized)) in
    (
      cols',
      rw there run,
      record {
        same_length = p.same_length ∙ sized;
        before = λ j q. p.before j (omega arith) ∙ ground (arith, at j);
        pushed = λ k q.
            elim k
                as (λ k.
                  k < suc (length vs)
                  → get_or cols' (col + k) []
                    ≡ get_or cols (col + k) [] ++ get_or (v ∷ vs) k 0 ∷ []) [
                      | zero ↦ λ q.
                          let e : col + 0 ≡ col = omega arith in
                          rw e (p.before col (omega arith) ∙ ground (arith, at col))
                      | suc k ↦ λ q.
                          let e : col + suc k ≡ (col + 1) + k = omega arith in
                          let old : get_or next ((col + 1) + k) []
                              ≡ get_or cols ((col + 1) + k) [] =
                            ground (arith, at ((col + 1) + k)) in
                          rw e (
                            p.pushed k (omega arith)
                            ∙ ap (λ (l : List ℕ). l ++ get_or vs k 0 ∷ []) old)
                    ]
              q;
      },
    )

plus_none : (j : ℕ) → 0 + j ≡ j
plus_none j = omega arith

-- Ten columns of these rows.
pub record AreColumns (cols : List (List ℕ)) (rows : List (List ℕ)) : Type 0 where
  pub ten : length cols ≡ 10
  pub columns : (j : ℕ) → j < 10 → get_or cols j [] ≡ column j rows

pub push_each-AreColumns :
    (cols rows : List (List ℕ)) (row : List ℕ)
    → AreColumns cols rows
    → length row ≡ 10
    → (cols' : List (List ℕ)) × (push_each cols 0 row ≡ ok cols')
      × AreColumns cols' (rows ++ row ∷ [])
push_each-AreColumns cols rows row v l =
    let ten = v.ten in
    let (cols', run, p) = push_each-Pushed cols 0 row (omega (arith, ten)) in
    (
      cols',
      run,
      record {
        ten = p.same_length ∙ ten;
        columns = λ j h.
            subst (λ (k : ℕ). get_or cols' k [] ≡ get_or cols k [] ++ get_or row j 0 ∷ [])
              (plus_none j) (p.pushed j (omega arith))
            ∙ ap (λ (c : List ℕ). c ++ get_or row j 0 ∷ []) (v.columns j h)
            ∙ sym (column-append j rows (row ∷ []));
      },
    )

pub empty-AreColumns : AreColumns (replicate 10 []) []
empty-AreColumns = record {
  ten = length-replicate 10 [];
  columns = λ j h. get_or-replicate 10 j [];
}

-- A column summed row by row.
pub add_column-add_all :
    (j sum : ℕ) (rows : List (List ℕ))
    → ((i : ℕ) → i < length rows → j < length (get_or rows i []))
    → add_column j sum rows ≡ add_all sum (column j rows)
unfolding add_column add_all
add_column-add_all j sum [] h = refl
add_column-add_all j sum (row ∷ rows) h =
    let there = index-ok row j 0 (h 0 (omega arith)) in
    let later = λ (t : ℕ). add_column-add_all j t rows (λ i q. h (suc i) (omega arith)) in
    rw there
      (ap (λ (k : ℕ → Outcome IoError ℕ). add_i64 sum (get_or row j 0) >>= k) (fun_ext later))

-- ===== src/Stores/Pax.antt =====
-- Pages of columns: every page but the last one is full.
use native.Mathlib.Nat.{div-eq_of_lt, div-eq-sub-div, mod-eq_of_lt, mod-eq-sub-mod}
use task_pool_concurrency_im.Prelude.{
  ℕ, zero, suc, ◌+◌, ◌-◌, ◌/◌, ◌%◌, ◌≤◌, ◌<◌, ◌≡◌, ◌≢◌, ◌⊎◌, inl, inr, refl, List, [], ◌∷◌, ◌++◌,
  Outcome, ok, arith, length, get_or, ◌∙◌, ap, sym, subst, length-append, Option-cases, ℕ_discrete,
  dec_lt, append_assoc, append-nil, IoError, ◌>>=◌, Outcome-cases,
}
use mathlib.Core.Path.{fun_ext}
use task_pool_concurrency_im.Stores.{
  PaxPage, empty_page, last, with_room, add_row, add_to_last, add_pages, add_all, add_i64, index,
}
use task_pool_concurrency_im.Stores.Columns.{
  AreColumns, push_each-AreColumns, empty-AreColumns, column, column-append, column-length,
  column-get, index-ok,
}

-- These rows, on a page of at most `page_rows` of them.
pub record IsPage (page_rows : ℕ) (page : PaxPage) (rows : List (List ℕ)) : Type 0 where
  pub columns : AreColumns page.columns rows
  pub counted : page.rows ≡ length rows
  pub some_rows : 0 < length rows
  pub fits : length rows ≤ page_rows

abbrev pub IsPacked : ℕ → List PaxPage → List (List ℕ) → Type 0
IsPacked page_rows [] rows = rows ≡ []
IsPacked page_rows (page ∷ pages) rows =
    (first : List (List ℕ)) × (rest : List (List ℕ)) × (rows ≡ first ++ rest)
    × IsPage page_rows page first
    × ((pages ≡ []) ⊎ (length first ≡ page_rows))
    × IsPacked page_rows pages rest

deeper :
    (page_rows : ℕ) (p q : PaxPage) (ps : List PaxPage) (row : List ℕ)
    → add_to_last (with_room page_rows (p ∷ q ∷ ps)) row
      ≡ (add_to_last (with_room page_rows (q ∷ ps)) row >>= λ pages. ok (p ∷ pages))
unfolding add_to_last
deeper page_rows p q ps row = elim (Option-cases (last (q ∷ ps))) [
  | inl e ↦ ground arith
  | inr (page, e) ↦ ground arith
]

module _ (page_rows : ℕ) (positive : 0 < page_rows) (row : List ℕ) (ten : length row ≡ 10) where
  abbrev Added : List PaxPage → List (List ℕ) → Type 0
  Added pages rows =
      (pages' : List PaxPage) × (add_to_last (with_room page_rows pages) row ≡ ok pages')
      × (pages' ≢ [])
      × IsPacked page_rows pages' (rows ++ row ∷ [])

  first_row : (p : PaxPage) × (add_row empty_page row ≡ ok p) × IsPage page_rows p (row ∷ [])
  first_row =
      let (cols, run, v) = push_each-AreColumns empty_page.columns [] row empty-AreColumns ten in
      (
        record { columns = cols; rows = 1 },
        rw run refl,
        record { columns = v; counted = refl; some_rows = omega arith; fits = omega arith },
      )

  one_page : (p : PaxPage) (first : List (List ℕ)) → IsPage page_rows p first → Added (p ∷ []) first
  unfolding add_to_last
  one_page p first v = elim (ℕ_discrete p.rows page_rows) [
    | yes e ↦
        let (q, run, w) = first_row in
        (
          p ∷ q ∷ [],
          ground (arith, run),
          (λ h. ground arith),
          (
            first,
            row ∷ [],
            refl,
            v,
            inr (sym v.counted ∙ e),
            (row ∷ [], [], refl, w, inl refl, refl),
          ),
        )
    | no n ↦
        let (cols, run, w) = push_each-AreColumns p.columns first row v.columns ten in
        let counted = v.counted in
        let fits = v.fits in
        let sized = length-append first (row ∷ []) in
        let q : PaxPage = record { columns = cols; rows = p.rows + 1 } in
        (
          q ∷ [],
          ground (arith, run),
          (λ h. ground arith),
          (
            first ++ row ∷ [],
            [],
            sym (append-nil (first ++ row ∷ [])),
            record {
              columns = w;
              counted = omega (arith, counted, sized);
              some_rows = omega (arith, sized);
              fits = omega (arith, counted, fits, sized, n);
            },
            inl refl,
            refl,
          ),
        )
  ]

  -- A row that is inserted comes last.
  pub insert-IsPacked :
      (pages : List PaxPage) (rows : List (List ℕ))
      → IsPacked page_rows pages rows
      → Added pages rows
  unfolding add_to_last
  insert-IsPacked [] rows e =
      let (q, run, w) = first_row in
      (
        q ∷ [],
        ground (arith, run),
        (λ h. ground arith),
        (row ∷ [], [], ap (λ (l : List (List ℕ)). l ++ row ∷ []) e, w, inl refl, refl),
      )
  insert-IsPacked (p ∷ []) rows (first, rest, e, v, full, none_left) =
      let same : first ≡ rows =
        sym (e ∙ ap (λ (l : List (List ℕ)). first ++ l) none_left ∙ append-nil first) in
      subst (Added (p ∷ [])) same (one_page p first v)
  insert-IsPacked (p ∷ q ∷ ps) rows (first, rest, e, v, full, more) =
      let (pages', run, some_pages, w) = insert-IsPacked (q ∷ ps) rest more in
      (
        p ∷ pages',
        deeper page_rows p q ps row ∙ ap (λ r. r >>= λ pages. ok (p ∷ pages)) run,
        (λ h. ground arith),
        (
          first,
          rest ++ row ∷ [],
          ap (λ (l : List (List ℕ)). l ++ row ∷ []) e ∙ append_assoc first rest (row ∷ []),
          v,
          elim full [ inl h ↦ absurd (ground arith) | inr h ↦ inr h ],
          w,
        ),
      )

add_all-append :
    (sum : ℕ) (xs ys : List ℕ) → add_all sum (xs ++ ys) ≡ (add_all sum xs >>= λ t. add_all t ys)
unfolding add_all
add_all-append sum [] ys = refl
add_all-append sum (x ∷ xs) ys = elim (Outcome-cases (add_i64 sum x)) [
  | inl (t, e) ↦ ground (arith, add_all-append t xs ys)
  | inr (inl (x, e)) ↦ ground arith
  | inr (inr e) ↦ ground arith
]

pub add_pages-IsPacked :
    (page_rows j sum : ℕ) (pages : List PaxPage) (rows : List (List ℕ))
    → j < 10
    → IsPacked page_rows pages rows
    → add_pages j sum pages ≡ add_all sum (column j rows)
unfolding add_pages
add_pages-IsPacked page_rows j sum [] rows h e =
    let none_left : add_all sum (column j rows) ≡ ok sum =
      ap (λ (l : List (List ℕ)). add_all sum (column j l)) e ∙ unfold add_all in refl in
    sym none_left
add_pages-IsPacked page_rows j sum (p ∷ ps) rows h (first, rest, e, v, full, more) =
    let width = v.columns.ten in
    let there = index-ok p.columns j [] (omega arith) ∙ ap ok (v.columns.columns j h) in
    let later = λ (t : ℕ). add_pages-IsPacked page_rows j t ps rest h more in
    let split = add_all-append sum (column j first) (column j rest) in
    let same : add_all sum (column j rows)
        ≡ (add_all sum (column j first) >>= λ t. add_all t (column j rest)) =
      ap (λ (l : List (List ℕ)). add_all sum (column j l)) e
      ∙ ap (add_all sum) (column-append j first rest)
      ∙ split in
    rw there (
      ap (λ (k : ℕ → Outcome IoError ℕ). add_all sum (column j first) >>= k) (fun_ext later)
      ∙ sym same)

get_or-front :
    (xs ys : List (List ℕ)) (i : ℕ) → i < length xs → get_or (xs ++ ys) i [] ≡ get_or xs i []
get_or-front [] ys i h = absurd (omega arith)
get_or-front (x ∷ xs) ys zero h = refl
get_or-front (x ∷ xs) ys (suc i) h = get_or-front xs ys i (omega arith)

get_or-back :
    (xs ys : List (List ℕ)) (i : ℕ) → get_or (xs ++ ys) (length xs + i) [] ≡ get_or ys i []
get_or-back [] ys i = let e : 0 + i ≡ i = omega arith in ap (λ (k : ℕ). get_or ys k []) e
get_or-back (x ∷ xs) ys i =
    let e : suc (length xs) + i ≡ suc (length xs + i) = omega arith in rw e (get_or-back xs ys i)

-- `get`, past its test.
abbrev pub value_at : ℕ → List PaxPage → ℕ → ℕ → Outcome IoError ℕ
value_at page_rows pages row column = index pages (row / page_rows) >>= λ page.
    index page.columns column >>= λ c. index c (row % page_rows)

pub value_at-IsPacked :
    (page_rows : ℕ) (pages : List PaxPage) (rows : List (List ℕ)) (i j : ℕ)
    → 0 < page_rows
    → j < 10
    → i < length rows
    → IsPacked page_rows pages rows
    → value_at page_rows pages i j ≡ ok (get_or (get_or rows i []) j 0)
value_at-IsPacked page_rows [] rows i j pos h k e = absurd (omega (arith, ap length e))
value_at-IsPacked page_rows (p ∷ ps) rows i j pos h k (first, rest, e, v, full, more) =
    let width = v.columns.ten in
    let fits = v.fits in
    let sized = ap length e ∙ length-append first rest in
    elim (dec_lt i (length first)) [
      | yes near ↦
          let small : i < page_rows = omega arith in
          let there = index-ok p.columns j [] (omega arith) ∙ ap ok (v.columns.columns j h) in
          let cells = index-ok (column j first) i 0 (omega (arith, column-length j first)) in
          let value : get_or (column j first) i 0 ≡ get_or (get_or rows i []) j 0 =
            column-get j first i near
            ∙ ap (λ (r : List ℕ). get_or r j 0)
                (sym
                  (ap (λ (l : List (List ℕ)). get_or l i []) e ∙ get_or-front first rest i near)) in
          rw (div-eq_of_lt small, mod-eq_of_lt small, there) (cells ∙ ap ok value)
      | no far ↦ elim full [
        | inl last_page ↦
            let left : rest ≡ [] =
              subst (λ (l : List PaxPage). IsPacked page_rows l rest) last_page more in
            absurd (omega (arith, sized, ap length left))
        | inr size ↦
            let i' = i - page_rows in
            let back : i ≡ length first + i' = omega (arith, size) in
            let next : i / page_rows ≡ suc (i' / page_rows) =
              div-eq-sub-div pos (omega (arith, size)) ∙ plus_one (i' / page_rows) in
            let same = mod-eq-sub-mod {n = i} {m = page_rows} (omega (arith, size)) in
            let value : get_or rest i' [] ≡ get_or rows i [] = sym (
              ap (λ (l : List (List ℕ)). get_or l i []) e
              ∙ ap (λ (k : ℕ). get_or (first ++ rest) k []) back
              ∙ get_or-back first rest i') in
            let again =
              value_at-IsPacked page_rows ps rest i' j pos h (omega (arith, sized, size)) more in
            rw (next, same) (again ∙ ap (λ (r : List ℕ). ok (get_or r j 0)) value)
      ]
    ]
  where
    plus_one : (n : ℕ) → n + 1 ≡ suc n
    plus_one n = omega arith

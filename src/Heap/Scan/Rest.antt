-- ===== src/Heap/Scan/Rest.antt =====
-- What a scan has still to answer, as a function of the records in the file.
use task_pool_concurrency_im.Prelude.{
  ℕ, zero, suc, ◌+◌, ◌-◌, ◌≤◌, ◌<◌, ◌≡◌, ◌∙◌, refl, ap, sym, List, [], ◌∷◌, ◌++◌, arith, length,
  get_or, drop,
}

-- The records that are not empty.
unfoldable pub live : List (List ℕ) → List (List ℕ)
live [] = []
live ([] ∷ rs) = live rs
live ((b ∷ bs) ∷ rs) = (b ∷ bs) ∷ live rs

unfoldable pub all_live : List (List (List ℕ)) → List (List ℕ)
all_live [] = []
all_live (c ∷ css) = live c ++ all_live css

-- From slot `s` of page `p` on.
pub remaining : List (List (List ℕ)) → ℕ → ℕ → List (List ℕ)
remaining [] p s = []
remaining (c ∷ css) zero s = live (drop s c) ++ all_live css
remaining (c ∷ css) (suc p) s = remaining css p s

-- The rounds that a scan has still to make, but the last one.
unfoldable pub work : List (List (List ℕ)) → ℕ → ℕ → ℕ
work [] p s = 0
work (c ∷ css) zero s = suc (length c - s) + work css 0 0
work (c ∷ css) (suc p) s = work css p s

-- One record goes before the rest, unless it is empty.
abbrev pub before : List ℕ → List (List ℕ) → List (List ℕ)
before [] rest = rest
before (b ∷ bs) rest = (b ∷ bs) ∷ rest

pub all_live-remaining : (css : List (List (List ℕ))) → remaining css 0 0 ≡ all_live css
unfolding remaining all_live
all_live-remaining [] = refl
all_live-remaining (c ∷ css) = refl

drop_past : (c : List (List ℕ)) (s : ℕ) → length c ≤ s → drop s c ≡ []
drop_past [] zero h = refl
drop_past [] (suc s) h = refl
drop_past (x ∷ c) zero h = absurd (omega arith)
drop_past (x ∷ c) (suc s) h = drop_past c s (omega arith)

live-drop :
    (c : List (List ℕ)) (s : ℕ)
    → s < length c
    → live (drop s c) ≡ before (get_or c s []) (live (drop (suc s) c))
unfolding live
live-drop [] s h = absurd (omega arith)
live-drop ([] ∷ c) zero h = refl
live-drop ((b ∷ bs) ∷ c) zero h = refl
live-drop (x ∷ c) (suc s) h = live-drop c s (omega arith)

pub remaining_past :
    (css : List (List (List ℕ))) (p s : ℕ) → length css ≤ p → remaining css p s ≡ []
unfolding remaining
remaining_past [] p s h = refl
remaining_past (c ∷ css) zero s h = absurd (omega arith)
remaining_past (c ∷ css) (suc p) s h = remaining_past css p s (omega arith)

pub remaining_next_page :
    (css : List (List (List ℕ))) (p s : ℕ)
    → length (get_or css p []) ≤ s
    → p < length css
    → remaining css p s ≡ remaining css (suc p) 0
unfolding remaining live
remaining_next_page [] p s h q = absurd (omega arith)
remaining_next_page (c ∷ css) zero s h q =
    ap (λ l. live l ++ all_live css) (drop_past c s h) ∙ sym (all_live-remaining css)
remaining_next_page (c ∷ css) (suc p) s h q = remaining_next_page css p s h (omega arith)

before-append : (x : List ℕ) (l m : List (List ℕ)) → before x l ++ m ≡ before x (l ++ m)
before-append [] l m = refl
before-append (b ∷ bs) l m = refl

pub remaining_next_slot :
    (css : List (List (List ℕ))) (p s : ℕ)
    → s < length (get_or css p [])
    → remaining css p s ≡ before (get_or (get_or css p []) s []) (remaining css p (suc s))
unfolding remaining
remaining_next_slot [] p s h = absurd (omega arith)
remaining_next_slot (c ∷ css) zero s h =
    ap (λ l. l ++ all_live css) (live-drop c s h)
    ∙ before-append (get_or c s []) (live (drop (suc s) c)) (all_live css)
remaining_next_slot (c ∷ css) (suc p) s h = remaining_next_slot css p s h

pub work_next_page :
    (css : List (List (List ℕ))) (p s : ℕ) → p < length css → work css (suc p) 0 < work css p s
unfolding work
work_next_page [] p s h = absurd (omega arith)
work_next_page (c ∷ css) zero s h = omega arith
work_next_page (c ∷ css) (suc p) s h = work_next_page css p s (omega arith)

pub work_next_slot :
    (css : List (List (List ℕ))) (p s : ℕ)
    → s < length (get_or css p [])
    → work css p (suc s) < work css p s
unfolding work
work_next_slot [] p s h = absurd (omega arith)
work_next_slot (c ∷ css) zero s h = omega arith
work_next_slot (c ∷ css) (suc p) s h = work_next_slot css p s h

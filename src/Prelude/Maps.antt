-- ===== src/Prelude/Maps.antt =====
-- `HashMap` as an association list; its order of iteration, which Rust leaves open, is the list's.
use Prim.Native.Nat.{ℕ}
use mathlib.Core.Path.{◌≡◌, refl}
use mathlib.Core.Bool.{Bool, true, false}
use mathlib.Core.List.{List, [], ◌∷◌}
use mathlib.Core.Option.{Option, none, some}
use native.Mathlib.Omega.{arith}
use task_pool_concurrency_im.Prelude.Tests.{◌==◌, if◌then◌else◌}

module _ {ℓ} {V : Type ℓ} where
  abbrev pub find : List (ℕ × V) → ℕ → Option V
  find [] k = none
  find ((j, v) ∷ m) k = if j == k then some v else find m k

  abbrev pub remove : List (ℕ × V) → ℕ → List (ℕ × V)
  remove [] k = []
  remove ((j, v) ∷ m) k = if j == k then remove m k else (j, v) ∷ remove m k

  abbrev pub contains_key : List (ℕ × V) → ℕ → Bool
  contains_key m k = elim (find m k) [ none ↦ false | some v ↦ true ]

  abbrev pub insert : List (ℕ × V) → ℕ → V → List (ℕ × V)
  insert m k v = (k, v) ∷ remove m k

  abbrev pub keys : List (ℕ × V) → List ℕ
  keys [] = []
  keys ((j, v) ∷ m) = j ∷ keys m

  pub find-remove :
      (m : List (ℕ × V)) (k j : ℕ) → find (remove m k) j ≡ (if k == j then none else find m j)
  find-remove [] k j = ground arith
  find-remove ((i, v) ∷ m) k j = ground (arith, find-remove m k j)

  pub find-insert :
      (m : List (ℕ × V)) (k j : ℕ) (v : V)
      → find (insert m k v) j ≡ (if k == j then some v else find m j)
  find-insert m k j v = ground (arith, find-remove m k j)

  pub remove-absent : (m : List (ℕ × V)) (k : ℕ) → find m k ≡ none → remove m k ≡ m
  remove-absent [] k h = refl
  remove-absent ((j, v) ∷ m) k h = ground (arith, remove-absent m k)

-- ===== src/Pool/System/Queue.antt =====
-- The queue of free frames, as the sections of a system use it.
use task_pool_concurrency_im.Prelude.{
  ℕ, ◌≡◌, ◌≢◌, refl, List, [], ◌∷◌, ◌++◌, true, false, arith, ◌∙◌,
}
use task_pool_concurrency_im.Pool.System.Invariant.{queued, Distinct}

pub queued-push-other : (i k : ℕ) (is : List ℕ) → k ≢ i → queued k (is ++ i ∷ []) ≡ queued k is
queued-push-other i k [] n = ground arith
queued-push-other i k (j ∷ is) n = ground (arith, queued-push-other i k is n)

pub queued-push : (i : ℕ) (is : List ℕ) → queued i (is ++ i ∷ []) ≡ true
queued-push i [] = ground arith
queued-push i (j ∷ is) = ground (arith, queued-push i is)

pub Distinct-push :
    (i : ℕ) (is : List ℕ) → queued i is ≡ false → Distinct is → Distinct (is ++ i ∷ [])
Distinct-push i [] h d = (refl, tt)
Distinct-push i (j ∷ is) h d =
    let n : j ≢ i = λ e. ground arith in
    (queued-push-other i j is n ∙ d.0, Distinct-push i is (ground arith) d.1)

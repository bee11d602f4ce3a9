-- ===== src/Pool/System/Rules.antt =====
-- The parts that sections are made of, and that leave the bytes of every frame, the page table and the next
-- number as they are.
use task_pool_concurrency_im.Prelude.{
  ℕ, refl, Bool, true, false, Option, none, some, Outcome, arith, if◌then◌else◌,
}
use task_pool_concurrency_im.Pool.Frame
use task_pool_concurrency_im.Pool.Frame.{Frame, is_dirty}
use task_pool_concurrency_im.Pool.Metrics.{BufferPoolMetrics}
use task_pool_concurrency_im.Pool.Manager
use task_pool_concurrency_im.Pool.Manager.{
  BufferPoolManager, BufferPoolError, M, ◌>>=◌, ◌>>◌, ◌or_else◌, on_frame, find_victim, end_load,
  count, lookup, get_free_frame, add_free_frame, reserve_victim, return, fail, lift, Victim,
  no_evictable_frame,
}
use task_pool_concurrency_im.Pool.System.Quiet.{Quiet-refl, IsQuiet, KeepsBytes}

-- The calls on a frame that keep its bytes, and that do not clear its dirty bit.
pub reserve-KeepsBytes : KeepsBytes Frame.reserve
unfolding Frame.reserve is_dirty
reserve-KeepsBytes f g h = (ground arith, λ d. ground arith)

pub set_resident-KeepsBytes : KeepsBytes Frame.set_resident
unfolding Frame.set_resident is_dirty
set_resident-KeepsBytes f g h = (ground arith, λ d. ground arith)

pub set_free-KeepsBytes : KeepsBytes Frame.set_free
unfolding Frame.set_free is_dirty
set_free-KeepsBytes f g h = (ground arith, λ d. ground arith)

pub pin-KeepsBytes : KeepsBytes Frame.pin
unfolding Frame.pin is_dirty
pin-KeepsBytes f g h = (ground arith, λ d. ground arith)

pub unpin-KeepsBytes : KeepsBytes Frame.unpin
unfolding Frame.unpin is_dirty
unpin-KeepsBytes f g h = (ground arith, λ d. ground arith)

pub mark_referenced-KeepsBytes : KeepsBytes Frame.mark_referenced
unfolding Frame.mark_referenced is_dirty
mark_referenced-KeepsBytes f g h = (ground arith, λ d. ground arith)

pub mark_dirty-KeepsBytes : KeepsBytes Frame.mark_dirty
unfolding Frame.mark_dirty is_dirty
mark_dirty-KeepsBytes f g h = (ground arith, λ d. ground arith)

pub return-IsQuiet : {A : Type 0} (a : A) → IsQuiet (return a)
return-IsQuiet a = record { quiet = λ s h. Quiet-refl s h }

pub fail-IsQuiet : {A : Type 0} (e : BufferPoolError) → IsQuiet {A = A} (fail e)
fail-IsQuiet e = record { quiet = λ s h. Quiet-refl s h }

pub frame_at-IsQuiet : (i : ℕ) → IsQuiet (Manager.frame_at i)
frame_at-IsQuiet i = record { quiet = λ s h. Quiet-refl s h }

pub count-IsQuiet : (f : BufferPoolMetrics → BufferPoolMetrics) → IsQuiet (count f)
count-IsQuiet f = record {
  quiet = λ s h. record {
    same_table = refl;
    same_next = refl;
    like = λ k. (refl, λ d. d);
    in_range = h;
  };
}

pub end_load-IsQuiet : (p : ℕ) → IsQuiet (end_load p)
end_load-IsQuiet p = record {
  quiet = λ s h. record {
    same_table = refl;
    same_next = refl;
    like = λ k. (refl, λ d. d);
    in_range = h;
  };
}

pub if-IsQuiet :
    {A : Type 0} (b : Bool) (m n : M A) → IsQuiet m → IsQuiet n → IsQuiet (if b then m else n)
if-IsQuiet true m n a c = a
if-IsQuiet false m n a c = c

pub lift-IsQuiet : {A E : Type 0} (f : E → BufferPoolError) (o : Outcome E A) → IsQuiet (lift f o)
lift-IsQuiet f o = record { quiet = λ s h. Quiet-refl s h }

pub option-IsQuiet :
    {A B : Type 0} (o : Option A) (m : M B) (f : A → M B)
    → IsQuiet m
    → ((a : A) → IsQuiet (f a))
    → IsQuiet (elim o [ none ↦ m | some a ↦ f a ])
option-IsQuiet none m f q g = q
option-IsQuiet (some a) m f q g = g a

pub lookup-IsQuiet : (p : ℕ) → IsQuiet (lookup p)
lookup-IsQuiet p = record { quiet = λ s h. Quiet-refl s h }

pub pool-IsQuiet : IsQuiet Manager.pool
pool-IsQuiet = record { quiet = λ s h. Quiet-refl s h }

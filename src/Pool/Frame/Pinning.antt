-- ===== src/Pool/Frame/Pinning.antt =====
-- The pin count of a frame over many calls of `pin` and `unpin`.
use task_pool_concurrency_im.Prelude.{
  ℕ, zero, suc, ◌+◌, ◌≤◌, ◌≡◌, ◌∙◌, ap, sym, min, refl, false, some, Outcome, ok, IoError, ◌>>=◌,
  arith,
}
use task_pool_concurrency_im.Pool.Frame.{Frame, PageMeta, pin, unpin, is_pinned}

-- `n` calls in a row, each of which must succeed.
pub pin_times : ℕ → Frame → Outcome IoError Frame
pin_times zero f = ok f
pin_times (suc n) f = pin f >>= pin_times n

pub unpin_times : ℕ → Frame → Outcome IoError Frame
unpin_times zero f = ok f
unpin_times (suc n) f = unpin f >>= unpin_times n

-- The frame with its page pinned `c` times.
abbrev pub pinned : Frame → PageMeta → ℕ → Frame
pinned f meta c = record f { metadata = some (record meta { pin_count = c }) }

pin-pinned :
    (f : Frame) (meta : PageMeta) (c : ℕ)
    → pin (pinned f meta c) ≡ ok (pinned f meta (min (c + 1) 255))
unfolding pin
pin-pinned f meta c = refl

unpin-pinned :
    (f : Frame) (meta : PageMeta) (c : ℕ) → unpin (pinned f meta (suc c)) ≡ ok (pinned f meta c)
unfolding unpin
unpin-pinned f meta c = ground arith

-- However many pins there are, the count stops at 255.
pin_times-pinned :
    (n c : ℕ) (f : Frame) (meta : PageMeta)
    → c ≤ 255
    → pin_times n (pinned f meta c) ≡ ok (pinned f meta (min (c + n) 255))
unfolding pin_times
pin_times-pinned zero c f meta h = ground arith
pin_times-pinned (suc n) c f meta h =
    rw (pin-pinned f meta c)
      (pin_times-pinned n (min (c + 1) 255) f meta (omega arith) ∙ ground arith)

unpin_times-pinned :
    (n c d : ℕ) (f : Frame) (meta : PageMeta)
    → d ≡ c + n
    → unpin_times n (pinned f meta d) ≡ ok (pinned f meta c)
unfolding unpin_times
unpin_times-pinned zero c d f meta e = ground arith
unpin_times-pinned (suc n) c zero f meta e = absurd (omega arith)
unpin_times-pinned (suc n) c (suc d) f meta e =
    rw (unpin-pinned f meta d) (unpin_times-pinned n c d f meta (omega arith))

pinned_self :
    (f : Frame) (meta : PageMeta) → f.metadata ≡ some meta → f ≡ pinned f meta meta.pin_count
pinned_self f meta e = ground arith

pins_unpins :
    (n m c d : ℕ) (f : Frame) (meta : PageMeta)
    → c ≤ 255
    → min (c + n) 255 ≡ d + m
    → (pin_times n (pinned f meta c) >>= unpin_times m) ≡ ok (pinned f meta d)
pins_unpins n m c d f meta h e =
    rw (pin_times-pinned n c f meta h) (unpin_times-pinned m d (min (c + n) 255) f meta e)

-- While the count stays within 255, as many unpins as pins give back the very frame.
pub unpin_times-pin_times :
    (n : ℕ) (f : Frame) (meta : PageMeta)
    → f.metadata ≡ some meta
    → meta.pin_count + n ≤ 255
    → (pin_times n f >>= unpin_times n) ≡ ok f
unpin_times-pin_times n f meta e h =
    let same = pinned_self f meta e in
    ap (λ (g : Frame). pin_times n g >>= unpin_times n) same
    ∙ pins_unpins n n meta.pin_count meta.pin_count f meta (omega arith) (omega arith)
    ∙ sym (ap ok same)

-- However many pins a frame has been given, if there are at least 255, then 255 unpins leave it unpinned,
-- and so open to eviction.
pub unpin_times-saturated :
    (n : ℕ) (f : Frame) (meta : PageMeta)
    → f.metadata ≡ some meta
    → 255 ≤ n
    → meta.pin_count ≤ 255
    → (g : Frame) × ((pin_times n f >>= unpin_times 255) ≡ ok g) × (is_pinned g ≡ false)
unfolding is_pinned
unpin_times-saturated n f meta e h k = (
  pinned f meta 0,
  ap (λ (g : Frame). pin_times n g >>= unpin_times 255) (pinned_self f meta e)
      ∙ pins_unpins n 255 meta.pin_count 0 f meta k (omega arith),
  refl,
)

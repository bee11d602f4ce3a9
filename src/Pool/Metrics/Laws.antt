-- ===== src/Pool/Metrics/Laws.antt =====
-- The two rates that the metrics report.
use task_pool_concurrency_im.Prelude.{
  ℕ, ◌+◌, ◌%◌, ◌<◌, ◌≡◌, refl, List, [], ◌∷◌, Outcome, ok, arith, if◌then◌else◌, lt→ltb, Bool, true,
  false,
}
use task_pool_concurrency_im.Pool.Metrics.{
  BufferPoolMetrics, record_fetch, record_hit, record_miss, record_eviction, u64_mod, Float,
  MetricsSnapshot, snapshot, hit_rate,
}

-- What the pool records.
pub data Event : Type 0 where
  fetch hit miss eviction : Event

pub log : BufferPoolMetrics → List Event → BufferPoolMetrics
log m [] = m
log m (fetch ∷ es) = log (record_fetch m) es
log m (hit ∷ es) = log (record_hit m) es
log m (miss ∷ es) = log (record_miss m) es
log m (eviction ∷ es) = log (record_eviction m) es

abbrev event_eq : Event → Event → Bool
event_eq fetch fetch = true
event_eq hit hit = true
event_eq miss miss = true
event_eq eviction eviction = true
event_eq _ _ = false

pub count : Event → List Event → ℕ
count a [] = 0
count a (e ∷ es) = (if event_eq a e then 1 else 0) + count a es

-- Each counter starts from a value and counts its own events, and wraps around at 2 ^ 64.
pub log-count :
    (m : BufferPoolMetrics) (es : List Event)
    → m.fetches < u64_mod
    → m.cache_hits < u64_mod
    → m.cache_misses < u64_mod
    → m.evictions < u64_mod
    → log m es ≡ record {
      fetches = (m.fetches + count fetch es) % u64_mod;
      cache_hits = (m.cache_hits + count hit es) % u64_mod;
      cache_misses = (m.cache_misses + count miss es) % u64_mod;
      evictions = (m.evictions + count eviction es) % u64_mod;
    }
unfolding log count record_fetch record_hit record_miss record_eviction
log-count m [] p q r s = ground arith
log-count m (fetch ∷ es) p q r s =
    ground
      (arith, log-count (record m { fetches = (m.fetches + 1) % u64_mod }) es (omega arith) q r s)
log-count m (hit ∷ es) p q r s = ground (
  arith,
  log-count (record m { cache_hits = (m.cache_hits + 1) % u64_mod }) es p (omega arith) r s,
)
log-count m (miss ∷ es) p q r s = ground (
  arith,
  log-count (record m { cache_misses = (m.cache_misses + 1) % u64_mod }) es p q (omega arith) s,
)
log-count m (eviction ∷ es) p q r s =
    ground (
      arith,
      log-count (record m { evictions = (m.evictions + 1) % u64_mod }) es p q r (omega arith),
    )

if-ok {ℓ κ} :
    {E : Type ℓ} {A : Type κ} (b : Bool) (x y : A)
    → ◌≡◌ {A = Outcome E A} (if b then ok x else ok y) (ok (if b then x else y))
if-ok true x y = refl
if-ok false x y = refl

-- The rate of the snapshot and `hit_rate` agree, for any floating-point type, while there have been as
-- many fetches as hits and misses together.
pub snapshot-hit_rate :
    (fl : Float) (m : BufferPoolMetrics)
    → m.fetches ≡ m.cache_hits + m.cache_misses
    → m.fetches < u64_mod
    → hit_rate fl m ≡ ok (MetricsSnapshot.rate (snapshot fl m))
unfolding hit_rate snapshot
snapshot-hit_rate fl m e h =
    rw (lt→ltb (m.cache_hits + m.cache_misses) u64_mod (omega arith), ← e) (if-ok _ _ _)

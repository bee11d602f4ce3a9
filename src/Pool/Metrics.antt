-- ===== src/Pool/Metrics.antt =====
-- src/storage/buffer_pool/metrics.rs: counters, and the hit rate, whose floating-point type is a
-- parameter.
pub mod Laws
use task_pool_concurrency_im.Prelude.{
  ℕ, ◌+◌, ◌%◌, ◌^◌, Outcome, ok, panic, if◌then◌else◌, ◌==◌, ltb,
}

-- Relaxed atomic counters, which wrap around at 2 ^ 64.
pub record BufferPoolMetrics : Type 0 where
  pub fetches : ℕ
  pub cache_hits : ℕ
  pub cache_misses : ℕ
  pub evictions : ℕ

abbrev pub u64_mod : ℕ
u64_mod = 2 ^ 64

unfoldable pub new : BufferPoolMetrics
new = record { fetches = 0; cache_hits = 0; cache_misses = 0; evictions = 0 }

abbrev fetch_add : ℕ → ℕ
fetch_add n = (n + 1) % u64_mod

unfoldable pub record_fetch : BufferPoolMetrics → BufferPoolMetrics
record_fetch m = record m { fetches = fetch_add m.fetches }

unfoldable pub record_hit : BufferPoolMetrics → BufferPoolMetrics
record_hit m = record m { cache_hits = fetch_add m.cache_hits }

unfoldable pub record_miss : BufferPoolMetrics → BufferPoolMetrics
record_miss m = record m { cache_misses = fetch_add m.cache_misses }

unfoldable pub record_eviction : BufferPoolMetrics → BufferPoolMetrics
record_eviction m = record m { evictions = fetch_add m.evictions }

unfoldable pub reset : BufferPoolMetrics → BufferPoolMetrics
reset m = record { fetches = 0; cache_hits = 0; cache_misses = 0; evictions = 0 }

-- `f64`, as far as the rates use it.
pub record Float : Type 1 where
  pub F : Type 0
  pub zero_f : F
  pub of_u64 : ℕ → F
  pub div_f : F → F → F

module _ (fl : Float) where
  open fl use {F, zero_f, of_u64, div_f}

  pub record MetricsSnapshot : Type 0 where
    pub fetches : ℕ
    pub cache_hits : ℕ
    pub cache_misses : ℕ
    pub evictions : ℕ
    pub rate : F

  -- The sum is checked.
  pub hit_rate : BufferPoolMetrics → Outcome ⊥ F
  hit_rate m =
      let total = m.cache_hits + m.cache_misses in
      if ltb total u64_mod
      then (if total == 0 then ok zero_f else ok (div_f (of_u64 m.cache_hits) (of_u64 total)))
      else panic

  pub snapshot : BufferPoolMetrics → MetricsSnapshot
  snapshot m = record {
    fetches = m.fetches;
    cache_hits = m.cache_hits;
    cache_misses = m.cache_misses;
    evictions = m.evictions;
    rate = if m.fetches == 0 then zero_f else div_f (of_u64 m.cache_hits) (of_u64 m.fetches);
  }

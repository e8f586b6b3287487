-- ===== src/Admission/Settings.antt =====
-- nestor/src/cache.rs: the bounds of what is derived from the settings.
use native.Mathlib.Nat.{mod-eq_of_lt}
use nestor.Admission.{
  DiskConfig, buffer_pool, max_buffer_pool, min_shard_bytes, default_shards, memory_config,
  lru_shards, lru_capacity, min_lru_shard_entries, max_lru_shards,
}
use nestor.Common.{
  ℕ, ◌*◌, ◌/◌, ◌%◌, ◌≤◌, ◌<◌, ◌≡◌, ◌⊎◌, ◌↔◌, min, max, Option, none, some, unwrap_or, u64_mod,
  arith,
}

pool_iff :
    (o : Option ℕ) (capacity regions n : ℕ)
    → o ≡ none
    → regions < u64_mod
    → (n ≤ unwrap_or o (max (min (capacity / 16) max_buffer_pool) (regions % u64_mod)))
      ↔ ((n ≤ regions) ⊎ ((n * 16 ≤ capacity) × (n ≤ 268_435_456)))
pool_iff none capacity regions n e small =
    let m = mod-eq_of_lt {n = regions} {m = u64_mod} small in rw m (ground arith)
pool_iff (some k) capacity regions n e small = absurd (ground arith)

-- A buffer pool whose size is not set is the larger of two sizes, when the second fits a word: the
-- largest size within a sixteenth of the disk and within 256 MiB, and one region for each flusher.
-- The second one may be more than 256 MiB.
pub buffer_pool_iff :
    (d : DiskConfig) (n : ℕ)
    → d.buffer_pool_size ≡ none
    → d.flushers * d.region_size < u64_mod
    → (n ≤ buffer_pool d)
      ↔ ((n ≤ d.flushers * d.region_size) ⊎ ((n * 16 ≤ d.capacity) × (n ≤ 268_435_456)))
unfolding buffer_pool
buffer_pool_iff d n e small =
    pool_iff d.buffer_pool_size d.capacity (d.flushers * d.region_size) n e small

-- A cache in memory has a shard, and of several shards each has 32 MiB at least; there are at most
-- two for each core, or one.
memory_config_bounds :
    (cores memory : ℕ)
    → let shards = (memory_config cores memory).shards in
      (1 ≤ shards) × ((shards ≡ 1) ⊎ ((shards * min_shard_bytes ≤ memory) × (shards ≤ cores * 2)))
unfolding memory_config default_shards
memory_config_bounds cores memory = ground arith

-- The bookkeeping cache has from 1 to 8 shards, and room for 1024 entries in each if it has several.
pub lru_shards_bounds :
    (capacity : ℕ)
    → let shards = lru_shards (lru_capacity capacity) in
      (1 ≤ shards)
      × (shards ≤ max_lru_shards)
      × ((shards ≡ 1) ⊎ (shards * min_lru_shard_entries ≤ capacity))
unfolding lru_shards lru_capacity
lru_shards_bounds capacity = ground arith

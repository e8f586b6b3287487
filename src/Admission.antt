-- ===== src/Admission.antt =====
-- nestor/src/cache.rs: the settings of the block cache, and the counts of reads by which blocks are
-- admitted to disk. Sizes are usize, of 64 bits. Compression and recovery are choices of the
-- third-party cache and left out, and so is the assembly of it.
pub mod Settings
pub mod Counting
use nestor.Block.{BlockSize, bytes}
use nestor.Common.{
  ℕ, zero, suc, ◌+◌, ◌*◌, ◌/◌, ◌%◌, min, max, List, Bool, true, false, not, ◌&&◌, Option, none,
  some, ltb, ◌==◌, if◌then◌else◌, unwrap_or, u64_mod,
}
use nestor.Key.{BlockKey}
use nestor.Store.{HybridCache, Counts}

abbrev pub mib : ℕ
mib = 1024 * 1024

abbrev pub reused_reads : ℕ
reused_reads = 2

abbrev pub min_lru_shard_entries : ℕ
min_lru_shard_entries = 1024

abbrev pub max_lru_shards : ℕ
max_lru_shards = 8

abbrev pub min_shard_bytes : ℕ
min_shard_bytes = 32 * mib

abbrev pub max_buffer_pool : ℕ
max_buffer_pool = 256 * mib

pub data DiskIo : Type 0 where
  auto uring psync : DiskIo

pub data DiskAdmission : Type 0 where
  fetched evicted reused : DiskAdmission

pub record DiskConfig : Type 0 where
  pub path : List ℕ
  pub capacity : ℕ
  pub admission : DiskAdmission
  pub region_size : ℕ
  pub flushers : ℕ
  pub reclaimers : ℕ
  pub buffer_pool_size : Option ℕ
  pub direct_io : Bool
  pub io : DiskIo
  pub runtime_threads : Option ℕ

-- `DiskConfig::new`.
unfoldable pub new_disk : List ℕ → ℕ → DiskConfig
new_disk path capacity = record {
  path = path;
  capacity = capacity;
  admission = fetched;
  region_size = 64 * mib;
  flushers = 2;
  reclaimers = 2;
  buffer_pool_size = none;
  direct_io = true;
  io = auto;
  runtime_threads = none;
}

-- `DiskConfig::runtime_threads`.
unfoldable pub disk_threads : DiskConfig → ℕ
disk_threads d = unwrap_or d.runtime_threads ((d.flushers + d.reclaimers) % u64_mod)

unfoldable pub buffer_pool : DiskConfig → ℕ
buffer_pool d =
    unwrap_or d.buffer_pool_size
      (max (min (d.capacity / 16) max_buffer_pool) (d.flushers * d.region_size % u64_mod))

pub record CacheConfig : Type 0 where
  pub memory : ℕ
  pub shards : ℕ
  pub disk : Option DiskConfig

-- `cores` is what the system reports, or 8.
unfoldable pub default_shards : ℕ → ℕ → ℕ
default_shards cores memory = max (min (cores * 2 % u64_mod) (memory / min_shard_bytes)) 1

-- `CacheConfig::memory`.
unfoldable pub memory_config : ℕ → ℕ → CacheConfig
unfolding default_shards
memory_config cores memory = record {
  memory = memory;
  shards = default_shards cores memory;
  disk = none;
}

-- `CacheConfig::disk` and `CacheConfig::shards`.
unfoldable pub with_disk : CacheConfig → DiskConfig → CacheConfig
with_disk c d = record c { disk = some d }

unfoldable pub with_shards : CacheConfig → ℕ → CacheConfig
with_shards c n = record c { shards = max n 1 }

-- The third-party policies for writes to disk.
pub data HybridCachePolicy : Type 0 where
  write_on_insertion write_on_eviction : HybridCachePolicy

unfoldable pub policy : Option DiskAdmission → HybridCachePolicy
policy (some fetched) = write_on_insertion
policy (some reused) = write_on_insertion
policy (some evicted) = write_on_eviction
policy none = write_on_eviction

-- The shards of an `lru` and its capacity.
unfoldable pub lru_capacity : ℕ → ℕ
lru_capacity capacity = max capacity 1

unfoldable pub lru_shards : ℕ → ℕ
lru_shards capacity = max 1 (min (capacity / min_lru_shard_entries) max_lru_shards)

unfoldable pub tracked : ℕ → BlockSize → ℕ
tracked memory b = 2 * memory % u64_mod / bytes b

abbrev pub is_reused : DiskAdmission → Bool
is_reused reused = true
is_reused other = false

-- Whether `Blocks::open` keeps counts.
unfoldable pub counts_reads : CacheConfig → Bool
counts_reads config = elim config.disk [ none ↦ false | some disk ↦ is_reused disk.admission ]

module _ (counts : Counts) where
  -- `Reads::new`, and `Blocks::open` for the counts.
  unfoldable pub new_reads : ℕ → counts.Cache
  unfolding lru_capacity
  new_reads capacity = counts.create (lru_capacity capacity)

  unfoldable pub open_reads : CacheConfig → BlockSize → Option counts.Cache
  unfolding counts_reads new_reads tracked
  open_reads config smallest =
      if counts_reads config then some (new_reads (tracked config.memory smallest)) else none

  -- `resize` may fail, and then leaves the cache as it was.
  unfoldable pub fit : counts.Cache → ℕ → counts.Cache
  fit c capacity = if ltb (counts.capacity c) capacity then counts.resize c capacity else c

  -- `Reads::record`: a counter of 8 bits that stops at 255.
  unfoldable pub count_read : counts.Cache → ℕ → counts.Cache × ℕ
  count_read c hash = elim (counts.get c hash) [
    | none ↦ (counts.insert (counts.touch c hash) hash 1, 1)
    | some reads ↦
        if reads == 255
        then (counts.touch c hash, reads)
        else (counts.write (counts.touch c hash) hash (reads + 1), reads + 1)
  ]

  unfoldable pub keep : counts.Cache → ℕ → counts.Cache
  keep c hash = elim (counts.get c hash) [
    | none ↦ counts.insert (counts.touch c hash) hash reused_reads
    | some reads ↦ counts.write (counts.touch c hash) hash (max reads reused_reads)
  ]

  -- `Reads::forget`.
  unfoldable pub forget_reads : counts.Cache → ℕ → counts.Cache
  forget_reads c hash = counts.remove c hash

  -- `Blocks::track`, for a cache with the memory.
  unfoldable pub track : ℕ → Option counts.Cache → BlockSize → Option counts.Cache
  unfolding fit tracked
  track memory none b = none
  track memory (some c) b = some (fit c (tracked memory b))

  -- What `Blocks::get` does to the counts when it finds an entry, on disk or in memory.
  unfoldable pub found_reads : Option counts.Cache → ℕ → Bool → Option counts.Cache
  unfolding keep
  found_reads none hash on_disk = none
  found_reads (some c) hash on_disk = some (if on_disk then keep c hash else c)

  -- `Blocks::record_read`: the counts, and whether the entry goes to disk. `resident` is the address
  -- of the bytes of the entry in memory, if there is one.
  unfoldable pub record_read : Option counts.Cache → ℕ → Option ℕ → ℕ → Option counts.Cache × Bool
  unfolding count_read
  record_read none hash resident address = (none, false)
  record_read (some c) hash resident address =
      let r = count_read c hash in
      (some r.0, r.1 == reused_reads && (elim resident [ none ↦ false | some a ↦ a == address ]))

  -- What `Blocks::remove` does to the counts.
  unfoldable pub remove_reads : Option counts.Cache → ℕ → Option counts.Cache
  unfolding forget_reads
  remove_reads none hash = none
  remove_reads (some c) hash = some (forget_reads c hash)

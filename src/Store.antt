-- ===== src/Store.antt =====
-- What nestor/src/cache.rs relies on of the block cache of foyer: a map from block keys that may
-- lose an entry at any call. `Blocks::get`, `contains` and `insert` call it; the counts of reads by
-- which blocks are admitted to disk do not change what these return. The counts are kept in a second
-- cache of foyer, from hashes to counters.
use nestor.Common.{ℕ, ◌≡◌, ◌⊎◌, Bool, Option, none, some, ◌==◌, if◌then◌else◌}
use nestor.Inflight.{key_eq}
use nestor.Key.{Block, BlockKey}

pub record HybridCache : Type 1 where
  pub Cache : Type 0
  pub get : Cache → BlockKey → Option Block
  pub contains : Cache → BlockKey → Bool
  pub insert : Cache → BlockKey → Block → Cache
  pub remove : Cache → BlockKey → Cache

-- The documented behaviour of the block cache: an entry may be lost, and is otherwise the one that
-- was inserted last and not removed.
pub record StoreLaws (store : HybridCache) : Type 0 where
  pub get-insert :
      (c : store.Cache) (k j : BlockKey) (b : Block)
      → (store.get (store.insert c k b) j ≡ none)
        ⊎ (store.get (store.insert c k b) j ≡ (if key_eq k j then some b else store.get c j))
  pub get-remove :
      (c : store.Cache) (k j : BlockKey)
      → (store.get (store.remove c k) j ≡ none)
        ⊎ (store.get (store.remove c k) j ≡ (if key_eq k j then none else store.get c j))

-- `Lru<u64, AtomicU8>`. `write` changes the counter of an entry that a call of `get` has found.
pub record Counts : Type 1 where
  pub Cache : Type 0
  pub create : ℕ → Cache
  pub get : Cache → ℕ → Option ℕ
  pub touch : Cache → ℕ → Cache
  pub insert : Cache → ℕ → ℕ → Cache
  pub write : Cache → ℕ → ℕ → Cache
  pub remove : Cache → ℕ → Cache
  pub capacity : Cache → ℕ
  pub resize : Cache → ℕ → Cache

-- An entry may be lost, and is otherwise the one that was inserted or written last.
pub record CountsLaws (counts : Counts) : Type 0 where
  pub get-create : (n h : ℕ) → counts.get (counts.create n) h ≡ none
  pub get-touch :
      (c : counts.Cache) (h j : ℕ)
      → (counts.get (counts.touch c h) j ≡ none)
        ⊎ (counts.get (counts.touch c h) j ≡ counts.get c j)
  pub get-insert :
      (c : counts.Cache) (h v j : ℕ)
      → (counts.get (counts.insert c h v) j ≡ none)
        ⊎ (counts.get (counts.insert c h v) j ≡ (if h == j then some v else counts.get c j))
  pub get-write :
      (c : counts.Cache) (h v j : ℕ)
      → (counts.get (counts.write c h v) j ≡ none)
        ⊎ (counts.get (counts.write c h v) j ≡ (if h == j then some v else counts.get c j))
  pub get-remove :
      (c : counts.Cache) (h j : ℕ)
      → (counts.get (counts.remove c h) j ≡ none)
        ⊎ (counts.get (counts.remove c h) j ≡ (if h == j then none else counts.get c j))
  pub get-resize :
      (c : counts.Cache) (n j : ℕ)
      → (counts.get (counts.resize c n) j ≡ none)
        ⊎ (counts.get (counts.resize c n) j ≡ counts.get c j)

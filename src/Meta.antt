-- ===== src/Meta.antt =====
-- nestor/src/meta.rs, the cache of object metadata, and nestor/src/readahead.rs, the detection of
-- sequential reads. Times are nanoseconds; `now` is the clock's reading.
pub mod Freshness
pub mod Sequential
use nestor.Common.{
  ℕ, ◌-◌, ◌==◌, Bool, false, Option, none, some, ltb, if◌then◌else◌, Range, List, [], ◌∷◌,
}
use nestor.Key.{ObjectKey}
use nestor.Lru.{Lru}
use nestor.Origin.{ObjectMeta}

pub record MetaEntry : Type 0 where
  pub meta : ObjectMeta
  pub at : ℕ

pub data MetaLookup : Type 0 where
  fresh stale : ObjectMeta → MetaLookup
  missing : MetaLookup

-- The answer for an entry that is there.
unfoldable pub judge : MetaEntry → Option ℕ → ℕ → MetaLookup
judge entry none now = fresh entry.meta
judge entry (some ttl) now = if ltb ttl (now - entry.at) then stale entry.meta else fresh entry.meta

module _ (lru : Lru MetaEntry) where
  unfoldable pub lookup : lru.Cache → ObjectKey → Option ℕ → ℕ → MetaLookup
  unfolding judge
  lookup c key ttl now = elim (lru.get c key) [ none ↦ missing | some entry ↦ judge entry ttl now ]

  -- `MetaCache::get`.
  unfoldable pub get_fresh : lru.Cache → ObjectKey → Option ℕ → ℕ → Option ObjectMeta
  unfolding lookup
  get_fresh c key ttl now = elim (lookup c key ttl now) [
    | fresh m ↦ some m
    | stale m ↦ none
    | missing ↦ none
  ]

  unfoldable pub any : lru.Cache → ObjectKey → Option ObjectMeta
  any c key = elim (lru.get c key) [ none ↦ none | some entry ↦ some entry.meta ]

  unfoldable pub put : lru.Cache → ObjectKey → ObjectMeta → ℕ → lru.Cache
  put c key meta now = lru.insert c key (record { meta = meta; at = now })

  unfoldable pub remove_meta : lru.Cache → ObjectKey → lru.Cache
  remove_meta c key = lru.remove c key

module _ (lru : Lru ℕ) where
  -- `Readahead::observe`.
  unfoldable pub observe : lru.Cache → ObjectKey → Range → lru.Cache × Bool
  observe c key r = (
    lru.insert (lru.touch c key) key r.end,
    elim (lru.get c key) [ none ↦ false | some end ↦ end == r.start ],
  )

  unfoldable pub forget : lru.Cache → ObjectKey → lru.Cache
  forget c key = lru.remove c key

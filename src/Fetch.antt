-- ===== src/Fetch.antt =====
-- nestor/src/fetch.rs: from missing blocks to resolved slots. The state is the table of requests,
-- the block cache and the metadata cache; metrics are left out. A body is read through
-- `BlockStream`. What the origin answers, and when, comes from outside: a timeout in the middle of
-- a body is an error of the body, since the code waits nowhere else while it takes one over.
pub mod Adopted
pub mod Answers
pub mod Consume
pub mod Group
pub mod Hedge
pub mod Hedged
pub mod Owed
pub mod Planned
pub mod Probe
pub mod Probed
pub mod Rounds
pub mod Runs
pub mod Schedule
pub mod Served
pub mod Taking
use nestor.Block.{BlockSize, bytes, index, count, block_range, span}
use nestor.Body.{BlockStream, new, next_block}
use nestor.Common.{
  ℕ, zero, suc, ◌+◌, ◌-◌, ◌%◌, min, max, true, false, ◌&&◌, ◌||◌, not, List, [], ◌∷◌, Option, none,
  some, ltb, leb, ◌==◌, if◌then◌else◌, length, Range, Result, ok, err, OriginError, short_read,
  NestorError, stale, from_origin,
}
use nestor.Inflight.{
  Inflight, Slot, BlockResult, Registration, owner, waiter, register, resolve, drop_slot,
}
use nestor.Key.{
  Block, empty, BlockKey, ObjectKey, block_key, Hasher, is_immutable, content_tag, immutable_tag,
  block_tag,
}
use nestor.Lru.{Lru}
use nestor.Meta.{MetaEntry, put, remove_meta}
use nestor.Namespace.{NamespaceConfig}
use nestor.Origin.{ObjectMeta}
use nestor.Policy.{FetchPolicy, Retry, new_retry, failed}
use nestor.Store.{HybridCache}

-- `ReadCtx`, with the namespace's configuration.
pub record ReadCtx (F : Type 0) : Type 0 where
  pub config : NamespaceConfig F
  pub key : ObjectKey
  pub tag : ℕ
  pub if_match : Option (List ℕ)
  pub meta : Option ObjectMeta
  pub policy : FetchPolicy F

-- `ReadCtx::new`.
unfoldable pub new_ctx :
    {F : Type 0}
    → Hasher
    → NamespaceConfig F
    → ObjectKey
    → Option ObjectMeta
    → FetchPolicy F
    → ReadCtx F
new_ctx h config key none policy = record {
  config = config;
  key = key;
  tag = immutable_tag;
  if_match = none;
  meta = none;
  policy = policy;
}
new_ctx h config key (some m) policy = record {
  config = config;
  key = key;
  tag = block_tag h config.consistency m;
  if_match = if is_immutable config.consistency then none else m.etag;
  meta = some m;
  policy = policy;
}

pub record GetResponse : Type 0 where
  pub meta : ObjectMeta
  pub range : Range
  pub body : List (Result OriginError (List ℕ))

-- `C` is the block cache, `M` the metadata cache.
pub record State (C M : Type 0) : Type 0 where
  pub inflight : Inflight
  pub blocks : C
  pub meta : M

pub record Trailing : Type 0 where
  pub stream : BlockStream
  pub next : ℕ
  pub slots : List Slot
  pub meta : ObjectMeta

-- The third-party parts: the hash functions and the caches.
pub record Services : Type 1 where
  pub hash : BlockKey → ℕ
  pub hasher : Hasher
  pub store : HybridCache
  pub lru : Lru MetaEntry

module _ (e : Services) where
  abbrev pub Fetcher : Type 0
  Fetcher = State e.store.Cache e.lru.Cache

  unfoldable pub answered : Fetcher → Slot → BlockResult → Fetcher
  answered st s r = record st { inflight = resolve e.hash s r st.inflight }

  unfoldable pub dropped : Fetcher → Slot → Fetcher
  dropped st s = record st { inflight = drop_slot e.hash s st.inflight }

  unfoldable pub resolve_all : Fetcher → List Slot → BlockResult → Fetcher
  unfolding answered
  resolve_all st [] r = st
  resolve_all st (s ∷ slots) r = resolve_all (answered st s r) slots r

  unfoldable pub drop_all_slots : Fetcher → List Slot → Fetcher
  unfolding dropped
  drop_all_slots st [] = st
  drop_all_slots st (s ∷ slots) = drop_all_slots (dropped st s) slots

  -- A registration whose handle is thrown away.
  unfoldable pub owned_slot : Fetcher → Inflight × Registration → Fetcher × Option Slot
  owned_slot st (f, owner s rx) = (record st { inflight = f }, some s)
  owned_slot st (f, waiter rx) = (record st { inflight = f }, none)

  unfoldable pub claim : {F : Type 0} → ReadCtx F → Fetcher → ℕ → Fetcher × Option Slot
  unfolding owned_slot
  claim ctx st i =
      let key = block_key ctx.key ctx.tag i in
      if e.store.contains st.blocks key
      then (st, none)
      else owned_slot st (register e.hash st.inflight key)

  -- A block goes to the cache, and to those who wait for it.
  unfoldable pub cached : Fetcher → Slot → ObjectMeta → List ℕ → Fetcher
  unfolding answered
  cached st s m content =
      let block : Block = record { meta = m; content = content } in
      answered (record st { blocks = e.store.insert st.blocks s.key block }) s (ok block)

  unfoldable pub cache_extra : Fetcher → Option Slot → ObjectMeta → List ℕ → Fetcher
  unfolding cached
  cache_extra st none m content = st
  cache_extra st (some s) m content = cached st s m content

  unfoldable pub drop_claimed : Fetcher → Option Slot → Fetcher
  unfolding dropped
  drop_claimed st none = st
  drop_claimed st (some s) = dropped st s

-- ===== src/Node/Requests.antt =====
-- nestor/src/nestor.rs: `resolve_ctx`, `head` and `get_opts`. What the origin answers comes from
-- outside, one item for each attempt, and so does the answer of the block cache that `cached_meta`
-- waits for, and what other tasks do meanwhile. The counts of reads are left out here.
use nestor.Block.{ReadRange, needs_size, first_group}
use nestor.Common.{
  ℕ, List, [], not, Option, none, some, if◌then◌else◌, map_or, Result, ok, err, NestorError,
}
use nestor.Fetch.{new_ctx, Services, Fetcher}
use nestor.Fetch.Probe.{HeadAttempt, ProbeAttempt, Probed, head, probe}
use nestor.Key.{Block, BlockKey, ObjectKey, block_key, immutable_tag, is_immutable}
use nestor.Meta.{fresh, stale, missing, lookup, put}
use nestor.Namespace.{NamespaceConfig, meta_ttl}
use nestor.Origin.{ObjectMeta}
use nestor.Policy.{FetchPolicy}

-- What comes from outside while a request is resolved.
pub record Outside (e : Services) : Type 0 where
  pub now : ℕ
  pub found : BlockKey → Option Block
  pub meanwhile : Fetcher e → Fetcher e
  pub started : ℕ
  pub probes : List ProbeAttempt
  pub heads : List HeadAttempt

-- The block that `cached_meta` looks at.
unfoldable pub meta_index : {F : Type 0} → NamespaceConfig F → ReadRange → ℕ
unfolding first_group
meta_index config request =
    map_or (first_group config.block_size request 1) 0 (λ group. group.start)

module _ (e : Services) {F : Type 0} where
  -- A context without handles.
  unfoldable pub unfetched :
      NamespaceConfig F → ObjectKey → FetchPolicy F → Option ObjectMeta → Fetcher e → Probed e F
  unfolding new_ctx
  unfetched config key policy m st = (st, ok (new_ctx e.hasher config key m policy, [], []))

  unfoldable pub with_head :
      NamespaceConfig F
      → ObjectKey
      → FetchPolicy F
      → Fetcher e × Result NestorError ObjectMeta
      → Probed e F
  unfolding unfetched
  with_head config key policy (st, err x) = (st, err x)
  with_head config key policy (st, ok m) = unfetched config key policy (some m) st

  -- The requests to the origin.
  unfoldable pub resolve_remote :
      NamespaceConfig F
      → ObjectKey
      → ReadRange
      → FetchPolicy F
      → Option ObjectMeta
      → Outside e
      → Fetcher e
      → Option (Probed e F)
  unfolding first_group probe head with_head
  resolve_remote config key request policy old o st =
      elim (first_group config.block_size request config.fetch_window) [
        | some indexes ↦ probe e config key policy indexes old o.started st o.probes
        | none ↦ elim (head e config key o.started st o.heads) [
          | none ↦ none
          | some r ↦ some (with_head config key policy r)
        ]
      ]

  -- `cached_meta`: the metadata of a block that is there.
  unfoldable pub cached_meta :
      NamespaceConfig F
      → ObjectKey
      → ReadRange
      → Outside e
      → Fetcher e
      → Fetcher e × Option ObjectMeta
  unfolding meta_index put
  cached_meta config key request o st =
      elim (o.found (block_key key immutable_tag (meta_index config request))) [
        | none ↦ (o.meanwhile st, none)
        | some block ↦
            let st' = o.meanwhile st in
            (record st' { meta = put e.lru st'.meta key block.meta o.now }, some block.meta)
      ]

  -- After `cached_meta`.
  unfoldable pub resolve_cached :
      NamespaceConfig F
      → ObjectKey
      → ReadRange
      → FetchPolicy F
      → Option ObjectMeta
      → Outside e
      → Fetcher e × Option ObjectMeta
      → Option (Probed e F)
  unfolding unfetched resolve_remote
  resolve_cached config key request policy old o (st, some m) =
      some (unfetched config key policy (some m) st)
  resolve_cached config key request policy old o (st, none) =
      resolve_remote config key request policy old o st

  -- The metadata is not there, or too old.
  unfoldable pub resolve_unknown :
      NamespaceConfig F
      → ObjectKey
      → ReadRange
      → FetchPolicy F
      → Option ObjectMeta
      → Outside e
      → Fetcher e
      → Option (Probed e F)
  unfolding unfetched resolve_remote resolve_cached cached_meta
  resolve_unknown config key request policy old o st =
      if is_immutable config.consistency
      then if not (needs_size request)
        then some (unfetched config key policy none st)
        else resolve_cached config key request policy old o (cached_meta config key request o st)
      else resolve_remote config key request policy old o st

  unfoldable pub resolve_ctx :
      NamespaceConfig F
      → ObjectKey
      → ReadRange
      → FetchPolicy F
      → Outside e
      → Fetcher e
      → Option (Probed e F)
  unfolding lookup meta_ttl unfetched resolve_unknown
  resolve_ctx config key request policy o st =
      let looked = record st { meta = e.lru.touch st.meta key } in
      elim (lookup e.lru st.meta key (meta_ttl config.consistency) o.now) [
        | fresh m ↦ some (unfetched config key policy (some m) looked)
        | stale m ↦ resolve_unknown config key request policy (some m) o looked
        | missing ↦ resolve_unknown config key request policy none o looked
      ]

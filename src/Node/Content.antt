-- ===== src/Node/Content.antt =====
-- nestor/src/nestor.rs: `insert` and `invalidate`. An object in memory has fewer bytes than a usize
-- holds. Removing a block forgets its reads, as `Blocks::remove` does.
use nestor.Admission.{remove_reads}
use nestor.Block.{BlockSize, block_range, count}
use nestor.Common.{
  ℕ, List, [], ◌∷◌, Option, none, some, if◌then◌else◌, length, slice, range_from, Result, ok, err,
  NestorError,
}
use nestor.Key.{Block, BlockKey, ObjectKey, block_key, block_tag, immutable_tag, is_immutable}
use nestor.Meta.{get_fresh, put, remove_meta, forget}
use nestor.Namespace.{NamespaceConfig}
use nestor.Node.{Parts, Engine, state}
use nestor.Origin.{ObjectMeta, SystemTime}
use nestor.Store.{HybridCache, Counts}

-- `ObjectMeta::new`; `modified` is the system time.
unfoldable pub new_meta : ℕ → Option (List ℕ) → SystemTime → ObjectMeta
new_meta size etag modified = record { size = size; etag = etag; last_modified = some modified }

-- `data.slice(range)` for the range of a block.
unfoldable pub block_of : BlockSize → ObjectMeta → List ℕ → ℕ → Block
block_of b m xs index =
    let r = block_range b index (some m.size) in
    record { meta = m; content = slice r.start r.end xs }

module _ (store : HybridCache) where
  -- The loop of `insert`.
  unfoldable pub insert_blocks :
      BlockSize → ObjectKey → ℕ → ObjectMeta → List ℕ → store.Cache → List ℕ → store.Cache
  unfolding block_of
  insert_blocks b key tag m xs c [] = c
  insert_blocks b key tag m xs c (i ∷ is) =
      insert_blocks b key tag m xs (store.insert c (block_key key tag i) (block_of b m xs i)) is

  -- The loop of `invalidate`.
  unfoldable pub remove_blocks : ObjectKey → store.Cache → List ℕ → store.Cache
  remove_blocks key c [] = c
  remove_blocks key c (i ∷ is) =
      remove_blocks key (store.remove c (block_key key immutable_tag i)) is

module _ (counts : Counts) (hash : BlockKey → ℕ) where
  unfoldable pub forget_blocks : ObjectKey → Option counts.Cache → List ℕ → Option counts.Cache
  unfolding remove_reads
  forget_blocks key reads [] = reads
  forget_blocks key reads (i ∷ is) =
      forget_blocks key (remove_reads counts reads (hash (block_key key immutable_tag i))) is

module _ {p : Parts} {F : Type 0} where
  unfoldable pub inserted :
      Engine p F → NamespaceConfig F → ObjectKey → ObjectMeta → List ℕ → ℕ → Engine p F
  unfolding insert_blocks put
  inserted g config key m xs now =
      let b = config.block_size in
      let tag = block_tag p.services.hasher config.consistency m in
      record g {
        fetcher = record g.fetcher {
          blocks =
              insert_blocks p.services.store b key tag m xs g.fetcher.blocks
                (range_from 0 (count b m.size));
          meta = put p.services.lru g.fetcher.meta key m now;
        };
      }

  -- `Nestor::insert`.
  unfoldable pub insert :
      Engine p F
      → ℕ
      → List ℕ
      → Option (List ℕ)
      → List ℕ
      → SystemTime
      → ℕ
      → Engine p F × Result NestorError (Unit {0})
  unfolding state inserted new_meta
  insert g ns object etag xs modified now = elim (state g ns) [
    | err x ↦ (g, err x)
    | ok s ↦
        let key : ObjectKey = record { namespace = ns; object = object } in
        (inserted g s.config key (new_meta (length xs) etag modified) xs now, ok tt)
  ]

  -- The blocks of an immutable object of the size.
  unfoldable pub dropped : Engine p F → BlockSize → ObjectKey → ObjectMeta → Engine p F
  unfolding remove_blocks forget_blocks
  dropped g b key m =
      let indexes = range_from 0 (count b m.size) in
      record g {
        reads = forget_blocks p.counts p.memory_hash key g.reads indexes;
        fetcher = record g.fetcher {
          blocks = remove_blocks p.services.store key g.fetcher.blocks indexes;
        };
      }

  -- The blocks are dropped if the namespace is immutable and the size is known.
  unfoldable pub drop_known : Engine p F → NamespaceConfig F → ObjectKey → Engine p F
  unfolding dropped get_fresh
  drop_known g config key =
      let lru = p.services.lru in
      let looked = record g {
        fetcher = record g.fetcher { meta = lru.touch g.fetcher.meta key };
      } in
      if is_immutable config.consistency
      then elim (get_fresh lru g.fetcher.meta key none 0) [
        | none ↦ looked
        | some m ↦ dropped looked config.block_size key m
      ]
      else g

  unfoldable pub invalidated : Engine p F → NamespaceConfig F → ObjectKey → Engine p F
  unfolding forget drop_known remove_meta
  invalidated g config key =
      let forgot = record g { readahead = forget p.ends g.readahead key } in
      let g' = drop_known forgot config key in
      record g' {
        fetcher = record g'.fetcher { meta = remove_meta p.services.lru g'.fetcher.meta key };
      }

  -- `Nestor::invalidate`.
  unfoldable pub invalidate : Engine p F → ℕ → List ℕ → Engine p F × Result NestorError (Unit {0})
  unfolding state invalidated
  invalidate g ns object = elim (state g ns) [
    | err x ↦ (g, err x)
    | ok s ↦
        let key : ObjectKey = record { namespace = ns; object = object } in
        (invalidated g s.config key, ok tt)
  ]

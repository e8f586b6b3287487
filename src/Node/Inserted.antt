-- ===== src/Node/Inserted.antt =====
-- nestor/src/nestor.rs, `insert`: what the caches hold afterwards.
use nestor.Block.{BlockSize, count}
use nestor.Block.Cover.{block_bytes}
use nestor.Common.{
  ℕ, zero, suc, ◌+◌, ◌≤◌, ◌<◌, ◌≡◌, ◌≢◌, ◌⊎◌, inl, inr, refl, sym, ap, ◌∙◌, List, [], ◌∷◌, Option,
  none, some, Bool-cases, length, range_from, ok, arith, ◌==◌, subst,
}
use nestor.Fetch.{new_ctx}
use nestor.Inflight.{key_eq}
use nestor.Inflight.Table.{key_eq_iff, key_eq_self}
use nestor.Key.{Block, BlockKey, ObjectKey, block_key, block_tag}
use nestor.Lru.{Lru, object_key_eq_iff, noted}
use nestor.Meta.{MetaEntry, fresh, get_fresh, lookup, judge, put}
use nestor.Namespace.{NamespaceState, meta_ttl}
use nestor.Node.{Parts, Engine, state}
use nestor.Node.Content.{new_meta, block_of, insert_blocks, inserted, insert}
use nestor.Origin.{ObjectMeta, SystemTime}
use nestor.Policy.{FetchPolicy}
use nestor.Store.{HybridCache, StoreLaws}

-- A lookup that misses, or finds the block.
abbrev pub Finds : Option Block → Block → Type 0
Finds found block = (found ≡ none) ⊎ (found ≡ some block)

index_injective :
    (key : ObjectKey) (tag i j : ℕ) → block_key key tag i ≡ block_key key tag j → i ≡ j
unfolding block_key
index_injective key tag i j e = ap (λ k. k.index) e

lost : {x y : Option Block} {z : Block} → (x ≡ none) ⊎ (x ≡ y) → Finds y z → Finds x z
lost (inl e) h = inl e
lost (inr e) (inl n) = inl (e ∙ n)
lost (inr e) (inr f) = inr (e ∙ f)

module _ (store : HybridCache) (laws : StoreLaws store) (b : BlockSize) (key : ObjectKey) (tag : ℕ)
    (m : ObjectMeta) (xs : List ℕ) where
  -- A block that is inserted.
  insert-Finds :
      (c : store.Cache) (i : ℕ)
      → Finds
          (store.get
            (store.insert c (block_key key tag i) (block_of b m xs i))
            (block_key key tag i))
          (block_of b m xs i)
  insert-Finds c i =
      let k = block_key key tag i in
      let law = laws.get-insert c k k (block_of b m xs i) in rw (key_eq_self k) at law

  -- Later insertions keep it.
  insert_blocks-kept :
      (is : List ℕ) (c : store.Cache) (i : ℕ)
      → Finds (store.get c (block_key key tag i)) (block_of b m xs i)
      → Finds
          (store.get (insert_blocks store b key tag m xs c is) (block_key key tag i))
          (block_of b m xs i)
  unfolding insert_blocks
  insert_blocks-kept [] c i h = h
  insert_blocks-kept (j ∷ js) c i h =
      insert_blocks-kept js (store.insert c (block_key key tag j) (block_of b m xs j)) i
        (elim (Bool-cases (key_eq (block_key key tag j) (block_key key tag i))) [
          | inl t ↦
              let e = index_injective key tag j i ((key_eq_iff _ _).0 t) in
              subst
                (λ j.
                  Finds
                    (store.get (store.insert c (block_key key tag j) (block_of b m xs j))
                      (block_key key tag i))
                    (block_of b m xs i))
                (sym e) (insert-Finds c i)
          | inr f ↦
              let law =
                laws.get-insert c (block_key key tag j) (block_key key tag i) (block_of b m xs j) in
              lost (rw f at law) h
        ])

  insert_blocks-Finds :
      (n s i : ℕ) (c : store.Cache)
      → s ≤ i
      → i < s + n
      → Finds
          (store.get (insert_blocks store b key tag m xs c (range_from s n)) (block_key key tag i))
          (block_of b m xs i)
  unfolding insert_blocks range_from
  insert_blocks-Finds zero s i c h k = absurd (omega arith)
  insert_blocks-Finds (suc n) s i c h k = elim (Bool-cases (s == i)) [
    | inl t ↦
        let e : s ≡ i = ground arith in
        insert_blocks-kept (range_from (s + 1) n) _ i (
          subst
            (λ j.
              Finds
                (store.get (store.insert c (block_key key tag j) (block_of b m xs j))
                  (block_key key tag i))
                (block_of b m xs i))
            (sym e) (insert-Finds c i))
    | inr f ↦ insert_blocks-Finds n (s + 1) i _ (ground arith) (omega arith)
  ]

  -- Other keys.
  insert_blocks-other :
      (is : List ℕ) (c : store.Cache) (k : BlockKey)
      → ((i : ℕ) → block_key key tag i ≢ k)
      → let found = store.get (insert_blocks store b key tag m xs c is) k in
        (found ≡ none) ⊎ (found ≡ store.get c k)
  unfolding insert_blocks
  insert_blocks-other [] c k other = inr refl
  insert_blocks-other (j ∷ js) c k other =
      let b' = block_of b m xs j in
      elim (Bool-cases (key_eq (block_key key tag j) k)) [
        | inl t ↦ absurd (other j ((key_eq_iff _ _).0 t))
        | inr f ↦
            let law = laws.get-insert c (block_key key tag j) k b' in
            elim (insert_blocks-other js (store.insert c (block_key key tag j) b') k other) [
              | inl n ↦ inl n
              | inr e ↦ elim (rw f at law) [ inl n ↦ inl (e ∙ n) | inr q ↦ inr (e ∙ q) ]
            ]
      ]

judge_now :
    (m : ObjectMeta) (now : ℕ) (ttl : Option ℕ)
    → judge (record { meta = m; at = now }) ttl now ≡ fresh m
unfolding judge
judge_now m now none = refl
judge_now m now (some ttl) = ground arith

-- What was put under a key is fresh, or lost.
put-fresh :
    (lru : Lru MetaEntry) (c : lru.Cache) (key : ObjectKey) (m : ObjectMeta) (now : ℕ)
    (ttl : Option ℕ)
    → let found = get_fresh lru (put lru c key m now) key ttl now in
      (found ≡ none) ⊎ (found ≡ some m)
unfolding get_fresh lookup put noted
put-fresh lru c key m now ttl =
    let entry : MetaEntry = record { meta = m; at = now } in
    let law = lru.get-insert c key key entry in
    let self = (object_key_eq_iff key key).1 refl in
    elim law [
      | inl n ↦ inl (rw (n, get_fresh, lookup, put) refl)
      | inr f ↦
          let f' : lru.get (lru.insert c key entry) key ≡ some entry = f ∙ rw (self, noted) refl in
          inr (rw (f', judge_now m now ttl, get_fresh, lookup, put) refl)
    ]

module _ {p : Parts} {F : Type 0} (laws : StoreLaws p.services.store) where
  -- `insert` into an open namespace succeeds. Afterwards the block cache finds, under the keys that a
  -- read of the object with this metadata uses, the blocks of the bytes or nothing; other blocks are
  -- as before or lost; and the metadata cache finds the metadata as fresh, or nothing.
  pub insert-Finds_all :
      (g : Engine p F) (ns : ℕ) (object : List ℕ) (etag : Option (List ℕ)) (xs : List ℕ)
      (modified : SystemTime) (now : ℕ) (s : NamespaceState F) (policy : FetchPolicy F)
      → state g ns ≡ ok s
      → let out = insert g ns object etag xs modified now in
        let key : ObjectKey = record { namespace = ns; object = object } in
        let m = new_meta (length xs) etag modified in
        let b = s.config.block_size in
        let tag = (new_ctx p.services.hasher s.config key (some m) policy).tag in
        let store = p.services.store in
        (out.1 ≡ ok tt)
        × ((i : ℕ)
            → i < count b (length xs)
            → Finds
                (store.get out.0.fetcher.blocks (block_key key tag i))
                (record { meta = m; content = block_bytes b i xs }))
        × ((k : BlockKey)
            → ((i : ℕ) → block_key key tag i ≢ k)
            → (store.get out.0.fetcher.blocks k ≡ none)
              ⊎ (store.get out.0.fetcher.blocks k ≡ store.get g.fetcher.blocks k))
        × (let found =
              get_fresh p.services.lru out.0.fetcher.meta key (meta_ttl s.config.consistency) now in
            (found ≡ none) ⊎ (found ≡ some m))
  unfolding insert inserted new_ctx new_meta block_of block_bytes
  insert-Finds_all g ns object etag xs modified now s policy e =
      let key : ObjectKey = record { namespace = ns; object = object } in
      let m = new_meta (length xs) etag modified in
      let b = s.config.block_size in
      let tag = block_tag p.services.hasher s.config.consistency m in
      let store = p.services.store in
      rw (e, insert)
        (
          refl,
          λ i lt. insert_blocks-Finds store laws b key tag m xs _ 0 i _ (omega arith) (omega arith),
          λ k other.
              insert_blocks-other store laws b key tag m xs (range_from 0 (count b (length xs)))
                g.fetcher.blocks k other,
          put-fresh p.services.lru _ key m now _,
        )

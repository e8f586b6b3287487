-- ===== src/Node/Invalidated.antt =====
-- nestor/src/nestor.rs, `invalidate`: what the caches hold afterwards.
use nestor.Block.{count}
use nestor.Common.{
  ℕ, zero, suc, ◌+◌, ◌≤◌, ◌<◌, ◌≡◌, ◌⊎◌, inl, inr, refl, sym, ap, ◌∙◌, subst, List, [], ◌∷◌, none,
  some, true, false, ◌==◌, Bool-cases, Option-cases, range_from, ok, arith,
}
use nestor.Inflight.{key_eq}
use nestor.Inflight.Table.{key_eq_self}
use nestor.Key.{BlockKey, ObjectKey, block_key, immutable_tag, is_immutable}
use nestor.Lru.{Lru, object_key_eq_iff, noted}
use nestor.Meta.{MetaEntry, get_fresh, lookup, judge, remove_meta, forget}
use nestor.Namespace.{NamespaceConfig, NamespaceState}
use nestor.Node.{Parts, Engine, state}
use nestor.Node.Content.{remove_blocks, dropped, drop_known, invalidated, invalidate}
use nestor.Store.{HybridCache, StoreLaws}

module _ (store : HybridCache) (laws : StoreLaws store) (key : ObjectKey) where
  -- A removal finds nothing under a key that nothing was found under.
  remove-none :
      (c : store.Cache) (k j : BlockKey)
      → store.get c j ≡ none
      → store.get (store.remove c k) j ≡ none
  remove-none c k j e = elim (laws.get-remove c k j) [
    | inl n ↦ n
    | inr f ↦ elim (Bool-cases (key_eq k j)) [ inl t ↦ rw t at f | inr u ↦ rw u at f ∙ e ]
  ]

  remove_self : (c : store.Cache) (k : BlockKey) → store.get (store.remove c k) k ≡ none
  remove_self c k = elim (laws.get-remove c k k) [ inl n ↦ n | inr f ↦ rw (key_eq_self k) at f ]

  remove_blocks-none :
      (is : List ℕ) (c : store.Cache) (k : BlockKey)
      → store.get c k ≡ none
      → store.get (remove_blocks store key c is) k ≡ none
  unfolding remove_blocks
  remove_blocks-none [] c k e = e
  remove_blocks-none (i ∷ is) c k e =
      remove_blocks-none is (store.remove c (block_key key immutable_tag i)) k
        (remove-none c (block_key key immutable_tag i) k e)

  remove_blocks-gone :
      (n s i : ℕ) (c : store.Cache)
      → s ≤ i
      → i < s + n
      → store.get (remove_blocks store key c (range_from s n)) (block_key key immutable_tag i)
        ≡ none
  unfolding remove_blocks range_from
  remove_blocks-gone zero s i c h k = absurd (omega arith)
  remove_blocks-gone (suc n) s i c h k = elim (Bool-cases (s == i)) [
    | inl t ↦
        let e : s ≡ i = ground arith in
        remove_blocks-none (range_from (s + 1) n) (store.remove c (block_key key immutable_tag s))
          (block_key key immutable_tag i)
          (subst
            (λ j.
              store.get (store.remove c (block_key key immutable_tag j))
                (block_key key immutable_tag i)
              ≡ none)
            (sym e) (remove_self c (block_key key immutable_tag i)))
    | inr f ↦
        remove_blocks-gone n (s + 1) i (store.remove c (block_key key immutable_tag s))
          (ground arith) (omega arith)
  ]

gone :
    {V : Type 0} (lru : Lru V) (c : lru.Cache) (key : ObjectKey)
    → lru.get (lru.remove c key) key ≡ none
unfolding noted
gone lru c key =
    let self = (object_key_eq_iff key key).1 refl in
    elim (lru.get-remove c key key) [ inl n ↦ n | inr f ↦ f ∙ rw (self, noted) refl ]

-- Without a time to live every entry is fresh.
get_fresh-any :
    (lru : Lru MetaEntry) (c : lru.Cache) (key : ObjectKey) (entry : MetaEntry)
    → lru.get c key ≡ some entry
    → get_fresh lru c key none 0 ≡ some entry.meta
unfolding get_fresh lookup judge
get_fresh-any lru c key entry e = rw (e, get_fresh, lookup) refl

get_fresh-none :
    (lru : Lru MetaEntry) (c : lru.Cache) (key : ObjectKey)
    → lru.get c key ≡ none
    → get_fresh lru c key none 0 ≡ none
unfolding get_fresh lookup
get_fresh-none lru c key e = rw (e, get_fresh, lookup) refl

module _ {p : Parts} {F : Type 0} (g g' : Engine p F) (config : NamespaceConfig F)
    (key : ObjectKey) where
  -- What `invalidate` leaves.
  pub record Forgets : Type 0 where
    pub meta : p.services.lru.get g'.fetcher.meta key ≡ none
    pub ends : p.ends.get g'.readahead key ≡ none
    pub blocks :
        (entry : MetaEntry) (i : ℕ)
        → is_immutable config.consistency ≡ true
        → p.services.lru.get g.fetcher.meta key ≡ some entry
        → i < count config.block_size entry.meta.size
        → p.services.store.get g'.fetcher.blocks (block_key key immutable_tag i) ≡ none
    pub kept :
        (is_immutable config.consistency ≡ false) ⊎ (p.services.lru.get g.fetcher.meta key ≡ none)
        → g'.fetcher.blocks ≡ g.fetcher.blocks

module _ {p : Parts} {F : Type 0} (laws : StoreLaws p.services.store) where
  drop_known-readahead :
      (g : Engine p F) (config : NamespaceConfig F) (key : ObjectKey)
      → (drop_known g config key).readahead ≡ g.readahead
  unfolding drop_known dropped
  drop_known-readahead g config key = elim (Bool-cases (is_immutable config.consistency)) [
    | inr t ↦ rw (t, drop_known) refl
    | inl t ↦ elim (Option-cases (get_fresh p.services.lru g.fetcher.meta key none 0)) [
      | inl f ↦ rw (t, f, drop_known) refl
      | inr (m, f) ↦ rw (t, f, drop_known) refl
    ]
  ]

  invalidated-Forgets :
      (g : Engine p F) (config : NamespaceConfig F) (key : ObjectKey)
      → Forgets g (invalidated g config key) config key
  unfolding invalidated drop_known dropped remove_meta forget
  invalidated-Forgets g config key = record {
    meta = gone p.services.lru _ key;
    ends =
        let forgot = record g { readahead = forget p.ends g.readahead key } in
        ap (λ (c : p.ends.Cache). p.ends.get c key) (drop_known-readahead forgot config key)
        ∙ gone p.ends g.readahead key;
    blocks = λ entry i t e lt.
        let f = get_fresh-any p.services.lru g.fetcher.meta key entry e in
        rw (t, f, invalidated, drop_known)
          (remove_blocks-gone p.services.store laws key _ 0 i _ (omega arith) (omega arith));
    kept = λ h. elim h [
      | inl t ↦ rw (t, invalidated, drop_known) refl
      | inr e ↦
          let f = get_fresh-none p.services.lru g.fetcher.meta key e in
          elim (Bool-cases (is_immutable config.consistency)) [
            | inr t ↦ rw (t, invalidated, drop_known) refl
            | inl t ↦ rw (t, f, invalidated, drop_known) refl
          ]
    ];
  }

  -- `invalidate` in an open namespace succeeds. Afterwards the metadata cache and the detection of
  -- sequential reads know nothing of the object. In an immutable namespace, if the metadata cache knew
  -- the object's size, the block cache finds none of its blocks; if it did not, and in other
  -- namespaces, the block cache is as before.
  pub invalidate-Forgets :
      (g : Engine p F) (ns : ℕ) (object : List ℕ) (s : NamespaceState F)
      → state g ns ≡ ok s
      → ((invalidate g ns object).1 ≡ ok tt)
        × Forgets g (invalidate g ns object).0 s.config (record { namespace = ns; object = object })
  unfolding invalidate
  invalidate-Forgets g ns object s e = rw (e, invalidate) (refl, invalidated-Forgets g s.config _)

-- ===== src/Tests/Nodes.antt =====
-- nestor/src/nestor.rs: a node whose caches keep what is put into them.
use nestor.Block.{suffix, count}
use nestor.Block.Cover.{block_bytes}
use nestor.Common.{
  ℕ, ◌<◌, ◌≡◌, ◌≢◌, ◌⊎◌, inr, refl, [], ◌∷◌, Option, none, some, true, false, if◌then◌else◌, length,
  Result, ok, err, NestorError, arith, ap, subst,
}
use nestor.Fetch.{new_ctx, Services}
use nestor.Fetch.Owed.{Covers}
use nestor.Inflight.{Inflight, Slot, key_eq}
use nestor.Inflight
use nestor.Key.{Block, BlockKey, ObjectKey, block_key, immutable}
use nestor.Meta.{get_fresh}
use nestor.Namespace.{Namespace, NamespaceState, new_state, meta_ttl}
use nestor.Node.{Parts, Engine, find_name, state, namespace_of, id_of, register}
use nestor.Node.Content.{new_meta, insert, invalidate}
use nestor.Node.Inserted.{Finds, insert-Finds_all}
use nestor.Node.Invalidated.{Forgets, invalidate-Forgets}
use nestor.Node.Opened.{Returned, get_opts-Returned}
use nestor.Node.Opening.{get_opts}
use nestor.Node.Registered.{WellFormed, Registers, register-Registers}
use nestor.Node.Requests.{Outside}
use nestor.Node.Resolved.{Enough}
use nestor.Origin.{since}
use nestor.Policy.{no_overrides, with_overrides}
use nestor.Store.{HybridCache, StoreLaws}
use nestor.Tests.Caches.{single}
use nestor.Tests.Counts.{table}
use nestor.Tests.Fetches.{services, config, content, Nobody, idle-Covers, probes, heads}
use nestor.Tests.Policies.{policy, percent}

abbrev store : HybridCache
store = record {
  Cache = BlockKey → Option Block;
  get = λ c k. c k;
  contains = λ c k. elim (c k) [ none ↦ false | some b ↦ true ];
  insert = λ c k b j. if key_eq k j then some b else c j;
  remove = λ c k j. if key_eq k j then none else c j;
}

store-laws : StoreLaws store
store-laws = record { get-insert = λ c k j b. inr refl; get-remove = λ c k j. inr refl }

abbrev keeping : Services
keeping = record services { store = store }

abbrev parts : Parts
parts = record {
  services = keeping;
  counts = table;
  ends = single ℕ;
  memory = 1024;
  memory_hash = λ k. k.index;
}

abbrev blank : Engine parts ℕ
blank = record {
  registry = record { by_name = []; states = [] };
  fetcher = record { inflight = Inflight.new 4; blocks = λ k. none; meta = none };
  reads = none;
  readahead = none;
  closed = false;
}

blank-WellFormed : WellFormed blank.registry
unfolding find_name
blank-WellFormed = record {
  named = λ name id e. absurd (ground arith);
  listed = λ id s e. absurd (ground arith);
}

abbrev photos : Namespace ℕ
photos = record { name = b'p' ∷ []; config = config }

register-Registers_example :
    Registers blank photos (register blank photos).0 (register blank photos).1
    × ((id : ℕ) → id_of blank (b'p' ∷ []) ≡ some id → register blank photos ≡ (blank, id))
register-Registers_example = register-Registers blank photos blank-WellFormed (omega arith)

-- A node with an immutable namespace.
abbrev archive : NamespaceState ℕ
unfolding new_state
archive = new_state 0 (record photos { config = record config { consistency = immutable } })

abbrev node : Engine parts ℕ
node = record blank { registry = record { by_name = (b'p' ∷ [], 0) ∷ []; states = archive ∷ [] } }

is_there : state node 0 ≡ ok archive
unfolding state namespace_of
is_there = refl

insert-Finds_all_example :
    let out = insert node 0 (b'a' ∷ []) none content (since 4) 5 in
    let key : ObjectKey = record { namespace = 0; object = b'a' ∷ [] } in
    let m = new_meta (length content) none (since 4) in
    let b = archive.config.block_size in
    let tag = (new_ctx keeping.hasher archive.config key (some m) policy).tag in
    (out.1 ≡ ok tt)
    × ((i : ℕ)
        → i < count b (length content)
        → Finds
            (out.0.fetcher.blocks (block_key key tag i))
            (record { meta = m; content = block_bytes b i content }))
    × ((k : BlockKey)
        → ((i : ℕ) → block_key key tag i ≢ k)
        → (out.0.fetcher.blocks k ≡ none) ⊎ (out.0.fetcher.blocks k ≡ node.fetcher.blocks k))
    × (let found =
          get_fresh keeping.lru out.0.fetcher.meta key (meta_ttl archive.config.consistency) 5 in
        (found ≡ none) ⊎ (found ≡ some m))
insert-Finds_all_example =
    insert-Finds_all store-laws node 0 (b'a' ∷ []) none content (since 4) 5 archive policy is_there

invalidate-Forgets_example :
    ((invalidate node 0 (b'a' ∷ [])).1 ≡ ok tt)
    × Forgets node
        (invalidate node 0 (b'a' ∷ [])).0
        archive.config
        (record { namespace = 0; object = b'a' ∷ [] })
invalidate-Forgets_example = invalidate-Forgets store-laws node 0 (b'a' ∷ []) archive is_there

abbrev outside : Outside keeping
outside = record {
  now = 7;
  found = λ k. none;
  meanwhile = λ st. st;
  started = 0;
  probes = probes;
  heads = heads;
}

blank-Covers : Covers node.fetcher.inflight Nobody []
blank-Covers = idle-Covers

abbrev Suffices : NamespaceState ℕ → Type 0
Suffices s =
    Enough keeping Nobody s.config (with_overrides percent s.config.fetch no_overrides) outside

archive-Suffices : Suffices archive
unfolding with_overrides no_overrides archive
archive-Suffices = record {
  probes_small = omega arith;
  probes = omega arith;
  heads_small = omega arith;
  heads = omega arith;
  meanwhile = λ st c. c;
}

enough : (s : NamespaceState ℕ) → state node 0 ≡ ok s → Suffices s
unfolding state namespace_of
enough s e =
    let own : ok archive ≡ ok s = e in
    subst Suffices
      (ap (λ (r : Result NestorError (NamespaceState ℕ)). elim r [ ok a ↦ a | err x ↦ archive ])
        own)
      archive-Suffices

get_opts-Returned_example :
    Returned Nobody (get_opts percent node 0 (b'a' ∷ []) (suffix 2) no_overrides outside)
get_opts-Returned_example =
    get_opts-Returned Nobody percent node 0 (b'a' ∷ []) (suffix 2) no_overrides outside enough
      blank-Covers

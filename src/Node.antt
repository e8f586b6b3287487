-- ===== src/Node.antt =====
-- nestor/src/nestor.rs: the engine with its registry of namespaces, and the calls of `Nestor` that
-- finish at once. A call holds the registry's lock while it reads or changes it, so it is one step.
-- Snapshots only report. A usize holds the number of namespaces; ids are u32.
pub mod Requests
pub mod Opening
pub mod Content
pub mod Registered
pub mod Resolved
pub mod Opened
pub mod Inserted
pub mod Invalidated
use nestor.Admission.{track}
use nestor.Common.{
  ℕ, ◌%◌, List, [], ◌∷◌, ◌++◌, Bool, true, false, Option, none, some, if◌then◌else◌, length,
  get_elem?, map, u32_mod, Result, ok, err, ok_or, NestorError, unknown_namespace, closed, cache,
}
use nestor.Fetch.{Services, Fetcher}
use nestor.Key.{BlockKey}
use nestor.Lru.{Lru}
use nestor.Namespace.{Namespace, NamespaceState, new_state}
use nestor.Origin.Text.{same}
use nestor.Store.{Counts}

-- The third-party parts of a node: those of the fetcher, the counts of reads, the cache that detects
-- sequential reads, and the size and the hashes of the block cache's memory.
pub record Parts : Type 1 where
  pub services : Services
  pub counts : Counts
  pub ends : Lru ℕ
  pub memory : ℕ
  pub memory_hash : BlockKey → ℕ

pub record Registry (F : Type 0) : Type 0 where
  pub by_name : List (List ℕ × ℕ)
  pub states : List (NamespaceState F)

-- `HashMap::get` for the names.
unfoldable pub find_name : List (List ℕ × ℕ) → List ℕ → Option ℕ
find_name [] name = none
find_name ((other, id) ∷ names) name = if same other name then some id else find_name names name

pub record Engine (p : Parts) (F : Type 0) : Type 0 where
  pub registry : Registry F
  pub fetcher : Fetcher p.services
  pub reads : Option p.counts.Cache
  pub readahead : p.ends.Cache
  pub closed : Bool

module _ {p : Parts} {F : Type 0} where
  -- `Engine::namespace`.
  unfoldable pub namespace_of : Engine p F → ℕ → Result NestorError (NamespaceState F)
  namespace_of g id = ok_or (get_elem? g.registry.states id) unknown_namespace

  -- `Nestor::state`.
  unfoldable pub state : Engine p F → ℕ → Result NestorError (NamespaceState F)
  unfolding namespace_of
  state g id = if g.closed then err NestorError.closed else namespace_of g id

  -- `Nestor::namespace`.
  unfoldable pub id_of : Engine p F → List ℕ → Option ℕ
  unfolding find_name
  id_of g name = find_name g.registry.by_name name

  -- A name that is new.
  unfoldable pub registered : Engine p F → Namespace F → ℕ → Engine p F
  unfolding track new_state
  registered g n id = record g {
    reads = track p.counts p.memory g.reads n.config.block_size;
    registry = record {
      by_name = (n.name, id) ∷ g.registry.by_name;
      states = g.registry.states ++ new_state id n ∷ [];
    };
  }

  unfoldable pub register : Engine p F → Namespace F → Engine p F × ℕ
  unfolding registered find_name
  register g n = elim (find_name g.registry.by_name n.name) [
    | some id ↦ (g, id)
    | none ↦ let id = length g.registry.states % u32_mod in (registered g n id, id)
  ]

  -- The registrations of `NestorBuilder::build`.
  unfoldable pub register_all : Engine p F → List (Namespace F) → Engine p F
  unfolding register
  register_all g [] = g
  register_all g (n ∷ ns) = register_all (register g n).0 ns

  -- `Nestor::namespaces`.
  unfoldable pub namespaces : Engine p F → List (List ℕ × ℕ)
  namespaces g = map (λ s. (s.name, s.id)) g.registry.states

  -- `answer` is what closing the block cache returns.
  unfoldable pub close :
      Engine p F → Result ℕ (Unit {0}) → Engine p F × Result NestorError (Unit {0})
  close g answer =
      if g.closed
      then (g, ok tt)
      else (record g { closed = true }, elim answer [ ok done ↦ ok tt | err x ↦ err (cache x) ])

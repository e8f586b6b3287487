-- ===== src/Cluster.antt =====
-- nestor-client/src/node.rs and nestor-client/src/router.rs: which node of a cluster gets a
-- request. A node is named by its address, here a number; the nodes that rankings share are a
-- function from addresses. Times are nanoseconds since a node's epoch. The atomics are changed with
-- no other thread in between. The hash functions are parameters.
pub mod Choice
pub mod Read
pub mod Pieces
use nestor.Common.{
  ℕ, ◌+◌, ◌-◌, ◌%◌, min, max, Bool, true, false, ◌&&◌, ◌||◌, not, List, [], ◌∷◌, Option, none, some,
  ltb, leb, ◌==◌, if◌then◌else◌, u64_mod, u64_max,
}
use nestor.Inflight.{update}

pub record Node : Type 0 where
  pub seed : ℕ
  pub load_limit : ℕ
  pub inflight : ℕ
  pub down_until_nanos : ℕ

-- `Node::new`, given the configured limit.
unfoldable pub new_node : ℕ → ℕ → Node
new_node seed limit = record {
  seed = seed;
  load_limit = max limit 1;
  inflight = 0;
  down_until_nanos = 0;
}

unfoldable pub is_up : Node → ℕ → Bool
is_up n now = n.down_until_nanos == 0 || leb n.down_until_nanos now

unfoldable pub mark_down : Node → ℕ → ℕ → Node
mark_down n window now =
    let until = max (min (now + window % u64_mod) u64_max) 1 in
    record n { down_until_nanos = max n.down_until_nanos until }

abbrev pub Nodes : Type 0
Nodes = ℕ → Node

-- A `Load` is the address of the node that it counts on, beside the nodes after the count.
unfoldable pub acquire : Nodes → ℕ → ℕ × Nodes
unfolding update
acquire nodes a =
    (a, update nodes a (record (nodes a) { inflight = ((nodes a).inflight + 1) % u64_mod }))

unfoldable pub try_acquire : Nodes → ℕ → Option (ℕ × Nodes)
unfolding acquire
try_acquire nodes a =
    if leb (nodes a).load_limit (nodes a).inflight then none else some (acquire nodes a)

-- `Drop for Load`.
unfoldable pub drop_load : Nodes → ℕ → Nodes
unfolding update
drop_load nodes a =
    update nodes a (record (nodes a) { inflight = ((nodes a).inflight + u64_mod - 1) % u64_mod })

-- The order of `Ranked::new`: the higher score first, then the lower address.
unfoldable pub ranks_before : ℕ × ℕ → ℕ × ℕ → Bool
ranks_before (s, a) (t, b) = ltb t s || s == t && leb a b

unfoldable pub insert_ranked : ℕ × ℕ → List (ℕ × ℕ) → List (ℕ × ℕ)
insert_ranked x [] = x ∷ []
insert_ranked x (y ∷ ys) = if ranks_before x y then x ∷ y ∷ ys else y ∷ insert_ranked x ys

unfoldable pub sort_ranked : List (ℕ × ℕ) → List (ℕ × ℕ)
sort_ranked [] = []
sort_ranked (x ∷ xs) = insert_ranked x (sort_ranked xs)

unfoldable pub addresses : List (ℕ × ℕ) → List ℕ
addresses [] = []
addresses ((s, a) ∷ xs) = a ∷ addresses xs

unfoldable pub scored : (ℕ → ℕ → ℕ → ℕ) → Nodes → List ℕ → ℕ → ℕ → List (ℕ × ℕ)
scored score nodes [] object block = []
scored score nodes (a ∷ as') object block =
    (score (nodes a).seed object block, a) ∷ scored score nodes as' object block

-- `Ranked::new`.
unfoldable pub ranked : (ℕ → ℕ → ℕ → ℕ) → Nodes → List ℕ → ℕ → ℕ → List ℕ
unfolding scored sort_ranked addresses
ranked score nodes as' object block = addresses (sort_ranked (scored score nodes as' object block))

-- The first of the nodes that are up and have room, which is acquired.
unfoldable pub first_free : Nodes → ℕ → List ℕ → Option (ℕ × Nodes)
first_free nodes now [] = none
first_free nodes now (a ∷ as') =
    let rest = first_free nodes now as' in
    if is_up (nodes a) now
    then elim (try_acquire nodes a) [ none ↦ rest | some load ↦ some load ]
    else rest

unfoldable pub first_up : Nodes → ℕ → List ℕ → Option ℕ
first_up nodes now [] = none
first_up nodes now (a ∷ as') =
    let rest = first_up nodes now as' in if is_up (nodes a) now then some a else rest

-- `or_else(|| self.nodes.first())`.
unfoldable pub or_first : Option ℕ → List ℕ → Option ℕ
or_first (some a) as' = some a
or_first none [] = none
or_first none (a ∷ as') = some a

unfoldable pub primary : Nodes → ℕ → List ℕ → Option (ℕ × Nodes)
unfolding first_free first_up or_first
primary nodes now as' = elim (first_free nodes now as') [
  | some load ↦ some load
  | none ↦ elim (or_first (first_up nodes now as') as') [
    | none ↦ none
    | some a ↦ some (acquire nodes a)
  ]
]

-- `filter(addr != primary.addr())`, the test for being up left to `first_free`.
unfoldable pub without : ℕ → List ℕ → List ℕ
without p [] = []
without p (a ∷ as') = if a == p then without p as' else a ∷ without p as'

unfoldable pub secondary : Nodes → ℕ → List ℕ → ℕ → Option (ℕ × Nodes)
unfolding first_free without
secondary nodes now as' p = first_free nodes now (without p as')

-- ===== src/Fetch/Schedule.antt =====
-- nestor/src/fetch.rs, `schedule` and `adopt`: who fetches which blocks. The lookups of the cache
-- are awaited; what they return is an argument, and so is what other tasks do to the state before
-- the second ones are done. A spawned task is the list of the slots that `fetch_group` is given.
use nestor.Block.{FetchGroup, group_misses, count}
use nestor.Common.{
  ℕ, ◌-◌, min, List, [], ◌∷◌, Option, none, some, map, take, drop, ok, range_from, Range,
}
use nestor.Fetch.{ReadCtx, GetResponse, Services, Fetcher, answered}
use nestor.Inflight.{Inflight, Slot, BlockResult, owner, waiter, register}
use nestor.Key.{Block, BlockKey, block_key}

-- `SlotHandle`: a result that is there from the start, or a channel.
pub data Handle : Type 0 where
  resolved : BlockResult → Handle
  pending : ℕ → Handle

abbrev pub slot_index : Slot → ℕ
slot_index s = s.key.index

-- `owners.by_ref().take(group.count)` for each group.
unfoldable pub split_groups : List FetchGroup → List Slot → List (List Slot)
split_groups [] slots = []
split_groups (g ∷ gs) slots = take g.count slots ∷ split_groups gs (drop g.count slots)

unfoldable pub keys : {F : Type 0} → ReadCtx F → Range → List BlockKey
keys ctx indexes =
    map (block_key ctx.key ctx.tag) (range_from indexes.start (indexes.end - indexes.start))

-- The first loop, after the lookups: the table, the owned slots and the handles.
unfoldable pub enlist :
    (BlockKey → ℕ)
    → (BlockKey → Option Block)
    → Inflight
    → List BlockKey
    → Inflight × List Slot × List Handle
enlist hash found f [] = (f, [], [])
enlist hash found f (k ∷ ks) =
    let (f', r) = register hash f k in
    let joined = enlist hash found f' ks in
    let hits = enlist hash found f ks in
    elim (found k) [
      | some block ↦ (hits.0, hits.1, resolved (ok block) ∷ hits.2)
      | none ↦ elim r [
        | owner s rx ↦ (joined.0, s ∷ joined.1, pending rx ∷ joined.2)
        | waiter rx ↦ (joined.0, joined.1, pending rx ∷ joined.2)
      ]
    ]

module _ (e : Services) where
  -- The owned slots whose block has landed in the meantime are answered, the others are kept.
  unfoldable pub land : (BlockKey → Option Block) → Fetcher e → List Slot → Fetcher e × List Slot
  unfolding answered
  land landed st [] = (st, [])
  land landed st (s ∷ owners) =
      let hit : Block → Fetcher e × List Slot =
        λ block. land landed (answered e st s (ok block)) owners in
      let miss = land landed st owners in
      elim (landed s.key) [ some block ↦ hit block | none ↦ (miss.0, s ∷ miss.1) ]

  -- The state, the handles and the spawned tasks.
  unfoldable pub schedule :
      {F : Type 0}
      → ReadCtx F
      → Range
      → (BlockKey → Option Block)
      → (Fetcher e → Fetcher e)
      → (BlockKey → Option Block)
      → Fetcher e
      → Fetcher e × List Handle × List (List Slot)
  unfolding keys enlist land split_groups
  schedule ctx indexes found meanwhile landed st =
      let (f, owners, handles) = enlist e.hash found st.inflight (keys ctx indexes) in
      let (st', left) = land landed (meanwhile (record st { inflight = f })) owners in
      (st', handles, split_groups (group_misses (map slot_index left) ctx.config.fetch_window) left)

  -- `map_while` over the indexes: it stops at the first block that another task fetches.
  unfoldable pub adopt_slots : Inflight → List BlockKey → Inflight × List Slot × List Handle
  adopt_slots f [] = (f, [], [])
  adopt_slots f (k ∷ ks) =
      let (f', r) = register e.hash f k in
      let rest = adopt_slots f' ks in
      elim r [ owner s rx ↦ (rest.0, s ∷ rest.1, pending rx ∷ rest.2) | waiter rx ↦ (f', [], []) ]

  -- The state, the handles and the slots of the task, which is spawned if there are any.
  unfoldable pub adopt :
      {F : Type 0}
      → ReadCtx F
      → Range
      → GetResponse
      → Fetcher e
      → Fetcher e × List Handle × List Slot
  unfolding adopt_slots keys
  adopt ctx indexes response st =
      let end = min indexes.end (count ctx.config.block_size response.meta.size) in
      let (f, slots, handles) =
        adopt_slots st.inflight (keys ctx (record { start = indexes.start; end = end })) in
      (record st { inflight = f }, handles, slots)

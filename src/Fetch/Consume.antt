-- ===== src/Fetch/Consume.antt =====
-- nestor/src/fetch.rs: `consume` and `fill_trailing`, which take the body of a response over.
use nestor.Block.{BlockSize, index, count, block_range}
use nestor.Body.{BlockStream, new, next_block}
use nestor.Common.{
  ℕ, zero, suc, ◌+◌, ◌-◌, min, max, true, false, List, [], ◌∷◌, Option, none, some, leb, ◌==◌,
  if◌then◌else◌, Result, ok, err, OriginError,
}
use nestor.Inflight.{Slot}
use nestor.Key.{empty}
use nestor.Origin.{ObjectMeta}
use nestor.Fetch.{
  ReadCtx, GetResponse, Trailing, Services, Fetcher, answered, drop_all_slots, claim, cached,
  cache_extra, drop_claimed,
}

-- `bs.block_range(index, Some(size)).count()`.
unfoldable pub block_len : BlockSize → ℕ → ℕ → ℕ
block_len b i size = let r = block_range b i (some size) in r.end - r.start

-- `slots.front().map_or(next, |slot| slot.key().index)`.
unfoldable pub front_index : ℕ → List Slot → ℕ
front_index next [] = next
front_index next (s ∷ slots) = s.key.index

-- `(next..bs.count(end)).take_while(..)`, `n` indexes from `next`.
unfoldable pub whole : BlockSize → ℕ → ℕ → ℕ → ℕ → List ℕ
whole b size end zero next = []
whole b size end (suc n) next =
    let rest = whole b size end n (next + 1) in
    if leb (block_range b next (some size)).end end then next ∷ rest else []

abbrev pub cons? : Option Slot → List Slot → List Slot
cons? none slots = slots
cons? (some s) slots = s ∷ slots

-- Blocks to skip in front of the next slot: the stream, and the error that ended it.
unfoldable pub pass : BlockSize → ℕ → ℕ → ℕ → BlockStream → BlockStream × Option OriginError
pass b size zero next stream = (stream, none)
pass b size (suc n) next stream =
    let r = next_block stream (block_len b next size) in
    elim r.1 [ err e ↦ (r.0, some e) | ok block ↦ pass b size n (next + 1) r.0 ]

-- `None` if there are no slots.
unfoldable pub trailing : BlockStream → ℕ → ObjectMeta → List Slot → Option Trailing
trailing stream next m [] = none
trailing stream next m (s ∷ slots) =
    some (record { stream = stream; next = next; slots = s ∷ slots; meta = m })

module _ (e : Services) where
  -- `while next < first`, `n` rounds.
  unfoldable pub lead :
      {F : Type 0}
      → ReadCtx F
      → ObjectMeta
      → ℕ
      → ℕ
      → Fetcher e
      → BlockStream
      → Fetcher e × BlockStream × Option OriginError
  unfolding claim cache_extra drop_claimed
  lead ctx m zero next st body = (st, body, none)
  lead ctx m (suc n) next st body =
      let (st', claimed) = claim e ctx st next in
      let r = next_block body (block_len ctx.config.block_size next m.size) in
      elim r.1 [
        | err x ↦ (drop_claimed e st' claimed, r.0, some x)
        | ok content ↦ lead ctx m n (next + 1) (cache_extra e st' claimed m content) r.0
      ]

  -- `while let Some(front) = slots.front()`: the state, the body, the slots that are left, the
  -- index behind the last block, and the error.
  unfoldable pub serve :
      {F : Type 0}
      → ReadCtx F
      → ObjectMeta
      → List Slot
      → ℕ
      → Fetcher e
      → BlockStream
      → Fetcher e × BlockStream × List Slot × ℕ × Option OriginError
  unfolding cached answered
  serve ctx m [] next st body = (st, body, [], next, none)
  serve ctx m (s ∷ slots) next st body =
      let expected = block_len ctx.config.block_size s.key.index m.size in
      let r = next_block body expected in
      elim (expected == 0) [
        | true ↦ serve ctx m slots (s.key.index + 1) (answered e st s (ok (empty m))) body
        | false ↦ elim r.1 [
          | err x ↦ (st, r.0, s ∷ slots, s.key.index + 1, some x)
          | ok content ↦ serve ctx m slots (s.key.index + 1) (cached e st s m content) r.0
        ]
      ]

  unfoldable pub claim_all : {F : Type 0} → ReadCtx F → List ℕ → Fetcher e → Fetcher e × List Slot
  unfolding claim
  claim_all ctx [] st = (st, [])
  claim_all ctx (i ∷ is) st =
      let (st', claimed) = claim e ctx st i in
      let (st'', slots) = claim_all ctx is st' in (st'', cons? claimed slots)

  abbrev pub Taken : Type 0
  Taken = Fetcher e × List Slot × Result OriginError (Option Trailing)

  -- The end of `consume`: what else the response holds.
  unfoldable pub claim_trailing :
      {F : Type 0} → ReadCtx F → GetResponse → Fetcher e → BlockStream → ℕ → Taken
  unfolding claim_all whole trailing
  claim_trailing ctx response st body next =
      let b = ctx.config.block_size in
      let end = min response.range.end response.meta.size in
      let (st', slots) =
        claim_all ctx (whole b response.meta.size end (count b end - next) next) st in
      (st', [], ok (trailing body next response.meta slots))

  unfoldable pub consume : {F : Type 0} → ReadCtx F → Fetcher e → GetResponse → List Slot → Taken
  unfolding lead serve claim_trailing front_index
  consume ctx st response slots =
      let b = ctx.config.block_size in
      let m = response.meta in
      let next = index b response.range.start in
      let first = min (front_index next slots) (count b m.size) in
      let (st', body, failure) = lead ctx m (first - next) next st (new response.body) in
      elim failure [
        | some x ↦ (st', slots, err x)
        | none ↦
            let (st'', body', left, next', failure') =
              serve ctx m slots (max next first) st' body in
            elim failure' [
              | some x ↦ (st'', left, err x)
              | none ↦ claim_trailing ctx response st'' body' next'
            ]
      ]

  -- The loop of `fill_trailing`; a return drops the slots that are left.
  unfoldable pub fill :
      {F : Type 0} → ReadCtx F → ObjectMeta → List Slot → ℕ → Fetcher e → BlockStream → Fetcher e
  unfolding pass cached drop_all_slots
  fill ctx m [] next st stream = st
  fill ctx m (s ∷ slots) next st stream =
      let b = ctx.config.block_size in
      let (stream', failure) = pass b m.size (s.key.index - next) next stream in
      let r = next_block stream' (block_len b s.key.index m.size) in
      elim failure [
        | some x ↦ drop_all_slots e st (s ∷ slots)
        | none ↦ elim r.1 [
          | err x ↦ drop_all_slots e st (s ∷ slots)
          | ok content ↦ fill ctx m slots (max next s.key.index + 1) (cached e st s m content) r.0
        ]
      ]

  unfoldable pub fill_trailing : {F : Type 0} → ReadCtx F → Fetcher e → Option Trailing → Fetcher e
  unfolding fill
  fill_trailing ctx st none = st
  fill_trailing ctx st (some t) = fill ctx t.meta t.slots t.next st t.stream

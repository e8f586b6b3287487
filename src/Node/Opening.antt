-- ===== src/Node/Opening.antt =====
-- nestor/src/nestor.rs: `head`, `get_opts` and `spawn_readahead`, over the requests to the origin.
use nestor.Block.{ReadRange, bounded, resolve, BlockSize, count}
use nestor.Common.{
  ℕ, ◌+◌, ◌%◌, min, List, [], Option, none, some, if◌then◌else◌, ltb, leb, map_or, u32_mod, Range,
  Result, ok, err, NestorError,
}
use nestor.Fetch.{ReadCtx}
use nestor.Fetch.Probe.{Probed, head}
use nestor.Fetch.Schedule.{Handle}
use nestor.Inflight.{Slot}
use nestor.Key.{ObjectKey}
use nestor.Meta.{get_fresh, observe}
use nestor.Namespace.{NamespaceConfig, meta_ttl}
use nestor.Node.{Parts, Engine, state}
use nestor.Node.Requests.{Outside, resolve_ctx}
use nestor.Origin.{ObjectMeta}
use nestor.Policy.{FetchOverrides, Floating, with_overrides}

-- The range of a read; `none` is where the code is `unreachable!`.
unfoldable pub request_range : Option ObjectMeta → ReadRange → Option (Result NestorError Range)
unfolding resolve
request_range (some m) request = some (resolve request m.size)
request_range none (bounded r) =
    some (if leb r.end r.start then err (NestorError.range r 0) else ok r)
request_range none request = none

-- The blocks that `spawn_readahead` fetches, if any.
unfoldable pub readahead_blocks : BlockSize → ℕ → Option ObjectMeta → Range → Option Range
readahead_blocks b readahead known r =
    let start = count b r.end in
    let last = (start + readahead) % u32_mod in
    let end = map_or known last (λ m. min last (count b m.size)) in
    if leb end start then none else some (record { start = start; end = end })

-- What a read starts with, and the blocks that a task fetches ahead of it.
pub record Opened (F : Type 0) : Type 0 where
  pub request : ReadRange
  pub ctx : ReadCtx F
  pub range : Range
  pub fetched : List Handle
  pub ahead : Option Range

module _ {p : Parts} {F : Type 0} where
  -- `Nestor::head`.
  unfoldable pub head_object :
      Engine p F
      → ℕ
      → List ℕ
      → Outside p.services
      → Option (Engine p F × Result NestorError ObjectMeta)
  unfolding state get_fresh meta_ttl head
  head_object g ns object o =
      let key : ObjectKey = record { namespace = ns; object = object } in
      let lru = p.services.lru in
      elim (state g ns) [
        | err x ↦ some (g, err x)
        | ok s ↦
            let looked = record g.fetcher { meta = lru.touch g.fetcher.meta key } in
            elim (get_fresh lru g.fetcher.meta key (meta_ttl s.config.consistency) o.now) [
              | some m ↦ some (record g { fetcher = looked }, ok m)
              | none ↦ elim (head p.services s.config key o.started looked o.heads) [
                | none ↦ none
                | some r ↦ some (record g { fetcher = r.0 }, r.1)
              ]
            ]
      ]

  -- The range is known: a sequential read makes a task fetch ahead.
  unfoldable pub looked_ahead :
      Engine p F
      → NamespaceConfig F
      → ReadRange
      → ReadCtx F
      → List Handle
      → Range
      → Engine p F × Opened F
  unfolding observe readahead_blocks
  looked_ahead g config request ctx fetched r =
      let seen = observe p.ends g.readahead ctx.key r in
      let opened : Option Range → Opened F = λ ahead. record {
        request = request;
        ctx = ctx;
        range = r;
        fetched = fetched;
        ahead = ahead;
      } in
      if ltb 0 config.readahead
      then (
        record g { readahead = seen.0 },
        opened (
            if seen.1
            then readahead_blocks config.block_size config.readahead ctx.meta r
            else none),
      )
      else (g, opened none)

  -- The range of the request, or an error. The slots are those of the task that a probe has spawned.
  unfoldable pub ranged :
      Engine p F
      → NamespaceConfig F
      → ReadRange
      → ReadCtx F
      → List Handle
      → List Slot
      → Result NestorError Range
      → Engine p F × List Slot × Result NestorError (Opened F)
  unfolding looked_ahead
  ranged g config request ctx fetched slots (err x) = (g, slots, err x)
  ranged g config request ctx fetched slots (ok r) =
      let o = looked_ahead g config request ctx fetched r in (o.0, slots, ok o.1)

  -- After `resolve_ctx`.
  unfoldable pub opened :
      Engine p F
      → NamespaceConfig F
      → ReadRange
      → Probed p.services F
      → Option (Engine p F × List Slot × Result NestorError (Opened F))
  unfolding request_range ranged
  opened g config request (st, err x) = some (record g { fetcher = st }, [], err x)
  opened g config request (st, ok (ctx, fetched, slots)) = elim (request_range ctx.meta request) [
    | none ↦ none
    | some r ↦ some (ranged (record g { fetcher = st }) config request ctx fetched slots r)
  ]

  unfoldable pub get_opts :
      Floating F
      → Engine p F
      → ℕ
      → List ℕ
      → ReadRange
      → FetchOverrides
      → Outside p.services
      → Option (Engine p F × List Slot × Result NestorError (Opened F))
  unfolding state with_overrides resolve_ctx opened
  get_opts f g ns object request overrides o = elim (state g ns) [
    | err x ↦ some (g, [], err x)
    | ok s ↦
        let key : ObjectKey = record { namespace = s.id; object = object } in
        let policy = with_overrides f s.config.fetch overrides in
        elim (resolve_ctx p.services s.config key request policy o g.fetcher) [
          | none ↦ none
          | some r ↦ opened g s.config request r
        ]
  ]

-- ===== src/Reader.antt =====
-- nestor/src/reader.rs: the stream of a read. What the engine does comes from outside, one answer
-- for each call, in the order of the calls: a handle is the result that waiting on it will return.
-- Counts of reads and metrics are left out.
pub mod Rounds
pub mod Handles
pub mod Filled
pub mod Collected
use nestor.Block.{BlockSize, bytes, count, blocks, slice_within, ReadRange, resolve, aligned_take}
use nestor.Common.{
  ℕ, zero, suc, ◌+◌, min, Bool, true, false, not, ◌&&◌, ◌||◌, List, [], ◌∷◌, ◌++◌, Option, none,
  some, unwrap_or, ltb, leb, ◌==◌, if◌then◌else◌, length, slice, Range, Result, ok, err,
  NestorError, shared, stale, is_cancelled, is_stale,
}
use nestor.Fetch.{ReadCtx}
use nestor.Inflight.{BlockResult}
use nestor.Key.{Block}
use nestor.Origin.{ObjectMeta}

-- The answers of the engine to the call of a number: `schedule`, `MetaCache::any`, `resolve_ctx`,
-- and whether `Arc::try_unwrap` finds the error unshared.
pub record Engine (F : Type 0) : Type 0 where
  pub schedule : ℕ → ReadCtx F → Range → List BlockResult
  pub any : ℕ → Option ObjectMeta
  pub resolve_ctx : ℕ → Result NestorError (ReadCtx F × List BlockResult)
  pub alone : ℕ → Bool

pub record Reader (F : Type 0) : Type 0 where
  pub request : ReadRange
  pub ctx : ReadCtx F
  pub range : Range
  pub known : Option ObjectMeta
  pub first : ℕ
  pub next : ℕ
  pub end : ℕ
  pub emit : ℕ
  pub window : List BlockResult
  pub restarted : Bool
  pub refetched : Option ℕ
  pub done : Bool
  pub calls : ℕ

-- One item of the stream, or its end.
abbrev pub Item : Type 0
Item = Option (Result NestorError (List ℕ))

module _ {F : Type 0} where
  unfoldable pub new_reader : ReadRange → ReadCtx F → Range → List BlockResult → Reader F
  new_reader request ctx range fetched =
      let r = blocks ctx.config.block_size range in
      record {
        request = request;
        ctx = ctx;
        range = range;
        known = ctx.meta;
        first = r.start;
        next = r.start + length fetched;
        end = r.end;
        emit = r.start;
        window = fetched;
        restarted = false;
        refetched = none;
        done = false;
        calls = 0;
      }

  -- The object's size cuts the range.
  unfoldable pub learned : Reader F → ObjectMeta → Reader F
  learned r m = record r {
    range = record { start = r.range.start; end = min r.range.end m.size };
    end = min r.end (count r.ctx.config.block_size m.size);
    known = some m;
  }

  abbrev pub learn_one : Reader F → Option ObjectMeta → Reader F
  learn_one r none = r
  learn_one r (some m) = learned r m

-- `self.refetched == Some(index)`.
abbrev pub fetched_again : Option ℕ → ℕ → Bool
fetched_again none i = false
fetched_again (some j) i = j == i

-- A chunk in front of what comes after it.
unfoldable pub joined :
    List ℕ → Option (Result NestorError (List ℕ)) → Option (Result NestorError (List ℕ))
joined chunk none = none
joined chunk (some (err x)) = some (err x)
joined chunk (some (ok rest)) = some (ok (chunk ++ rest))

module _ {F : Type 0} (e : Engine F) where
  abbrev pub or_any : Reader F → Option ObjectMeta → Option ObjectMeta
  or_any r none = e.any r.calls
  or_any r (some m) = some m

  unfoldable pub learn : Reader F → Option ObjectMeta → Reader F
  unfolding learned
  learn r m = elim r.known [
    | some known ↦ r
    | none ↦ learn_one (record r { calls = r.calls + 1 }) (or_any r m)
  ]

  -- The loop of `fill`; a round takes one block at least.
  unfoldable pub fill_loop : ℕ → ℕ → Reader F → Reader F
  fill_loop zero limit r = r
  fill_loop (suc fuel) limit r =
      let take = aligned_take r.next r.end r.ctx.config.fetch_window in
      let filled = record r {
        next = r.next + take;
        window =
            r.window ++ e.schedule r.calls r.ctx (record { start = r.next; end = r.next + take });
        calls = r.calls + 1;
      } in
      let rest = fill_loop fuel limit filled in
      if ltb (length r.window) limit && ltb r.next r.end
      then if not (length r.window == 0) && ltb limit (length r.window + take)
        then r
        else elim r.known [ none ↦ filled | some m ↦ rest ]
      else r

  unfoldable pub limit : Reader F → ℕ
  limit r = elim r.known [ none ↦ r.ctx.config.fetch_window | some m ↦ r.ctx.config.read_window ]

  unfoldable pub fill : Reader F → Reader F
  unfolding learn fill_loop limit
  fill r = let r' = learn r none in fill_loop (suc r'.end) (limit r') r'

  -- The state behind `resolve_ctx` and `resolve`.
  unfoldable pub restarted_at :
      Reader F → ReadCtx F → List BlockResult → ObjectMeta → Range → Reader F
  restarted_at r ctx fetched m range =
      let is = blocks ctx.config.block_size range in
      record r {
        range = range;
        ctx = ctx;
        known = some m;
        first = is.start;
        next = is.start + length fetched;
        end = is.end;
        emit = is.start;
        window = fetched;
      }

  unfoldable pub restart : Reader F → Result NestorError (Reader F)
  unfolding restarted_at
  restart r =
      let r' : Reader F = record r { restarted = true; window = []; calls = r.calls + 1 } in
      elim (e.resolve_ctx r.calls) [
        | err x ↦ err x
        | ok answer ↦ elim answer.0.meta [
          | none ↦ err stale
          | some m ↦ elim (resolve r.request m.size) [
            | err x ↦ err x
            | ok range ↦ ok (restarted_at r' answer.0 answer.1 m range)
          ]
        ]
      ]

  -- A block that arrived: `index` is its number, and `emit` is behind it.
  unfoldable pub emit_block : Reader F → ℕ → Block → Reader F × Item
  unfolding learn
  emit_block r index block =
      let r' = learn r (some block.meta) in
      let b = r'.ctx.config.block_size in
      let within = slice_within b index r'.range in
      let size = unwrap_or (elim r'.known [ none ↦ none | some m ↦ some m.size ]) 0 in
      if length block.content == 0 || leb (length block.content) within.start
      then (
        record r' { done = true },
        if index == r'.first then some (err (NestorError.range r'.range size)) else none,
      )
      else (
        record r' { done = ltb (length block.content) (bytes b) || leb r'.end (index + 1) },
        some (ok (slice within.start (min within.end (length block.content)) block.content)),
      )

  -- A handle that returned an error: the item that ends the read, or another round.
  unfoldable pub emit_error : Reader F → ℕ → NestorError → Reader F × Option Item
  unfolding restart
  emit_error r index x =
      if is_cancelled x && not (fetched_again r.refetched index)
      then (
        record r {
          refetched = some index;
          emit = index;
          window = e.schedule r.calls r.ctx (record { start = index; end = index + 1 }) ++ r.window;
          calls = r.calls + 1;
        },
        none,
      )
      else if is_stale x && not r.restarted && index == r.first
      then elim (restart r) [
        | ok r' ↦ (r', none)
        | err y ↦ (record r { restarted = true; window = []; done = true }, some (some (err y)))
      ]
      else (record r { done = true }, some (some (err (if e.alone r.calls then x else shared x))))

  -- A handle is taken out of the window and waited for.
  unfoldable pub pop : Reader F → List BlockResult → Reader F × Option Item
  unfolding emit_block emit_error
  pop r [] = (record r { done = true }, some none)
  pop r (ok block ∷ window) =
      let out = emit_block (record r { emit = r.emit + 1; window = window }) r.emit block in
      (out.0, some out.1)
  pop r (err x ∷ window) = emit_error (record r { emit = r.emit + 1; window = window }) r.emit x

  -- One round of the loop of `next`.
  unfoldable pub round : Reader F → Reader F × Option Item
  unfolding fill pop
  round r = if r.done then (r, some none) else pop (fill r) (fill r).window

  -- `next`, with the number of rounds that are allowed; `none` if they do not suffice.
  unfoldable pub next_item : ℕ → Reader F → Option (Reader F × Item)
  unfolding round
  next_item zero r = none
  next_item (suc fuel) r =
      let out = round r in
      let rest = next_item fuel out.0 in elim out.1 [ none ↦ rest | some item ↦ some (out.0, item) ]

  -- `collect`, of at most `n` items in `4` rounds each.
  unfoldable pub collect : ℕ → Reader F → Option (Result NestorError (List ℕ))
  unfolding next_item
  collect zero r = none
  collect (suc n) r = elim (next_item 4 r) [
    | none ↦ none
    | some out ↦
        let rest = collect n out.0 in
        elim out.1 [
          | none ↦ some (ok [])
          | some item ↦ elim item [ err x ↦ some (err x) | ok chunk ↦ joined chunk rest ]
        ]
  ]

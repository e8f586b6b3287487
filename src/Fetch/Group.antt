-- ===== src/Fetch/Group.antt =====
-- nestor/src/fetch.rs: `accept` and the attempts of `fetch_group`.
use nestor.Block.{bytes, span}
use nestor.Common.{
  ℕ, ◌-◌, ◌%◌, ◌&&◌, ◌||◌, not, List, [], ◌∷◌, Option, none, some, ltb, leb, ◌==◌, if◌then◌else◌,
  length, Range, Result, ok, err, OriginError, short_read, NestorError, stale, from_origin,
}
use nestor.Inflight.{Slot}
use nestor.Key.{empty, ObjectKey, content_tag, immutable_tag}
use nestor.Meta.{put, remove_meta}
use nestor.Origin.{ObjectMeta}
use nestor.Policy.{Retry, new_retry, failed}
use nestor.Fetch.{ReadCtx, GetResponse, Services, Fetcher, resolve_all, drop_all_slots}
use nestor.Fetch.Consume.{Taken, front_index, consume, fill_trailing}

-- What the origin did in one attempt: its answer, the metadata of the head request that `past_end`
-- makes if it is made, and the time at the end.
pub record Attempt : Type 0 where
  pub answer : Result OriginError GetResponse
  pub head : Option ObjectMeta
  pub now : ℕ

-- The answers of `past_end`: the metadata, if the range starts at or behind the object's end.
unfoldable pub past_end : Option ObjectMeta → ℕ → Option ObjectMeta
past_end none start = none
past_end (some m) start = if leb m.size start then some m else none

unfoldable pub answer_of : Option GetResponse → Attempt → Result OriginError GetResponse
answer_of (some response) a = ok response
answer_of none a = a.answer

abbrev pub size_of : Option ObjectMeta → Option ℕ
size_of none = none
size_of (some m) = some m.size

-- The metadata, if it is known and the range is empty.
unfoldable pub nothing_left : Option ObjectMeta → Range → Option ObjectMeta
nothing_left none r = none
nothing_left (some m) r = if leb r.end r.start then some m else none

module _ (e : Services) where
  unfoldable pub accept :
      {F : Type 0} → ReadCtx F → Fetcher e → GetResponse → List Slot → Range → ℕ → Taken e
  unfolding resolve_all consume
  accept ctx st response slots range now =
      let st' : Fetcher e = record st { meta = put e.lru st.meta ctx.key response.meta now } in
      if not (ctx.tag == immutable_tag)
        && not (content_tag e.hasher response.meta.etag response.meta.size == ctx.tag)
      then (resolve_all e st' slots (err stale), [], ok none)
      else if ltb range.start response.range.start
          || not (response.range.start % bytes ctx.config.block_size == 0)
      then (st', slots, err (short_read (range.end - range.start) 0))
      else consume e ctx st' response slots

  -- One round of the loop of `fetch_group`: it returns, or goes on with other slots, retries and
  -- metadata.
  pub data Progress (F : Type 0) : Type 0 where
    finished : Fetcher e → Progress F
    again : Fetcher e → List Slot → Retry F → Option ObjectMeta → Progress F

  unfoldable pub retry_or_fail :
      {F : Type 0}
      → Fetcher e
      → Retry F
      → List Slot
      → Option ObjectMeta
      → OriginError
      → ℕ
      → Progress F
  unfolding resolve_all
  retry_or_fail st retry slots m error now =
      let (retry', outcome) = failed retry error now in
      elim outcome [
        | ok delay ↦ again st slots retry' m
        | err x ↦ finished (resolve_all e st slots (err (from_origin x)))
      ]

  -- What `head` leaves in the metadata cache.
  unfoldable pub headed : ObjectKey → Fetcher e → Option ObjectMeta → ℕ → Fetcher e
  headed key st none now = record st { meta = remove_meta e.lru st.meta key }
  headed key st (some m) now = record st { meta = put e.lru st.meta key m now }

  unfoldable pub refused_for_now :
      {F : Type 0}
      → ReadCtx F
      → Fetcher e
      → List Slot
      → Retry F
      → Option ObjectMeta
      → ℕ
      → OriginError
      → Attempt
      → Progress F
  unfolding retry_or_fail past_end headed resolve_all
  refused_for_now ctx st slots retry (some m) start x a =
      retry_or_fail st retry slots (some m) x a.now
  refused_for_now ctx st slots retry none start x a =
      let st' = headed ctx.key st a.head a.now in
      elim (past_end a.head start) [
        | none ↦ retry_or_fail st' retry slots none x a.now
        | some m ↦ finished (resolve_all e st' slots (ok (empty m)))
      ]

  -- The errors of the request itself.
  unfoldable pub refused :
      {F : Type 0}
      → ReadCtx F
      → Fetcher e
      → List Slot
      → Retry F
      → Option ObjectMeta
      → ℕ
      → OriginError
      → Attempt
      → Progress F
  unfolding resolve_all refused_for_now
  refused ctx st slots retry m start OriginError.not_found a = finished (
      resolve_all e (record st { meta = remove_meta e.lru st.meta ctx.key }) slots
        (err NestorError.not_found))
  refused ctx st slots retry m start OriginError.precondition_failed a =
      finished
        (resolve_all e (record st { meta = remove_meta e.lru st.meta ctx.key }) slots (err stale))
  refused ctx st slots retry m start x a = refused_for_now ctx st slots retry m start x a

  -- What `accept` left: slots that are left when `fetch_group` returns are dropped.
  unfoldable pub accepted :
      {F : Type 0} → ReadCtx F → Taken e → Retry F → ObjectMeta → ℕ → Progress F
  unfolding retry_or_fail fill_trailing drop_all_slots
  accepted ctx (st, slots, ok trailing) retry m now =
      finished (drop_all_slots e (fill_trailing e ctx st trailing) slots)
  accepted ctx (st, slots, err x) retry m now = retry_or_fail st retry slots (some m) x now

  unfoldable pub round :
      {F : Type 0}
      → ReadCtx F
      → Fetcher e
      → List Slot
      → Retry F
      → Option ObjectMeta
      → Option GetResponse
      → Attempt
      → Progress F
  unfolding nothing_left answer_of accepted accept refused resolve_all
  round ctx st slots retry m initial a =
      let r = span ctx.config.block_size (front_index 0 slots) (length slots) (size_of m) in
      elim (nothing_left m r) [
        | some known ↦ finished (resolve_all e st slots (ok (empty known)))
        | none ↦ elim (answer_of initial a) [
          | ok response ↦
              accepted ctx (accept ctx st response slots r a.now) retry response.meta a.now
          | err x ↦ refused ctx st slots retry m r.start x a
        ]
      ]

  -- The loop of `fetch_group` over the attempts; `none` if they do not suffice.
  unfoldable pub rounds :
      {F : Type 0}
      → ReadCtx F
      → Fetcher e
      → List Slot
      → Retry F
      → Option ObjectMeta
      → Option GetResponse
      → List Attempt
      → Option (Fetcher e)
  unfolding round
  rounds ctx st [] retry m initial attempts = some st
  rounds ctx st (s ∷ slots) retry m initial [] = none
  rounds ctx st (s ∷ slots) retry m initial (a ∷ attempts) =
      elim (round ctx st (s ∷ slots) retry m initial a) [
        | finished st' ↦ some st'
        | again st' left retry' m' ↦ rounds ctx st' left retry' m' none attempts
      ]

  unfoldable pub fetch_group :
      {F : Type 0}
      → ReadCtx F
      → Fetcher e
      → List Slot
      → Option GetResponse
      → ℕ
      → List Attempt
      → Option (Fetcher e)
  unfolding rounds
  fetch_group ctx st slots initial started attempts =
      rounds ctx st slots (new_retry ctx.policy started) ctx.meta initial attempts

-- ===== src/Fetch/Probe.antt =====
-- nestor/src/fetch.rs, `head`, `past_end` and `probe`: requests without known metadata. As in a
-- fetch, what the origin answers and when comes from outside, one item for each attempt.
use nestor.Block.{offset, span}
use nestor.Common.{
  ℕ, ◌+◌, ◌-◌, min, List, [], ◌∷◌, Option, none, some, Range, Result, ok, err, OriginError,
  NestorError, from_origin, origin,
}
use nestor.Fetch.{ReadCtx, new_ctx, GetResponse, Services, Fetcher}
use nestor.Fetch.Group.{past_end, headed}
use nestor.Fetch.Hedge.{Reply, timed}
use nestor.Fetch.Schedule.{Handle, adopt}
use nestor.Inflight.{Slot}
use nestor.Key.{ObjectKey}
use nestor.Meta.{put, remove_meta}
use nestor.Namespace.{NamespaceConfig}
use nestor.Origin.{ObjectMeta, GetOptions}
use nestor.Policy.{FetchPolicy, Retry, new_retry, attempt_deadline, failed}

-- A head request: when it is sent, and its reply.
pub record HeadAttempt : Type 0 where
  pub started : ℕ
  pub reply : Reply ObjectMeta

-- `result.ok()`.
abbrev pub to_option : {E A : Type 0} → Result E A → Option A
to_option (ok a) = some a
to_option (err e) = none

-- The first request of a probe.
unfoldable pub probe_options :
    {F : Type 0} → NamespaceConfig F → Range → Option ObjectMeta → GetOptions
probe_options config indexes stale = record {
  range = some (span config.block_size indexes.start (indexes.end - indexes.start) none);
  if_match = none;
  if_none_match = elim stale [ none ↦ none | some m ↦ m.etag ];
}

-- One attempt of a probe: the result of `origin_get`, the metadata of the head request that
-- `past_end` makes if it is made, and the time at the end.
pub record ProbeAttempt : Type 0 where
  pub answer : Result OriginError GetResponse
  pub head : Option ObjectMeta
  pub now : ℕ

module _ (e : Services) where
  -- What `probe` returns: the context, the handles and the slots of the task that it spawns.
  abbrev pub Probed : Type 0 → Type 0
  Probed F = Fetcher e × Result NestorError (ReadCtx F × List Handle × List Slot)

  -- Either the probe is over, or another attempt follows.
  pub data ProbeStep (F : Type 0) : Type 0 where
    done : Probed F → ProbeStep F
    retrying : Fetcher e → Retry F → ProbeStep F

module _ (e : Services) {F : Type 0} where
  -- The loop of `head`; `none` if the attempts do not suffice.
  unfoldable pub head_loop :
      ObjectKey
      → Retry F
      → Fetcher e
      → List HeadAttempt
      → Option (Fetcher e × Result NestorError ObjectMeta)
  unfolding timed
  head_loop key retry st [] = none
  head_loop key retry st (a ∷ attempts) =
      let by = min (a.started + retry.policy.first_byte) (attempt_deadline retry a.started) in
      let reply = timed a.started by a.reply in
      elim reply.result [
        | ok m ↦ some (record st { meta = put e.lru st.meta key m reply.at }, ok m)
        | err x ↦
            let (retry', outcome) = failed retry x reply.at in
            let rest = head_loop key retry' st attempts in
            elim outcome [
              | ok delay ↦ rest
              | err x' ↦
                  some (record st { meta = remove_meta e.lru st.meta key }, err (from_origin x'))
            ]
      ]

  unfoldable pub head :
      NamespaceConfig F
      → ObjectKey
      → ℕ
      → Fetcher e
      → List HeadAttempt
      → Option (Fetcher e × Result NestorError ObjectMeta)
  unfolding head_loop
  head config key started st attempts = head_loop key (new_retry config.fetch started) st attempts

  -- `build`: the metadata is kept, and the read goes on with it.
  unfoldable pub build :
      NamespaceConfig F
      → ObjectKey
      → FetchPolicy F
      → Fetcher e
      → ObjectMeta
      → ℕ
      → Fetcher e × ReadCtx F
  build config key policy st m now = (
    record st { meta = put e.lru st.meta key m now },
    new_ctx e.hasher config key (some m) policy,
  )

  unfoldable pub adopted :
      NamespaceConfig F
      → ObjectKey
      → FetchPolicy F
      → Range
      → Fetcher e
      → GetResponse
      → ℕ
      → Probed e F
  unfolding build
  adopted config key policy indexes st response now =
      let (st', ctx) = build config key policy st response.meta now in
      let (st'', handles, slots) = adopt e ctx indexes response st' in
      (st'', ok (ctx, handles, slots))

  -- No handles: the object is as it was, or ends in front of the range.
  unfoldable pub unread :
      NamespaceConfig F → ObjectKey → FetchPolicy F → Fetcher e → ObjectMeta → ℕ → Probed e F
  unfolding build
  unread config key policy st m now =
      let (st', ctx) = build config key policy st m now in (st', ok (ctx, [], []))

  unfoldable pub not_modified :
      NamespaceConfig F → ObjectKey → FetchPolicy F → Fetcher e → Option ObjectMeta → ℕ → Probed e F
  unfolding unread
  not_modified config key policy st none now = (st, err (origin OriginError.not_modified))
  not_modified config key policy st (some m) now = unread config key policy st m now

  unfoldable pub probe_again : Fetcher e → Retry F → OriginError → ℕ → ProbeStep e F
  probe_again st retry x now =
      let (retry', outcome) = failed retry x now in
      elim outcome [ ok delay ↦ retrying st retry' | err x' ↦ done (st, err (from_origin x')) ]

  unfoldable pub probe_error :
      NamespaceConfig F
      → ObjectKey
      → FetchPolicy F
      → Range
      → Fetcher e
      → Retry F
      → OriginError
      → ProbeAttempt
      → ProbeStep e F
  unfolding headed past_end unread probe_again
  probe_error config key policy indexes st retry x a =
      let st' = headed e key st a.head a.now in
      elim (past_end a.head (offset config.block_size indexes.start)) [
        | some m ↦ done (unread config key policy st' m a.now)
        | none ↦ probe_again st' retry x a.now
      ]

  -- The errors of the request.
  unfoldable pub probe_refused :
      NamespaceConfig F
      → ObjectKey
      → FetchPolicy F
      → Range
      → Option ObjectMeta
      → Fetcher e
      → Retry F
      → OriginError
      → ProbeAttempt
      → ProbeStep e F
  unfolding not_modified probe_error
  probe_refused config key policy indexes stale st retry OriginError.not_modified a =
      done (not_modified config key policy st stale a.now)
  probe_refused config key policy indexes stale st retry OriginError.not_found a =
      done (record st { meta = remove_meta e.lru st.meta key }, err NestorError.not_found)
  probe_refused config key policy indexes stale st retry x a =
      probe_error config key policy indexes st retry x a

  unfoldable pub probe_step :
      NamespaceConfig F
      → ObjectKey
      → FetchPolicy F
      → Range
      → Option ObjectMeta
      → Fetcher e
      → Retry F
      → ProbeAttempt
      → ProbeStep e F
  unfolding adopted probe_refused
  probe_step config key policy indexes stale st retry a = elim a.answer [
    | ok response ↦ done (adopted config key policy indexes st response a.now)
    | err x ↦ probe_refused config key policy indexes stale st retry x a
  ]

  -- The loop of `probe`.
  unfoldable pub probe_loop :
      NamespaceConfig F
      → ObjectKey
      → FetchPolicy F
      → Range
      → Option ObjectMeta
      → Fetcher e
      → Retry F
      → List ProbeAttempt
      → Option (Probed e F)
  unfolding probe_step
  probe_loop config key policy indexes stale st retry [] = none
  probe_loop config key policy indexes stale st retry (a ∷ attempts) =
      elim (probe_step config key policy indexes stale st retry a) [
        | done r ↦ some r
        | retrying st' retry' ↦ probe_loop config key policy indexes stale st' retry' attempts
      ]

  unfoldable pub probe :
      NamespaceConfig F
      → ObjectKey
      → FetchPolicy F
      → Range
      → Option ObjectMeta
      → ℕ
      → Fetcher e
      → List ProbeAttempt
      → Option (Probed e F)
  unfolding probe_loop
  probe config key policy indexes stale started st attempts =
      probe_loop config key policy indexes stale st (new_retry policy started) attempts

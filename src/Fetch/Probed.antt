-- ===== src/Fetch/Probed.antt =====
-- nestor/src/fetch.rs, `head` and `probe`: both end, and what they leave.
use nestor.Block.{offset}
use nestor.Common.{
  ℕ, ◌+◌, ◌-◌, ◌≤◌, ◌<◌, ◌≡◌, inl, inr, refl, List, [], ◌∷◌, Option, none, some, map, Option-cases,
  Result-cases, Range, length, max, min, Result, ok, err, OriginError, NestorError, from_origin,
  arith, u32_max,
}
use nestor.Fetch.{new_ctx, GetResponse, Services, Fetcher}
use nestor.Fetch.Adopted.{adopt-Covers}
use nestor.Fetch.Group.{past_end, headed}
use nestor.Fetch.Hedge.{timed}
use nestor.Fetch.Owed.{Covers}
use nestor.Fetch.Probe.{
  HeadAttempt, to_option, ProbeAttempt, Probed, ProbeStep, done, retrying, head_loop, head, build,
  adopted, unread, not_modified, probe_again, probe_error, probe_refused, probe_step, probe_loop,
  probe,
}
use nestor.Fetch.Rounds.{headed-Covers}
use nestor.Fetch.Schedule.{pending}
use nestor.Fetch.Served.{Consecutive}
use nestor.Inflight.{Slot}
use nestor.Key.{ObjectKey}
use nestor.Namespace.{NamespaceConfig}
use nestor.Origin.{ObjectMeta}
use nestor.Policy.{FetchPolicy, Retry, new_retry, attempt_deadline, failed}
use nestor.Policy.Retries.{failed_cases}

module _ (e : Services) {F : Type 0} where
  head_loop-return :
      (attempts : List HeadAttempt) (key : ObjectKey) (retry : Retry F) (st : Fetcher e)
      → retry.policy.attempts ≤ u32_max
      → retry.attempt < u32_max
      → max 1 (retry.policy.attempts - retry.attempt) ≤ length attempts
      → (st' : Fetcher e) × (r : Result NestorError ObjectMeta) × (now : ℕ) × (head_loop e key retry
            st attempts
          ≡ some (st', r))
        × (st' ≡ headed e key st (to_option r) now)
  unfolding head_loop headed
  head_loop-return [] key retry st small counts enough = absurd (omega arith)
  head_loop-return (a ∷ attempts) key retry st small counts enough =
      let by = min (a.started + retry.policy.first_byte) (attempt_deadline retry a.started) in
      let reply = timed a.started by a.reply in
      elim (Result-cases reply.result) [
        | inr (m, t) ↦ rw (t, head_loop) (record st { meta = _ }, ok m, reply.at, refl, refl)
        | inl (x, t) ↦
            let (n, p, d, cases) = failed_cases retry x reply.at counts in
            elim cases [
              | inl (delay, q, y, less, before, b) ↦
                  rw (t, q, head_loop)
                    (head_loop-return attempts key (failed retry x reply.at).0 st (rw p small)
                      (omega arith) (rw p (omega arith)))
              | inr (inl (q, w)) ↦
                  rw (t, q, head_loop) (_, err (from_origin x), reply.at, refl, refl)
              | inr (inr (q, w)) ↦ rw (t, q, head_loop) (_, err _, reply.at, refl, refl)
            ]
      ]

  -- A head request returns if the origin is given as many attempts as the policy allows, and at
  -- least one; it leaves the metadata that it returns in the cache, or nothing if it returns an
  -- error.
  pub head-return :
      (config : NamespaceConfig F) (key : ObjectKey) (started : ℕ) (st : Fetcher e)
      (attempts : List HeadAttempt)
      → config.fetch.attempts ≤ u32_max
      → max 1 config.fetch.attempts ≤ length attempts
      → (st' : Fetcher e) × (r : Result NestorError ObjectMeta) × (now : ℕ) × (head e config key
            started st attempts
          ≡ some (st', r))
        × (st' ≡ headed e key st (to_option r) now)
  unfolding head new_retry
  head-return config key started st attempts small enough =
      head_loop-return attempts key (new_retry config.fetch started) st small (omega arith)
        (omega arith)

  module _ (config : NamespaceConfig F) (key : ObjectKey) (policy : FetchPolicy F) (indexes : Range)
      (O : ℕ → Type 0) where
    -- A context for known metadata, with one handle for each slot of the task, which are for
    -- consecutive blocks; no channel is open that neither others nor the task are to answer. After
    -- an error, none that others do not answer.
    abbrev pub Ends : Probed e F → Type 0
    Ends (st, ok (ctx, handles, slots)) =
        Covers st.inflight O slots
        × Consecutive indexes.start slots
        × (handles ≡ map (λ (s : Slot). pending s.channel) slots)
        × ((m : ObjectMeta) × (ctx ≡ new_ctx e.hasher config key (some m) policy))
    Ends (st, err x) = Covers st.inflight O []

    abbrev Stops : Retry F → ProbeStep e F → Type 0
    Stops retry (done r) = Ends r
    Stops retry (retrying st retry') =
        Covers st.inflight O []
        × (retry'.attempt ≡ retry.attempt + 1)
        × (retry'.policy ≡ retry.policy)
        × (retry'.attempt < retry.policy.attempts)

    unread-Ends :
        (st : Fetcher e) (m : ObjectMeta) (now : ℕ)
        → Covers st.inflight O []
        → Ends (unread e config key policy st m now)
    unfolding unread build
    unread-Ends st m now c = (c, tt, refl, (m, refl))

    adopted-Ends :
        (st : Fetcher e) (response : GetResponse) (now : ℕ)
        → Covers st.inflight O []
        → Ends (adopted e config key policy indexes st response now)
    unfolding adopted build
    adopted-Ends st response now c =
        let b = build e config key policy st response.meta now in
        let (covers, run, short, handles) = adopt-Covers e b.1 indexes response b.0 c in
        (covers, run, handles, (response.meta, refl))

    module _ (retry : Retry F) (small : retry.policy.attempts ≤ u32_max)
        (counts : retry.attempt < u32_max) where
      probe_again-Stops :
          (st : Fetcher e) (x : OriginError) (now : ℕ)
          → Covers st.inflight O []
          → Stops retry (probe_again e st retry x now)
      unfolding probe_again
      probe_again-Stops st x now c =
          let (n, p, d, cases) = failed_cases retry x now counts in
          elim cases [
            | inl (delay, q, y, less, before, b) ↦ rw (q, probe_again) (c, n, p, less)
            | inr (inl (q, w)) ↦ rw (q, probe_again) c
            | inr (inr (q, w)) ↦ rw (q, probe_again) c
          ]

      probe_error-Stops :
          (st : Fetcher e) (x : OriginError) (a : ProbeAttempt)
          → Covers st.inflight O []
          → Stops retry (probe_error e config key policy indexes st retry x a)
      unfolding probe_error new_ctx
      probe_error-Stops st x a c =
          let st' = headed e key st a.head a.now in
          let ctx = new_ctx e.hasher config key none policy in
          let c' = headed-Covers e ctx st [] a.head a.now c in
          elim (Option-cases (past_end a.head (offset config.block_size indexes.start))) [
            | inl n ↦ rw (n, probe_error) (probe_again-Stops st' x a.now c')
            | inr (m, t) ↦ rw (t, probe_error) (unread-Ends st' m a.now c')
          ]

      probe_refused-Stops :
          (stale : Option ObjectMeta) (st : Fetcher e) (x : OriginError) (a : ProbeAttempt)
          → Covers st.inflight O []
          → Stops retry (probe_refused e config key policy indexes stale st retry x a)
      unfolding probe_refused not_modified
      probe_refused-Stops none st OriginError.not_modified a c = c
      probe_refused-Stops (some m) st OriginError.not_modified a c = unread-Ends st m a.now c
      probe_refused-Stops stale st OriginError.not_found a c = c
      probe_refused-Stops stale st x a c = probe_error-Stops st x a c

      probe_step-Stops :
          (stale : Option ObjectMeta) (st : Fetcher e) (a : ProbeAttempt)
          → Covers st.inflight O []
          → Stops retry (probe_step e config key policy indexes stale st retry a)
      unfolding probe_step
      probe_step-Stops stale st a c = elim (Result-cases a.answer) [
        | inl (x, t) ↦ rw (t, probe_step) (probe_refused-Stops stale st x a c)
        | inr (response, t) ↦ rw (t, probe_step) (adopted-Ends st response a.now c)
      ]

    probe_loop-return :
        (attempts : List ProbeAttempt) (stale : Option ObjectMeta) (st : Fetcher e)
        (retry : Retry F)
        → retry.policy.attempts ≤ u32_max
        → retry.attempt < u32_max
        → max 1 (retry.policy.attempts - retry.attempt) ≤ length attempts
        → Covers st.inflight O []
        → (r : Probed e F) × (probe_loop e config key policy indexes stale st retry attempts
            ≡ some r)
          × Ends r
    unfolding probe_loop
    probe_loop-return [] stale st retry small counts enough c = absurd (omega arith)
    probe_loop-return (a ∷ attempts) stale st retry small counts enough c =
        elim (probe_step e config key policy indexes stale st retry a)
            as (λ p.
              Stops retry p
              → (r : Probed e F) × ((elim p [
                | done r ↦ some r
                | retrying st' retry' ↦
                    probe_loop e config key policy indexes stale st' retry' attempts
              ])
                  ≡ some r)
                × Ends r) [
                  | done r ↦ λ w. (r, refl, w)
                  | retrying st' retry' ↦ λ (c', n, p, less).
                      probe_loop-return attempts stale st' retry' (rw p small) (omega arith)
                        (rw p (omega arith)) c'
                ]
          (probe_step-Stops retry small counts stale st a c)

    -- A probe returns if the origin is given as many attempts as the policy allows, and at least
    -- one. It returns a context for known metadata with handles for the slots of the task that it
    -- spawns, or an error, and leaves no channel open but those that others or the task are to
    -- answer.
    pub probe-return :
        (stale : Option ObjectMeta) (started : ℕ) (st : Fetcher e) (attempts : List ProbeAttempt)
        → policy.attempts ≤ u32_max
        → max 1 policy.attempts ≤ length attempts
        → Covers st.inflight O []
        → (r : Probed e F) × (probe e config key policy indexes stale started st attempts ≡ some r)
          × Ends r
    unfolding probe new_retry
    probe-return stale started st attempts small enough c =
        probe_loop-return attempts stale st (new_retry policy started) small (omega arith)
          (omega arith) c

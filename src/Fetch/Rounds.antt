-- ===== src/Fetch/Rounds.antt =====
-- nestor/src/fetch.rs, `fetch_group`: the attempts come to an end, and no channel is left open.
use nestor.Block.{bytes, span}
use nestor.Common.{
  ℕ, ◌+◌, ◌-◌, ◌%◌, ◌≤◌, ◌<◌, ◌≡◌, inl, inr, refl, List, [], ◌∷◌, Option, none, some, ◌&&◌, ◌||◌,
  not, Bool-cases, Option-cases, Result-cases, ltb, ◌==◌, max, length, ok, err, OriginError,
  from_origin, Range, stale, arith, u32_max,
}
use nestor.Fetch.{ReadCtx, GetResponse, Services, Fetcher}
use nestor.Fetch.Consume.{Taken, front_index, fill_trailing}
use nestor.Fetch.Group.{
  Attempt, past_end, answer_of, size_of, nothing_left, accept, Progress, finished, again,
  retry_or_fail, headed, refused_for_now, refused, accepted, round, rounds, fetch_group,
}
use nestor.Fetch.Owed.{Covers, resolve_all-Covers, drop_all_slots-Covers}
use nestor.Fetch.Taking.{Closes, owing, consume-Covers, fill-Covers}
use nestor.Inflight.{Slot}
use nestor.Key.{empty, content_tag, immutable_tag}
use nestor.Meta.{put}
use nestor.Origin.{ObjectMeta}
use nestor.Policy.{Retry, new_retry}
use nestor.Policy.Retries.{failed_cases}

-- Whether channels are left open, and that another attempt counts and is allowed.
unfoldable pub Advances :
    (e : Services) {F : Type 0} (O : ℕ → Type 0) (r : Retry F) → Progress e F → Type 0
Advances e O r (finished st) = Covers st.inflight O []
Advances e O r (again st slots r' m) =
    Covers st.inflight O slots
    × (r'.attempt ≡ r.attempt + 1)
    × (r'.policy ≡ r.policy)
    × (r'.attempt < r.policy.attempts)

module _ (e : Services) {F : Type 0} (ctx : ReadCtx F) {O : ℕ → Type 0} where
  pub accept-Covers :
      (st : Fetcher e) (response : GetResponse) (slots : List Slot) (range : Range) (now : ℕ)
      → Covers st.inflight O slots
      → Closes e ctx O (accept e ctx st response slots range now)
  unfolding accept owing
  accept-Covers st response slots range now c =
      let st' : Fetcher e = record st { meta = put e.lru st.meta ctx.key response.meta now } in
      elim (Bool-cases (
        not (ctx.tag == immutable_tag)
        && not (content_tag e.hasher response.meta.etag response.meta.size == ctx.tag))) [
          | inl t ↦
              rw (t, accept)
                (record {
                  covers = resolve_all-Covers e st' slots (err stale) c;
                  none_left = λ x h. refl;
                })
          | inr n ↦
              elim (Bool-cases (
                ltb range.start response.range.start
                || not (response.range.start % bytes ctx.config.block_size == 0))) [
                  | inl t ↦ rw (n, t, accept) (record { covers = c; none_left = λ x h. cc })
                  | inr n' ↦ rw (n, n', accept) (consume-Covers e ctx st' response slots c)
                ]
        ]

  pub headed-Covers :
      (st : Fetcher e) (slots : List Slot) (m : Option ObjectMeta) (now : ℕ)
      → Covers st.inflight O slots
      → Covers (headed e ctx.key st m now).inflight O slots
  unfolding headed
  headed-Covers st slots none now c = c
  headed-Covers st slots (some m) now c = c

  module _ (r : Retry F) (small : r.policy.attempts ≤ u32_max) (counts : r.attempt < u32_max) where
    retry_or_fail-Advances :
        (st : Fetcher e) (slots : List Slot) (m : Option ObjectMeta) (x : OriginError) (now : ℕ)
        → Covers st.inflight O slots
        → Advances e O r (retry_or_fail e st r slots m x now)
    unfolding retry_or_fail Advances
    retry_or_fail-Advances st slots m x now c =
        let (n, p, d, cases) = failed_cases r x now counts in
        elim cases [
          | inl (delay, t, y, less, before, b) ↦ rw (t, retry_or_fail) (c, n, p, less)
          | inr (inl (t, w)) ↦
              rw (t, retry_or_fail) (resolve_all-Covers e st slots (err (from_origin x)) c)
          | inr (inr (t, w)) ↦ rw (t, retry_or_fail) (resolve_all-Covers e st slots _ c)
        ]

    refused_for_now-Advances :
        (st : Fetcher e) (slots : List Slot) (m : Option ObjectMeta) (start : ℕ) (x : OriginError)
        (a : Attempt)
        → Covers st.inflight O slots
        → Advances e O r (refused_for_now e ctx st slots r m start x a)
    unfolding refused_for_now headed Advances
    refused_for_now-Advances st slots (some m) start x a c =
        retry_or_fail-Advances st slots (some m) x a.now c
    refused_for_now-Advances st slots none start x a c =
        let st' = headed e ctx.key st a.head a.now in
        let c' = headed-Covers st slots a.head a.now c in
        elim (Option-cases (past_end a.head start)) [
          | inl t ↦ rw (t, refused_for_now) (retry_or_fail-Advances st' slots none x a.now c')
          | inr (known, t) ↦
              rw (t, refused_for_now) (resolve_all-Covers e st' slots (ok (empty known)) c')
        ]

    refused-Advances :
        (st : Fetcher e) (slots : List Slot) (m : Option ObjectMeta) (start : ℕ) (x : OriginError)
        (a : Attempt)
        → Covers st.inflight O slots
        → Advances e O r (refused e ctx st slots r m start x a)
    unfolding refused Advances
    refused-Advances st slots m start OriginError.not_found a c = resolve_all-Covers e _ slots _ c
    refused-Advances st slots m start OriginError.precondition_failed a c =
        resolve_all-Covers e _ slots _ c
    refused-Advances st slots m start x a c = refused_for_now-Advances st slots m start x a c

    accepted-Advances :
        (t : Taken e) (m : ObjectMeta) (now : ℕ)
        → Closes e ctx O t
        → Advances e O r (accepted e ctx t r m now)
    unfolding accepted Advances fill_trailing owing
    accepted-Advances (st, slots, err x) m now c =
        retry_or_fail-Advances st slots (some m) x now c.covers
    accepted-Advances (st, slots, ok none) m now c = drop_all_slots-Covers e st slots c.covers
    accepted-Advances (st, slots, ok (some t)) m now c =
        rw (c.none_left (some t) refl)
          (fill-Covers e ctx t.meta t.slots t.next st t.stream c.covers)

    pub round-Advances :
        (st : Fetcher e) (slots : List Slot) (m : Option ObjectMeta) (initial : Option GetResponse)
        (a : Attempt)
        → Covers st.inflight O slots
        → Advances e O r (round e ctx st slots r m initial a)
    unfolding round Advances
    round-Advances st slots m initial a c =
        let range = span ctx.config.block_size (front_index 0 slots) (length slots) (size_of m) in
        elim (Option-cases (nothing_left m range)) [
          | inr (known, t) ↦ rw (t, round) (resolve_all-Covers e st slots (ok (empty known)) c)
          | inl n ↦ elim (Result-cases (answer_of initial a)) [
            | inl (x, t) ↦ rw (n, t, round) (refused-Advances st slots m range.start x a c)
            | inr (response, t) ↦
                rw (n, t, round)
                  (accepted-Advances (accept e ctx st response slots range a.now) response.meta
                    a.now (accept-Covers st response slots range a.now c))
          ]
        ]

  -- The loop returns, if the origin is given as many attempts as the policy still allows, and at
  -- least one.
  pub rounds-return :
      (attempts : List Attempt) (st : Fetcher e) (slots : List Slot) (r : Retry F)
      (m : Option ObjectMeta) (initial : Option GetResponse)
      → r.policy.attempts ≤ u32_max
      → r.attempt < u32_max
      → max 1 (r.policy.attempts - r.attempt) ≤ length attempts
      → Covers st.inflight O slots
      → (st' : Fetcher e) × (rounds e ctx st slots r m initial attempts ≡ some st')
        × Covers st'.inflight O []
  unfolding rounds Advances
  rounds-return attempts st [] r m initial small counts enough c = (st, refl, c)
  rounds-return [] st (s ∷ slots) r m initial small counts enough c = absurd (omega arith)
  rounds-return (a ∷ attempts) st (s ∷ slots) r m initial small counts enough c =
      elim (round e ctx st (s ∷ slots) r m initial a)
          as (λ p.
            Advances e O r p
            → (st' : Fetcher e) × ((elim p [
              | finished st' ↦ some st'
              | again st' left r' m' ↦ rounds e ctx st' left r' m' none attempts
            ])
                ≡ some st')
              × Covers st'.inflight O []) [
                | finished st' ↦ λ w. (st', refl, w)
                | again st' left r' m' ↦ λ (w, n, p, less).
                    rounds-return attempts st' left r' m' none (rw p small) (omega arith)
                      (rw p (omega arith)) w
              ]
        (round-Advances r small counts st (s ∷ slots) m initial a c)

  -- A fetch returns if the origin is given as many attempts as the policy allows, and at least one;
  -- then every channel that the slots held has its answer.
  pub fetch_group-return :
      (st : Fetcher e) (slots : List Slot) (initial : Option GetResponse) (started : ℕ)
      (attempts : List Attempt)
      → ctx.policy.attempts ≤ u32_max
      → max 1 ctx.policy.attempts ≤ length attempts
      → Covers st.inflight O slots
      → (st' : Fetcher e) × (fetch_group e ctx st slots initial started attempts ≡ some st')
        × Covers st'.inflight O []
  unfolding fetch_group new_retry
  fetch_group-return st slots initial started attempts small enough c =
      rounds-return attempts st slots (new_retry ctx.policy started) ctx.meta initial small
        (omega arith) (omega arith) c

-- ===== src/Node/Resolved.antt =====
-- nestor/src/nestor.rs: requests end, and their contexts know the size where it is needed.
use nestor.Block.{ReadRange, needs_size, first_group}
use nestor.Common.{
  ℕ, ◌≤◌, ◌≡◌, ◌⊎◌, inl, inr, refl, sym, subst, [], Option, none, some, true, false, length, max,
  Bool-cases, Option-cases, Range, Result, ok, err, NestorError, u32_max,
}
use nestor.Fetch.{new_ctx, Services, Fetcher}
use nestor.Fetch.Group.{headed}
use nestor.Fetch.Owed.{Covers}
use nestor.Fetch.Probe.{to_option, Probed}
use nestor.Fetch.Probed.{head-return, Ends, probe-return}
use nestor.Fetch.Rounds.{headed-Covers}
use nestor.Key.{ObjectKey, block_key, immutable_tag, is_immutable}
use nestor.Meta.{fresh, stale, missing, lookup}
use nestor.Namespace.{NamespaceConfig, meta_ttl}
use nestor.Node.Requests.{
  Outside, meta_index, unfetched, with_head, resolve_remote, cached_meta, resolve_cached,
  resolve_unknown, resolve_ctx,
}
use nestor.Origin.{ObjectMeta}
use nestor.Policy.{FetchPolicy}

module _ (e : Services) {F : Type 0} (O : ℕ → Type 0) where
  -- No channel is open but those that others or the spawned task are to answer, and a context knows
  -- the metadata, or the namespace is immutable and the request needs no size.
  abbrev pub Resolves :
      NamespaceConfig F → ObjectKey → ReadRange → FetchPolicy F → Probed e F → Type 0
  Resolves config key request policy (st, ok (ctx, handles, slots)) =
      Covers st.inflight O slots
      × ((known : Option ObjectMeta) × (ctx ≡ new_ctx e.hasher config key known policy)
          × (((m : ObjectMeta) × (known ≡ some m))
              ⊎ ((known ≡ none)
                  × (is_immutable config.consistency ≡ true)
                  × (needs_size request ≡ false))))
  Resolves config key request policy (st, err x) = Covers st.inflight O []

  -- What comes from outside: as many attempts as the policies allow, and at least one; and what other
  -- tasks do forgets no channel.
  module _ (config : NamespaceConfig F) (policy : FetchPolicy F) (o : Outside e) where
    pub record Enough : Type 0 where
      pub probes_small : policy.attempts ≤ u32_max
      pub probes : max 1 policy.attempts ≤ length o.probes
      pub heads_small : config.fetch.attempts ≤ u32_max
      pub heads : max 1 config.fetch.attempts ≤ length o.heads
      pub meanwhile :
          (st : Fetcher e) → Covers st.inflight O [] → Covers (o.meanwhile st).inflight O []

  module _ (config : NamespaceConfig F) (key : ObjectKey) (request : ReadRange)
      (policy : FetchPolicy F) (o : Outside e) (enough : Enough config policy o) where
    abbrev Returns : Option (Probed e F) → Type 0
    Returns x = (r : Probed e F) × (x ≡ some r) × Resolves config key request policy r

    Ends-Resolves :
        (indexes : Range) (r : Probed e F)
        → Ends e config key policy indexes O r
        → Resolves config key request policy r
    Ends-Resolves indexes (st, ok (ctx, handles, slots)) (c, run, h, (m, q)) =
        (c, (some m, q, inl (m, refl)))
    Ends-Resolves indexes (st, err x) c = c

    unfetched-Returns :
        (m : ObjectMeta) (st : Fetcher e)
        → Covers st.inflight O []
        → Returns (some (unfetched e config key policy (some m) st))
    unfolding unfetched
    unfetched-Returns m st c = (_, refl, (c, (some m, refl, inl (m, refl))))

    with_head-Resolves :
        (st : Fetcher e) (r : Result NestorError ObjectMeta)
        → Covers st.inflight O []
        → Resolves config key request policy (with_head e config key policy (st, r))
    unfolding with_head unfetched
    with_head-Resolves st (err x) c = c
    with_head-Resolves st (ok m) c = (c, (some m, refl, inl (m, refl)))

    covered :
        (st st' : Fetcher e) (r : Result NestorError ObjectMeta) (now : ℕ)
        → st' ≡ headed e key st (to_option r) now
        → Covers st.inflight O []
        → Covers st'.inflight O []
    unfolding new_ctx
    covered st st' r now s c =
        let ctx = new_ctx e.hasher config key none policy in
        subst (λ (z : Fetcher e). Covers z.inflight O []) (sym s)
          (headed-Covers e ctx st [] (to_option r) now c)

    resolve_remote-Returns :
        (old : Option ObjectMeta) (st : Fetcher e)
        → Covers st.inflight O []
        → Returns (resolve_remote e config key request policy old o st)
    unfolding resolve_remote
    resolve_remote-Returns old st c =
        elim (Option-cases (first_group config.block_size request config.fetch_window)) [
          | inl n ↦
              let (st', r, now, q, s) =
                head-return e config key o.started st o.heads enough.heads_small enough.heads in
              rw (n, q, resolve_remote)
                (
                  with_head e config key policy (st', r),
                  refl,
                  with_head-Resolves st' r (covered st st' r now s c),
                )
          | inr (indexes, n) ↦
              let (r, q, w) =
                probe-return e config key policy indexes O old o.started st o.probes
                  enough.probes_small enough.probes c in
              rw (n, resolve_remote) (r, q, Ends-Resolves indexes r w)
        ]

    cached_meta-Covers :
        (st : Fetcher e)
        → Covers st.inflight O []
        → Covers (cached_meta e config key request o st).0.inflight O []
    unfolding cached_meta
    cached_meta-Covers st c =
        elim (Option-cases (o.found (block_key key immutable_tag (meta_index config request)))) [
          | inl q ↦ rw (q, cached_meta) (enough.meanwhile st c)
          | inr (block, q) ↦ rw (q, cached_meta) (enough.meanwhile st c)
        ]

    resolve_cached-Returns :
        (old : Option ObjectMeta) (r : Fetcher e × Option ObjectMeta)
        → Covers r.0.inflight O []
        → Returns (resolve_cached e config key request policy old o r)
    unfolding resolve_cached
    resolve_cached-Returns old (st, none) c = resolve_remote-Returns old st c
    resolve_cached-Returns old (st, some m) c = unfetched-Returns m st c

    resolve_unknown-Returns :
        (old : Option ObjectMeta) (st : Fetcher e)
        → Covers st.inflight O []
        → Returns (resolve_unknown e config key request policy old o st)
    unfolding resolve_unknown unfetched
    resolve_unknown-Returns old st c = elim (Bool-cases (is_immutable config.consistency)) [
      | inr t ↦ rw (t, resolve_unknown) (resolve_remote-Returns old st c)
      | inl t ↦ elim (Bool-cases (needs_size request)) [
        | inr n ↦ rw (t, n, resolve_unknown) (_, refl, (c, (none, refl, inr (refl, t, n))))
        | inl n ↦
            rw (t, n, resolve_unknown)
              (resolve_cached-Returns old (cached_meta e config key request o st)
                (cached_meta-Covers st c))
      ]
    ]

    -- `resolve_ctx` returns if the origin is given as many attempts as the policies allow, and at
    -- least one. The context that it returns knows the object's metadata, unless the namespace is
    -- immutable and the request needs no size. No channel is open afterwards but those that others
    -- or the task of the probe are to answer.
    pub resolve_ctx-Returns :
        (st : Fetcher e)
        → Covers st.inflight O []
        → (r : Probed e F) × (resolve_ctx e config key request policy o st ≡ some r)
          × Resolves config key request policy r
    unfolding resolve_ctx
    resolve_ctx-Returns st c =
        elim (lookup e.lru st.meta key (meta_ttl config.consistency) o.now)
          as (λ x. Returns (elim x [
            | fresh m ↦ some (
                unfetched e config key policy (some m)
                  (record st { meta = e.lru.touch st.meta key }))
            | stale m ↦
                resolve_unknown e config key request policy (some m) o
                  (record st { meta = e.lru.touch st.meta key })
            | missing ↦
                resolve_unknown e config key request policy none o
                  (record st { meta = e.lru.touch st.meta key })
          ])) [
            | fresh m ↦ unfetched-Returns m _ c
            | stale m ↦ resolve_unknown-Returns (some m) _ c
            | missing ↦ resolve_unknown-Returns none _ c
          ]

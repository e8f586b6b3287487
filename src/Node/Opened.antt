-- ===== src/Node/Opened.antt =====
-- nestor/src/nestor.rs, `get_opts`: what a read starts with.
use nestor.Block.{ReadRange, full, bounded, from, suffix, needs_size, resolve, BlockSize, count}
use nestor.Block.Requests.{resolve-Wanted}
use nestor.Common.{
  ℕ, ◌+◌, ◌%◌, ◌≤◌, ◌<◌, ◌≡◌, ◌⊎◌, inl, inr, refl, sym, subst, ap, ◌∙◌, List, [], Option, none,
  some, map_or, false, leb, ltb, min, Bool-cases, Result-cases, Range, Result, ok, err, NestorError,
  arith, u32_mod,
}
use nestor.Fetch.{ReadCtx, new_ctx, Fetcher}
use nestor.Fetch.Owed.{Covers}
use nestor.Fetch.Probe.{Probed}
use nestor.Fetch.Schedule.{Handle}
use nestor.Inflight.{Slot}
use nestor.Key.{Hasher, ObjectKey}
use nestor.Namespace.{NamespaceConfig, NamespaceState}
use nestor.Node.{Parts, Engine, state}
use nestor.Node.Requests.{Outside}
use nestor.Node.Resolved.{Resolves, Enough, resolve_ctx-Returns}
use nestor.Node.Opening.{
  request_range, readahead_blocks, Opened, looked_ahead, ranged, opened, get_opts,
}
use nestor.Meta.{observe}
use nestor.Origin.{ObjectMeta}
use nestor.Policy.{FetchPolicy, FetchOverrides, Floating, with_overrides}

-- The range is in the object, as far as its size is known.
abbrev pub Fits : Option ObjectMeta → Range → Type 0
Fits none r = r.start ≤ r.end
Fits (some m) r = (r.start ≤ r.end) × (r.end ≤ m.size)

abbrev Ranged : Option ObjectMeta → Result NestorError Range → Type 0
Ranged known (ok r) = Fits known r
Ranged known (err x) = Unit {0}

request_range_lem :
    (known : Option ObjectMeta) (request : ReadRange)
    → ((m : ObjectMeta) × (known ≡ some m)) ⊎ (needs_size request ≡ false)
    → (r : Result NestorError Range) × (request_range known request ≡ some r) × Ranged known r
unfolding request_range needs_size
request_range_lem (some m) request h = elim (Result-cases (resolve request m.size)) [
  | inl (x, e) ↦ (err x, rw e refl, tt)
  | inr (r, e) ↦
      let (order, small, _) = resolve-Wanted request m.size r 0 e in
      (ok r, rw e refl, (order, small))
]
request_range_lem none (bounded r) h = elim (Bool-cases (leb r.end r.start)) [
  | inl t ↦ (err (NestorError.range r 0), rw t refl, tt)
  | inr t ↦ (ok r, rw t refl, ground arith)
]
request_range_lem none full (inl (m, e)) = absurd (ground arith)
request_range_lem none full (inr e) = absurd (ground arith)
request_range_lem none (from n) (inl (m, e)) = absurd (ground arith)
request_range_lem none (from n) (inr e) = absurd (ground arith)
request_range_lem none (suffix n) (inl (m, e)) = absurd (ground arith)
request_range_lem none (suffix n) (inr e) = absurd (ground arith)

-- A task fetches ahead nothing, or some blocks from the end of the range on, as many as the namespace
-- has set at most, and none behind the object, as far as its size is known.
abbrev pub Ahead : BlockSize → ℕ → Option ObjectMeta → Range → Option Range → Type 0
Ahead b readahead known r none = Unit {0}
Ahead b readahead known r (some q) =
    (q.start ≡ count b r.end)
    × (q.start < q.end)
    × (q.end ≤ q.start + readahead)
    × (q.end ≤ map_or known q.end (λ m. count b m.size))

readahead_blocks-Ahead :
    (b : BlockSize) (readahead : ℕ) (known : Option ObjectMeta) (r : Range)
    → Ahead b readahead known r (readahead_blocks b readahead known r)
unfolding readahead_blocks
readahead_blocks-Ahead b readahead none r =
    let start = count b r.end in
    let end = (start + readahead) % u32_mod in
    elim (Bool-cases (leb end start)) [
      | inl t ↦ rw (t, readahead_blocks) tt
      | inr t ↦ rw (t, readahead_blocks) (refl, ground arith, ground arith, ground arith)
    ]
readahead_blocks-Ahead b readahead (some m) r =
    let start = count b r.end in
    let end = min ((start + readahead) % u32_mod) (count b m.size) in
    elim (Bool-cases (leb end start)) [
      | inl t ↦ rw (t, readahead_blocks) tt
      | inr t ↦ rw (t, readahead_blocks) (refl, ground arith, ground arith, ground arith)
    ]

-- A context is for the namespace, and its range fits.
abbrev pub Opens : {F : Type 0} → Result NestorError (Opened F) → Type 0
Opens (ok o) =
    Fits o.ctx.meta o.range
    × Ahead o.ctx.config.block_size o.ctx.config.readahead o.ctx.meta o.range o.ahead
Opens (err x) = Unit {0}

new_ctx-fields :
    {F : Type 0} (h : Hasher) (config : NamespaceConfig F) (key : ObjectKey)
    (known : Option ObjectMeta) (policy : FetchPolicy F)
    → ((new_ctx h config key known policy).meta ≡ known)
      × ((new_ctx h config key known policy).config ≡ config)
unfolding new_ctx
new_ctx-fields h config key none policy = (refl, refl)
new_ctx-fields h config key (some m) policy = (refl, refl)

module _ {p : Parts} {F : Type 0} (O : ℕ → Type 0) where
  -- What `get_opts` leaves.
  abbrev pub Returned : Option (Engine p F × List Slot × Result NestorError (Opened F)) → Type 0
  Returned x =
      (g' : Engine p F) × (slots : List Slot) × (r : Result NestorError (Opened F)) × (x
        ≡ some (g', slots, r))
      × Covers g'.fetcher.inflight O slots
      × Opens r

  module _ (g : Engine p F) (request : ReadRange) where
    looked_ahead-Opens :
        (ctx : ReadCtx F) (fetched : List Handle) (r : Range)
        → Fits ctx.meta r
        → Opens (ok (looked_ahead g ctx.config request ctx fetched r).1)
          × ((looked_ahead g ctx.config request ctx fetched r).0.fetcher ≡ g.fetcher)
    unfolding looked_ahead
    looked_ahead-Opens ctx fetched r fits = elim (Bool-cases (ltb 0 ctx.config.readahead)) [
      | inr t ↦ rw (t, looked_ahead) ((fits, tt), refl)
      | inl t ↦ elim (Bool-cases (observe p.ends g.readahead ctx.key r).1) [
        | inl s ↦ rw (t, s, looked_ahead) ((fits, readahead_blocks-Ahead _ _ ctx.meta r), refl)
        | inr s ↦ rw (t, s, looked_ahead) ((fits, tt), refl)
      ]
    ]

    ranged-Returned :
        (ctx : ReadCtx F) (fetched : List Handle) (slots : List Slot) (r : Result NestorError Range)
        → Ranged ctx.meta r
        → Covers g.fetcher.inflight O slots
        → Returned (some (ranged g ctx.config request ctx fetched slots r))
    unfolding ranged
    ranged-Returned ctx fetched slots (err x) fits c = (g, slots, err x, refl, c, tt)
    ranged-Returned ctx fetched slots (ok r) fits c =
        let (opens, same) = looked_ahead-Opens ctx fetched r fits in
        (
          (looked_ahead g ctx.config request ctx fetched r).0,
          slots,
          ok (looked_ahead g ctx.config request ctx fetched r).1,
          refl,
          subst (λ (st : Fetcher p.services). Covers st.inflight O slots) (sym same) c,
          opens,
        )

  opened-Returned :
      (g : Engine p F) (config : NamespaceConfig F) (key : ObjectKey) (request : ReadRange)
      (policy : FetchPolicy F) (r : Probed p.services F)
      → Resolves p.services O config key request policy r
      → Returned (opened g config request r)
  unfolding opened
  opened-Returned g config key request policy (st, err x) c =
      (record g { fetcher = st }, [], err x, refl, c, tt)
  opened-Returned g config key request policy (st, ok (ctx, fetched, slots)) (c, (known, q, k)) =
      let (m, same) = new_ctx-fields p.services.hasher config key known policy in
      let meta : ctx.meta ≡ known = ap (λ (x : ReadCtx F). x.meta) q ∙ m in
      let own : ctx.config ≡ config = ap (λ (x : ReadCtx F). x.config) q ∙ same in
      let sized : ((m : ObjectMeta) × (ctx.meta ≡ some m)) ⊎ (needs_size request ≡ false) = elim k [
        | inl (m, e) ↦ inl (m, meta ∙ e)
        | inr (e, i, n) ↦ inr n
      ] in
      let (r, e, fits) = request_range_lem ctx.meta request sized in
      rw (e, opened)
        (subst
          (λ (c : NamespaceConfig F).
            Returned (some (ranged (record g { fetcher = st }) c request ctx fetched slots r)))
          own (ranged-Returned (record g { fetcher = st }) request ctx fetched slots r fits c))

  -- If the origin is given as many attempts as the policies allow, and at least one, `get_opts`
  -- returns, and does not reach the code marked as unreachable. A read that it returns has a range
  -- inside the object, as far as its size is known, and what a task fetches ahead of it are blocks
  -- from the end of the range on, at most as many as the namespace has set, and none behind the
  -- object. No channel is open afterwards but those that others or the task of the probe are to
  -- answer.
  pub get_opts-Returned :
      (f : Floating F) (g : Engine p F) (ns : ℕ) (object : List ℕ) (request : ReadRange)
      (overrides : FetchOverrides) (o : Outside p.services)
      → ((s : NamespaceState F)
          → state g ns ≡ ok s
          → Enough p.services O s.config (with_overrides f s.config.fetch overrides) o)
      → Covers g.fetcher.inflight O []
      → Returned (get_opts f g ns object request overrides o)
  unfolding get_opts
  get_opts-Returned f g ns object request overrides o enough c = elim (Result-cases (state g ns)) [
    | inl (x, e) ↦ rw (e, get_opts) (g, [], err x, refl, c, tt)
    | inr (s, e) ↦
        let key : ObjectKey = record { namespace = s.id; object = object } in
        let policy = with_overrides f s.config.fetch overrides in
        let (r, q, w) =
          resolve_ctx-Returns p.services O s.config key request policy o (enough s e) g.fetcher c in
        rw (e, q, get_opts) (opened-Returned g s.config key request policy r w)
  ]

-- ===== src/Reader/Handles.antt =====
-- nestor/src/reader.rs, `next`: the handles of the window stay those of the blocks to come.
use nestor.Block.{ReadRange, slice_within, blocks, resolve, aligned_take}
use nestor.Common.{
  ℕ, zero, suc, ◌+◌, ◌≤◌, ◌<◌, ◌≡◌, ◌⊎◌, inl, inr, refl, sym, subst, true, false, not, ◌&&◌, ◌||◌,
  Bool-cases, Option-cases, Result-cases, List, [], ◌∷◌, ◌++◌, Option, none, some, ltb, leb, ◌==◌,
  length, Range, Result, ok, ok_injective, err, NestorError, is_cancelled, is_stale, arith,
  if◌then◌else◌,
}
use nestor.Fetch.{ReadCtx}
use nestor.Inflight.{BlockResult}
use nestor.Key.{Block}
use nestor.Origin.{ObjectMeta}
use nestor.Reader.{
  Engine, Reader, Item, learned, learn, or_any, fill_loop, limit, fill, restarted_at, restart,
  emit_block, emit_error, pop, round, next_item, fetched_again,
}
use nestor.Reader.Rounds.{rounds_left, rounds_left_small, round-Decides}

module _ {F : Type 0} (On : ReadCtx F → ℕ → BlockResult → Type 0) where
  -- Handles on the blocks from `i` up to `j`.
  abbrev pub Handles : ReadCtx F → ℕ → List BlockResult → ℕ → Type 0
  Handles ctx i [] j = i ≡ j
  Handles ctx i (h ∷ hs) j = On ctx i h × Handles ctx (i + 1) hs j

  -- `schedule` returns a handle on each block of its range.
  abbrev pub Schedules : Engine F → Type 0
  Schedules e =
      (c : ℕ) (ctx : ReadCtx F) (r : Range)
      → r.start ≤ r.end
      → Handles ctx r.start (e.schedule c ctx r) r.end

  -- `resolve_ctx` returns handles on the first blocks of the request.
  abbrev pub Resolves : Engine F → ReadRange → Type 0
  Resolves e request =
      (c : ℕ) (ctx : ReadCtx F) (fetched : List BlockResult) (m : ObjectMeta) (range : Range)
      → e.resolve_ctx c ≡ ok (ctx, fetched)
      → ctx.meta ≡ some m
      → resolve request m.size ≡ ok range
      → let start = (blocks ctx.config.block_size range).start in
        Handles ctx start fetched (start + length fetched)

  -- The window holds the handles on the blocks from the next one to emit up to the next one to fetch.
  abbrev Open : ReadRange → Reader F → Type 0
  Open request r = (r.request ≡ request) × Handles r.ctx r.emit r.window r.next

  -- The same, unless the read is over.
  abbrev pub Windowed : ReadRange → Reader F → Type 0
  Windowed request r =
      (r.request ≡ request) × ((r.done ≡ true) ⊎ Handles r.ctx r.emit r.window r.next)

  Handles-append :
      (ctx : ReadCtx F) (i j k : ℕ) (a b : List BlockResult)
      → Handles ctx i a j
      → Handles ctx j b k
      → Handles ctx i (a ++ b) k
  Handles-append ctx i j k [] b h w = subst (λ n. Handles ctx n b k) (sym h) w
  Handles-append ctx i j k (x ∷ a) b h w = (h.0, Handles-append ctx (i + 1) j k a b h.1 w)

  module _ (e : Engine F) (schedules : Schedules e) (request : ReadRange) where
    learn-Open :
        (r : Reader F) (m : Option ObjectMeta) → Open request r → Open request (learn e r m)
    unfolding learn learned
    learn-Open r m h = elim (Option-cases r.known) [
      | inr (known, t) ↦ rw (t, learn) h
      | inl n ↦ elim (Option-cases (or_any e r m)) [
        | inl n' ↦ rw (n, n', learn) h
        | inr (m', t) ↦ rw (n, t, learn) h
      ]
    ]

    abbrev grown : Reader F → Reader F
    grown r =
        let take = aligned_take r.next r.end r.ctx.config.fetch_window in
        record r {
          next = r.next + take;
          window =
              r.window ++ e.schedule r.calls r.ctx (record { start = r.next; end = r.next + take });
          calls = r.calls + 1;
        }

    grown-Open : (r : Reader F) → Open request r → Open request (grown r)
    grown-Open r h =
        let take = aligned_take r.next r.end r.ctx.config.fetch_window in
        (
          h.0,
          Handles-append r.ctx r.emit r.next (r.next + take) r.window _ h.1 (
              schedules r.calls r.ctx (record { start = r.next; end = r.next + take })
                (omega arith)),
        )

    fill_loop-Open :
        (fuel most : ℕ) (r : Reader F) → Open request r → Open request (fill_loop e fuel most r)
    unfolding fill_loop
    fill_loop-Open zero most r h = h
    fill_loop-Open (suc fuel) most r h =
        elim (Bool-cases (ltb (length r.window) most && ltb r.next r.end)) [
          | inr n ↦ rw (n, fill_loop) h
          | inl t ↦
              elim (Bool-cases (
                not (length r.window == 0)
                && ltb most
                    (length r.window + aligned_take r.next r.end r.ctx.config.fetch_window))) [
                      | inl t' ↦ rw (t, t', fill_loop) h
                      | inr n ↦
                          rw (t, n, fill_loop)
                            (elim r.known
                              as (λ k. Open request (elim k [
                                | none ↦ grown r
                                | some m ↦ fill_loop e fuel most (grown r)
                              ])) [
                                | none ↦ grown-Open r h
                                | some m ↦ fill_loop-Open fuel most (grown r) (grown-Open r h)
                              ])
                    ]
        ]

    fill-Open : (r : Reader F) → Open request r → Open request (fill e r)
    unfolding fill
    fill-Open r h =
        let r' = learn e r none in fill_loop-Open (suc r'.end) (limit e r') r' (learn-Open r none h)

    emit_block-Windowed :
        (r : Reader F) (index : ℕ) (block : Block)
        → Open request r
        → Windowed request (emit_block e r index block).0
    unfolding emit_block
    emit_block-Windowed r index block h =
        let r' = learn e r (some block.meta) in
        let w = learn-Open r (some block.meta) h in
        elim (Bool-cases (
          length block.content == 0
          || leb (length block.content)
              (slice_within r'.ctx.config.block_size index r'.range).start)) [
                | inl t ↦ rw (t, emit_block) (w.0, inl refl)
                | inr f ↦ rw (f, emit_block) (w.0, inr w.1)
              ]

    module _ (resolves : Resolves e request) where
      restart-Open :
          (r : Reader F)
          → r.request ≡ request
          → (r' : Reader F) → restart e r ≡ ok r'
          → Open request r'
      unfolding restart restarted_at
      restart-Open r q r' t = elim (Result-cases (e.resolve_ctx r.calls)) [
        | inl (x, s) ↦ absurd (refused (rw (s, restart) at t))
        | inr (answer, s) ↦ elim (Option-cases answer.0.meta) [
          | inl n ↦ absurd (refused (rw (s, n, restart) at t))
          | inr (m, k) ↦ elim (Result-cases (resolve r.request m.size)) [
            | inl (x, z) ↦ absurd (refused (rw (s, k, z, restart) at t))
            | inr (range, z) ↦
                subst (Open request) (ok_injective _ _ (rw (s, k, z, restart) at t))
                  (q, resolves r.calls answer.0 answer.1 m range s k (rw q at z))
          ]
        ]
      ]
        where
          refused : {x : NestorError} → ◌≡◌ {A = Result NestorError (Reader F)} (err x) (ok r') → ⊥
          refused h = cc

      emit_error-Windowed :
          (r : Reader F) (index : ℕ) (x : NestorError)
          → r.request ≡ request
          → Handles r.ctx (index + 1) r.window r.next
          → Windowed request (emit_error e r index x).0
      unfolding emit_error
      emit_error-Windowed r index x q h =
          elim (Bool-cases (is_cancelled x && not (fetched_again r.refetched index))) [
            | inl t ↦
                let again =
                  schedules r.calls r.ctx (record { start = index; end = index + 1 })
                    (omega arith) in
                rw (t, emit_error)
                  (q, inr (Handles-append r.ctx index (index + 1) r.next _ r.window again h))
            | inr f ↦ elim (Bool-cases (is_stale x && not r.restarted && index == r.first)) [
              | inr g ↦ rw (f, g, emit_error) (q, inl refl)
              | inl t ↦ elim (Result-cases (restart e r)) [
                | inl (y, s) ↦ rw (f, t, s, emit_error) (q, inl refl)
                | inr (r', s) ↦
                    let o = restart-Open r q r' s in rw (f, t, s, emit_error) (o.0, inr o.1)
              ]
            ]
          ]

      pop-Windowed :
          (r : Reader F) (window : List BlockResult)
          → r.request ≡ request
          → Handles r.ctx r.emit window r.next
          → Windowed request (pop e r window).0
      unfolding pop
      pop-Windowed r [] q h = (q, inl refl)
      pop-Windowed r (ok block ∷ window) q h =
          emit_block-Windowed (record r { emit = r.emit + 1; window = window }) r.emit block
            (q, h.1)
      pop-Windowed r (err x ∷ window) q h =
          emit_error-Windowed (record r { emit = r.emit + 1; window = window }) r.emit x q h.1

      round-Windowed : (r : Reader F) → Windowed request r → Windowed request (round e r).0
      unfolding round
      round-Windowed r h =
          elim r.done
              as (λ d.
                r.done ≡ d
                → Windowed request
                    (if d then (r, some none) else pop e (fill e r) (fill e r).window).0) [
                      | true ↦ λ t. h
                      | false ↦ λ f.
                          let open_window : Handles r.ctx r.emit r.window r.next = elim h.1 [
                            | inl t ↦ absurd (ground arith)
                            | inr w ↦ w
                          ] in
                          let o = fill-Open r (h.0, open_window) in
                          pop-Windowed (fill e r) (fill e r).window o.0 o.1
                    ]
            refl

      next_item_lem :
          (fuel : ℕ) (r : Reader F)
          → rounds_left r < fuel
          → Windowed request r
          → (out : Reader F × Item) × (next_item e fuel r ≡ some out) × Windowed request out.0
      unfolding next_item
      next_item_lem zero r h w = absurd (omega arith)
      next_item_lem (suc fuel) r h w =
          let w' = round-Windowed r w in
          elim (round-Decides e r) [
            | inl (item, t) ↦ rw (t, next_item) (((round e r).0, item), refl, w')
            | inr (t, less) ↦ rw (t, next_item) (next_item_lem fuel (round e r).0 (omega arith) w')
          ]

      -- If `schedule` returns a handle on each block of its range, and `resolve_ctx` handles on the
      -- first blocks of the request, and the window of a read holds the handles on the blocks from
      -- the next one to emit up to the next one to fetch: the next item is there after at most four
      -- rounds, whatever the handles return, and then the read is over, or its window is again as
      -- described, also where a block was fetched again or the read was restarted.
      pub next_item-Windowed :
          (r : Reader F)
          → Windowed request r
          → (out : Reader F × Item) × (next_item e 4 r ≡ some out) × Windowed request out.0
      next_item-Windowed r w = next_item_lem 4 r (rounds_left_small e r) w

-- ===== src/Reader/Rounds.antt =====
-- nestor/src/reader.rs, `next`: the rounds of its loop come to an end.
use nestor.Common.{
  ℕ, zero, suc, ◌+◌, ◌<◌, ◌≡◌, ◌⊎◌, inl, inr, refl, subst, ◌∙◌, true, false, not, ◌&&◌, Bool-cases,
  Option-cases, Result-cases, List, [], ◌∷◌, ◌++◌, Option, none, some, ltb, ◌==◌, length, Result,
  ok, err, NestorError, is_cancelled, is_stale, arith, if◌then◌else◌,
}
use nestor.Block.{resolve, aligned_take}
use nestor.Inflight.{BlockResult}
use nestor.Origin.{ObjectMeta}
use nestor.Reader.{
  Engine, Reader, Item, learned, learn, or_any, fill_loop, limit, fill, restarted_at, restart,
  emit_error, pop, round, fetched_again,
}

-- Twice whether a restart is left, and whether the next block may be fetched again.
unfoldable pub rounds_left : {F : Type 0} → Reader F → ℕ
rounds_left r = (if r.restarted then 0 else 2) + (if fetched_again r.refetched r.emit then 0 else 1)

-- `fill` changes nothing that the number of rounds depends on.
abbrev Keeps : {F : Type 0} → Reader F → Reader F → Type 0
Keeps r r' = (r'.emit ≡ r.emit) × (r'.refetched ≡ r.refetched) × (r'.restarted ≡ r.restarted)

module _ {F : Type 0} (e : Engine F) where
  learn-Keeps : (r : Reader F) (m : Option ObjectMeta) → Keeps r (learn e r m)
  unfolding learn learned
  learn-Keeps r m = elim (Option-cases r.known) [
    | inr (known, t) ↦ rw (t, learn) (refl, refl, refl)
    | inl n ↦ elim (Option-cases (or_any e r m)) [
      | inl n' ↦ rw (n, n', learn) (refl, refl, refl)
      | inr (m', t) ↦ rw (n, t, learn) (refl, refl, refl)
    ]
  ]

  abbrev grown : Reader F → Reader F
  grown r =
      let take = aligned_take r.next r.end r.ctx.config.fetch_window in
      record r {
        next = r.next + take;
        window =
            r.window ++ e.schedule r.calls r.ctx (record { start = r.next; end = r.next + take });
        calls = r.calls + 1;
      }

  fill_loop-Keeps : (fuel most : ℕ) (r : Reader F) → Keeps r (fill_loop e fuel most r)
  unfolding fill_loop
  fill_loop-Keeps zero most r = (refl, refl, refl)
  fill_loop-Keeps (suc fuel) most r =
      elim (Bool-cases (ltb (length r.window) most && ltb r.next r.end)) [
        | inr n ↦ rw (n, fill_loop) (refl, refl, refl)
        | inl t ↦
            elim (Bool-cases (
              not (length r.window == 0)
              && ltb most
                  (length r.window + aligned_take r.next r.end r.ctx.config.fetch_window))) [
                    | inl t' ↦ rw (t, t', fill_loop) (refl, refl, refl)
                    | inr n ↦
                        rw (t, n, fill_loop)
                          (elim r.known
                            as (λ k. Keeps r (elim k [
                              | none ↦ grown r
                              | some m ↦ fill_loop e fuel most (grown r)
                            ])) [
                              | none ↦ (refl, refl, refl)
                              | some m ↦ fill_loop-Keeps fuel most (grown r)
                            ])
                  ]
      ]

  fill-Keeps : (r : Reader F) → Keeps r (fill e r)
  unfolding fill
  fill-Keeps r =
      let (a, b, c) = learn-Keeps r none in
      let r' = learn e r none in
      let (a', b', c') = fill_loop-Keeps (suc r'.end) (limit e r') r' in (a' ∙ a, b' ∙ b, c' ∙ c)

  abbrev Restarted : Result NestorError (Reader F) → Type 0
  Restarted (err x) = Unit
  Restarted (ok r) = r.restarted ≡ true

  restart-Restarted : (r : Reader F) → Restarted (restart e r)
  unfolding restart restarted_at
  restart-Restarted r = elim (Result-cases (e.resolve_ctx r.calls)) [
    | inl (x, t) ↦ rw (t, restart) tt
    | inr (answer, t) ↦ elim (Option-cases answer.0.meta) [
      | inl n ↦ rw (t, n, restart) tt
      | inr (m, t') ↦ elim (Result-cases (resolve r.request m.size)) [
        | inl (x, q) ↦ rw (t, t', q, restart) tt
        | inr (range, q) ↦ rw (t, t', q, restart) refl
      ]
    ]
  ]

  -- Either an item, or fewer rounds are left.
  abbrev pub Decides : ℕ → Reader F × Option Item → Type 0
  Decides n out = ((item : Item) × (out.1 ≡ some item)) ⊎ ((out.1 ≡ none) × (rounds_left out.0 < n))

  emit_error-Decides :
      (r : Reader F) (index n : ℕ) (x : NestorError)
      → (if r.restarted then 0 else 2) + (if fetched_again r.refetched index then 0 else 1) ≡ n
      → Decides n (emit_error e r index x)
  unfolding emit_error rounds_left
  emit_error-Decides r index n x h =
      elim (Bool-cases (is_cancelled x && not (fetched_again r.refetched index))) [
        | inl t ↦ rw (t, emit_error) (inr (refl, ground arith))
        | inr f ↦ elim (Bool-cases (is_stale x && not r.restarted && index == r.first)) [
          | inr g ↦ rw (f, g, emit_error) (inl (_, refl))
          | inl t ↦ elim (Result-cases (restart e r)) [
            | inl (y, q) ↦ rw (f, t, q, emit_error) (inl (_, refl))
            | inr (r', q) ↦
                rw (f, t, q, emit_error)
                  (inr (
                    refl,
                    (let w : r'.restarted ≡ true = subst Restarted q (restart-Restarted r) in
                        ground arith),
                  ))
          ]
        ]
      ]

  pop-Decides :
      (r : Reader F) (window : List BlockResult) (n : ℕ)
      → (if r.restarted then 0 else 2) + (if fetched_again r.refetched r.emit then 0 else 1) ≡ n
      → Decides n (pop e r window)
  unfolding pop
  pop-Decides r [] n h = inl (none, refl)
  pop-Decides r (ok block ∷ window) n h = inl (_, refl)
  pop-Decides r (err x ∷ window) n h =
      emit_error-Decides (record r { emit = r.emit + 1; window = window }) r.emit n x h

  pub round-Decides : (r : Reader F) → Decides (rounds_left r) (round e r)
  unfolding round rounds_left
  round-Decides r =
      let r' = fill e r in
      let (same, again, once) = fill-Keeps r in
      let left : (if r'.restarted then 0 else 2)
            + (if fetched_again r'.refetched r'.emit then 0 else 1)
          ≡ rounds_left r =
        rw (same, again, once) refl in
      elim r.done
        as (λ d. Decides (rounds_left r) (if d then (r, some none) else pop e r' r'.window)) [
          | true ↦ inl (none, refl)
          | false ↦ pop-Decides r' r'.window (rounds_left r) left
        ]

  pub rounds_left_small : (r : Reader F) → rounds_left r < 4
  unfolding rounds_left
  rounds_left_small r = ground arith

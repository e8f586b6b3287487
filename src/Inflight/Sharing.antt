-- ===== src/Inflight/Sharing.antt =====
-- nestor/src/inflight.rs: what one call of `register` or `resolve` does.
use nestor.Common.{
  ℕ, ◌≡◌, ◌∙◌, refl, ◌⊎◌, inl, inr, Option, none, some, true, false, Option-cases, if◌then◌else◌,
  err, cancelled, eq→==, ap,
}
use nestor.Key.{BlockKey}
use nestor.Inflight.Table.{added, get-added, get-remove, key_eq_self}
use nestor.Inflight.{
  BlockResult, Inflight, Slot, owner, waiter, update, get, register, remove, settle, drop_slot,
  resolve, wait, key_eq,
}

module _ (hash : BlockKey → ℕ) where
  pub register_hit :
      (f : Inflight) (k : BlockKey) (rx : ℕ)
      → get hash f k ≡ some rx
      → register hash f k ≡ (f, waiter rx)
  unfolding register
  register_hit f k rx e = rw (e, register) refl

  pub register_miss :
      (f : Inflight) (k : BlockKey)
      → get hash f k ≡ none
      → register hash f k
        ≡ (added hash f k, owner (record { key = k; channel = f.next; resolved = false }) f.next)
  unfolding register
  register_miss f k e = rw (e, register) refl

  -- The state after a slot has sent its result.
  abbrev pub sent : Inflight → BlockKey → ℕ → BlockResult → Inflight
  sent f k id r = record (remove hash f k) {
    channels = update (remove hash f k).channels id (some r);
  }

  pub settle_first :
      (s : Slot) (r : BlockResult) (f : Inflight)
      → s.resolved ≡ false
      → settle hash s r f ≡ (record s { resolved = true }, sent f s.key s.channel r)
  unfolding settle
  settle_first s r f e = rw (e, settle) refl

  settle_again :
      (s : Slot) (r : BlockResult) (f : Inflight) → s.resolved ≡ true → settle hash s r f ≡ (s, f)
  unfolding settle
  settle_again s r f e = rw (e, settle) refl

  pub drop_once :
      (s : Slot) (f : Inflight)
      → s.resolved ≡ false
      → drop_slot hash s f ≡ sent f s.key s.channel (err cancelled)
  unfolding drop_slot
  drop_once s f e = ap (λ p. p.1) (settle_first s (err cancelled) f e)

  pub resolve_once :
      (s : Slot) (r : BlockResult) (f : Inflight)
      → s.resolved ≡ false
      → resolve hash s r f ≡ sent f s.key s.channel r
  unfolding resolve drop_slot
  resolve_once s r f e = rw (settle_first s r f e) (
      ap (λ p. p.1)
        (settle_again (record s { resolved = true }) (err cancelled) (sent f s.key s.channel r)
          refl))

  wait-sent :
      (f : Inflight) (k : BlockKey) (id : ℕ) (r : BlockResult)
      → (wait (sent f k id r) id ≡ some r) × (get hash (sent f k id r) k ≡ none)
  unfolding wait update get
  wait-sent f k id r = (rw (eq→== id id refl) refl, get-remove hash f k k ∙ rw (key_eq_self k) refl)

  pub get-sent :
      (f : Inflight) (k j : BlockKey) (id : ℕ) (r : BlockResult)
      → get hash (sent f k id r) j ≡ (if key_eq k j then none else get hash f j)
  unfolding get
  get-sent f k j id r = get-remove hash f k j

  -- The first caller to register a key owns a new slot and its channel, on which nothing was sent;
  -- a caller that finds the key waits on the channel that is there and changes nothing. After
  -- either the next caller waits, on the same channel.
  register_cases :
      (f : Inflight) (k : BlockKey)
      → (((rx : ℕ) × (get hash f k ≡ some rx)
            × (register hash f k ≡ (f, waiter rx))
            × ((register hash (register hash f k).0 k).1 ≡ waiter rx))
          ⊎ ((get hash f k ≡ none)
              × ((register hash f k).1
                  ≡ owner (record { key = k; channel = f.next; resolved = false }) f.next)
              × (wait (register hash f k).0 f.next ≡ none)
              × ((register hash (register hash f k).0 k).1 ≡ waiter f.next)))
  unfolding wait
  register_cases f k = elim (Option-cases (get hash f k)) [
    | inl e ↦
        let first = register_miss f k e in
        let found : get hash (added hash f k) k ≡ some f.next =
          get-added hash f k k ∙ rw (key_eq_self k) refl in
        inr (
          e,
          rw first refl,
          rw first (nothing_sent f.channels f.next),
          rw first (ap (λ p. p.1) (register_hit (added hash f k) k f.next found)),
        )
    | inr (rx, e) ↦
        let first = register_hit f k rx e in inl (rx, e, first, rw first (ap (λ p. p.1) first))
  ]
    where
      nothing_sent : (c : ℕ → Option BlockResult) (i : ℕ) → update c i none i ≡ none
      nothing_sent c i = unfold update in rw (eq→== i i refl) refl

  -- Resolving a slot that is not resolved sends the result once: the drop at the end sends
  -- nothing, every handle of the channel then returns the result, and the key is free to be
  -- registered again. Dropping it instead sends the cancellation and frees the key.
  pub resolve_lem :
      (s : Slot) (r : BlockResult) (f : Inflight)
      → s.resolved ≡ false
      → (resolve hash s r f ≡ (settle hash s r f).1)
        × (wait (resolve hash s r f) s.channel ≡ some r)
        × (get hash (resolve hash s r f) s.key ≡ none)
        × (wait (drop_slot hash s f) s.channel ≡ some (err cancelled))
        × (get hash (drop_slot hash s f) s.key ≡ none)
  resolve_lem s r f e =
      rw (resolve_once s r f e, settle_first s r f e, drop_once s f e)
        (
          refl,
          (wait-sent f s.key s.channel r).0,
          (wait-sent f s.key s.channel r).1,
          (wait-sent f s.key s.channel (err cancelled)).0,
          (wait-sent f s.key s.channel (err cancelled)).1,
        )

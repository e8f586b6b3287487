-- ===== src/Inflight/Interleaving.antt =====
-- nestor/src/inflight.rs: callers that register keys, resolve their slots and drop them, in any
-- order. A step is one call; the table's lock makes it indivisible as far as the table is
-- concerned.
use nestor.Common.{
  ℕ, ◌<◌, ◌≡◌, ◌≢◌, refl, inl, inr, Option, none, some, false, Option-cases, Bool-cases, ◌==◌,
  eq→==, ne→==, err, cancelled, arith,
}
use nestor.Key.{BlockKey}
use nestor.Inflight.Table.{added, get-added, key_eq_iff}
use nestor.Inflight.Sharing.{register_hit, register_miss, resolve_once, drop_once, sent, get-sent}
use nestor.Inflight.{
  BlockResult, Inflight, Slot, Registration, owner, waiter, update, get, register, remove, new,
  find, drop_slot, resolve, wait,
}

-- The table, and the slots that callers still hold, by their channel.
pub record World : Type 0 where
  pub inflight : Inflight
  pub live : ℕ → Option BlockKey

-- The caller keeps the slot that it was given.
abbrev pub after : World → Inflight × Registration → World
after w (f, waiter rx) = record w { inflight = f }
after w (f, owner s rx) = record { inflight = f; live = update w.live s.channel (some s.key) }

abbrev pub held : BlockKey → ℕ → Slot
held k id = record { key = k; channel = id; resolved = false }

abbrev pub freed : World → ℕ → Inflight → World
freed w id f = record { inflight = f; live = update w.live id none }

pub data Step (hash : BlockKey → ℕ) (w : World) : World → Type 0 where
  registers : (k : BlockKey) → Step hash w (after w (register hash w.inflight k))
  resolves :
      (k : BlockKey) (id : ℕ) (r : BlockResult)
      → w.live id ≡ some k
      → Step hash w (freed w id (resolve hash (held k id) r w.inflight))
  drops :
      (k : BlockKey) (id : ℕ)
      → w.live id ≡ some k
      → Step hash w (freed w id (drop_slot hash (held k id) w.inflight))

pub data Reach (hash : BlockKey → ℕ) (w : World) : World → Type 0 where
  here : Reach hash w w
  next : {u v : World} → Reach hash w u → Step hash u v → Reach hash w v

pub record Inv (hash : BlockKey → ℕ) (w : World) : Type 0 where
  pub listed : (id : ℕ) (k : BlockKey) → w.live id ≡ some k → get hash w.inflight k ≡ some id
  pub owned : (id : ℕ) (k : BlockKey) → get hash w.inflight k ≡ some id → w.live id ≡ some k
  pub awaited :
      (id : ℕ)
      → id < w.inflight.next
      → wait w.inflight id ≡ none
      → (k : BlockKey) × (w.live id ≡ some k)
  pub fresh : (id : ℕ) (k : BlockKey) → w.live id ≡ some k → id < w.inflight.next
  pub unsent : (id : ℕ) (k : BlockKey) → w.live id ≡ some k → wait w.inflight id ≡ none

update_self {ℓ} : {A : Type ℓ} (f : ℕ → A) (i : ℕ) (a : A) → update f i a i ≡ a
unfolding update
update_self f i a = rw (eq→== i i refl) refl

update_ne {ℓ} : {A : Type ℓ} (f : ℕ → A) (i j : ℕ) (a : A) → j ≢ i → update f i a j ≡ f j
unfolding update
update_ne f i j a h = rw (ne→== j i h) refl

unfoldable pub initial : ℕ → World
initial shards = record { inflight = new shards; live = λ _. none }

module _ (hash : BlockKey → ℕ) where
  miss-Inv :
      (w : World) (k : BlockKey)
      → Inv hash w
      → get hash w.inflight k ≡ none
      → Inv hash (record {
        inflight = added hash w.inflight k;
        live = update w.live w.inflight.next (some k);
      })
  unfolding update wait
  miss-Inv w k v e = record {
    listed = λ id j h. ground (arith, get-added hash w.inflight k j, key_eq_iff k j, v.listed id j);
    owned = λ id j h.
        ground (arith, get-added hash w.inflight k j, key_eq_iff k j, v.owned id j, v.fresh id j);
    awaited = λ id lt h. elim (Bool-cases (id == w.inflight.next)) [
      | inl t ↦ (k, rw t refl)
      | inr n ↦ let (j, l) = v.awaited id (ground arith) (rw n at h) in (j, rw n l)
    ];
    fresh = λ id j h. ground (arith, v.fresh id j);
    unsent = λ id j h. ground (arith, v.unsent id j);
  }

  sent-Inv :
      (w : World) (k : BlockKey) (id : ℕ) (r : BlockResult)
      → Inv hash w
      → w.live id ≡ some k
      → Inv hash (freed w id (sent hash w.inflight k id r))
  unfolding update wait remove
  sent-Inv w k id r v l = record {
    listed = λ i j h.
        ground
          (arith, get-sent hash w.inflight k j id r, key_eq_iff k j, v.listed i j, v.listed id k);
    owned = λ i j h. ground (
      arith,
      get-sent hash w.inflight k j id r,
      key_eq_iff k j,
      v.owned i j,
      v.listed id k,
      v.listed i j,
    );
    awaited = λ i lt h. elim (Bool-cases (i == id)) [
      | inl t ↦ absurd (some_sent (rw t at h))
      | inr n ↦ let (j, m) = v.awaited i lt (rw n at h) in (j, rw n m)
    ];
    fresh = λ i j h. ground (arith, v.fresh i j);
    unsent = λ i j h. ground (arith, v.unsent i j);
  }
    where
      some_sent : some r ≡ none → ⊥
      some_sent h = cc

  -- What is held and what is listed agree at the start and after every call.
  Step-Inv : {w u : World} → Step hash w u → Inv hash w → Inv hash u
  Step-Inv {w} (registers k) v = elim (Option-cases (get hash w.inflight k)) [
    | inl e ↦ rw (register_miss hash w.inflight k e) (miss-Inv w k v e)
    | inr (rx, e) ↦ rw (register_hit hash w.inflight k rx e) v
  ]
  Step-Inv {w} (resolves k id r l) v =
      rw (resolve_once hash (held k id) r w.inflight refl) (sent-Inv w k id r v l)
  Step-Inv {w} (drops k id l) v =
      rw (drop_once hash (held k id) w.inflight refl) (sent-Inv w k id (err cancelled) v l)

  initial-Inv : (shards : ℕ) → Inv hash (initial shards)
  unfolding initial new get find wait
  initial-Inv shards = record {
    listed = λ id k h. cc;
    owned = λ id k h. cc;
    awaited = λ id lt h. absurd (omega arith);
    fresh = λ id k h. absurd (no_key h);
    unsent = λ id k h. refl;
  }
    where
      no_key : {k : BlockKey} → none ≡ some k → ⊥
      no_key h = cc

  Reach-Inv : {w u : World} → Reach hash w u → Inv hash w → Inv hash u
  Reach-Inv here v = v
  Reach-Inv (next r s) v = Step-Inv s (Reach-Inv r v)

  still_sent :
      {w u : World} {id : ℕ} {r : BlockResult}
      → Inv hash w
      → Step hash w u
      → (id < w.inflight.next) × (wait w.inflight id ≡ some r)
      → (id < u.inflight.next) × (wait u.inflight id ≡ some r)
  unfolding wait update remove
  still_sent {w} v (registers k) h = elim (Option-cases (get hash w.inflight k)) [
    | inl e ↦ rw (register_miss hash w.inflight k e) (ground arith)
    | inr (rx, e) ↦ rw (register_hit hash w.inflight k rx e) h
  ]
  still_sent {w} v (resolves k i r l) h =
      rw (resolve_once hash (held k i) r w.inflight refl) (ground (arith, v.unsent i k))
  still_sent {w} v (drops k i l) h =
      rw (drop_once hash (held k i) w.inflight refl) (ground (arith, v.unsent i k))

  -- After any sequence of calls on a new table, no two slots for one key are held at once, and the
  -- slot that is held is the one that the table lists for the key.
  pub one_owner :
      (shards : ℕ) (w : World) (i j : ℕ) (k : BlockKey)
      → Reach hash (initial shards) w
      → w.live i ≡ some k
      → w.live j ≡ some k
      → (i ≡ j) × (get hash w.inflight k ≡ some i)
  one_owner shards w i j k r a b =
      let v = Reach-Inv r (initial-Inv shards) in
      (same_id (v.listed i k a) (v.listed j k b), v.listed i k a)
    where
      same_id : {i j : ℕ} {o : Option ℕ} → o ≡ some i → o ≡ some j → i ≡ j
      same_id a b = cc

  -- After any sequence of calls on a new table, every channel on which nothing was sent yet
  -- belongs to a slot that is still held.
  pub answer_owed :
      (shards : ℕ) (w : World) (id : ℕ)
      → Reach hash (initial shards) w
      → id < w.inflight.next
      → wait w.inflight id ≡ none
      → (k : BlockKey) × (w.live id ≡ some k)
  answer_owed shards w id r = (Reach-Inv r (initial-Inv shards)).awaited id

  -- Once a channel of a state reached from a new table holds a result, every later state gives
  -- that result to whoever waits on the channel.
  sent_stays :
      (shards : ℕ) (w u : World) (id : ℕ) (r : BlockResult)
      → Reach hash (initial shards) w
      → Reach hash w u
      → id < w.inflight.next
      → wait w.inflight id ≡ some r
      → wait u.inflight id ≡ some r
  sent_stays shards w u id r start later lt e = (go (Reach-Inv start (initial-Inv shards)) later).1
    where
      go :
          {u : World}
          → Inv hash w
          → Reach hash w u
          → (id < u.inflight.next) × (wait u.inflight id ≡ some r)
      go v here = (lt, e)
      go v (next q s) = still_sent (Reach-Inv q v) s (go v q)

-- ===== src/Fetch/Owed.antt =====
-- nestor/src/fetch.rs: which channels still wait for an answer, through every step of a fetch.
use nestor.Common.{
  ℕ, ◌<◌, ◌≡◌, ◌⊎◌, inl, inr, refl, List, [], ◌∷◌, Option, none, some, false, Bool-cases,
  Option-cases, ◌==◌, All, err, cancelled, arith,
}
use nestor.Fetch.{
  ReadCtx, Services, Fetcher, answered, dropped, resolve_all, drop_all_slots, owned_slot, claim,
  cached, cache_extra, drop_claimed,
}
use nestor.Fetch.Consume.{cons?}
use nestor.Inflight.{
  Inflight, Slot, BlockResult, update, get, register, remove, resolve, drop_slot, wait,
}
use nestor.Inflight.Sharing.{register_hit, register_miss, resolve_once, drop_once, sent}
use nestor.Inflight.Table.{added}
use nestor.Key.{BlockKey, block_key}
use nestor.Origin.{ObjectMeta}

-- Something was sent on the channel.
abbrev pub Answered : Inflight → ℕ → Type 0
Answered f id = (r : BlockResult) × (wait f id ≡ some r)

-- One of the slots is to answer on the channel.
abbrev pub Opens : ℕ → List Slot → Type 0
Opens id [] = ⊥
Opens id (s ∷ slots) = (s.channel ≡ id) ⊎ Opens id slots

-- Every channel is answered, or others are to answer on it, or one of the slots is, and none of
-- these slots is resolved.
pub record Covers (f : Inflight) (Others : ℕ → Type 0) (slots : List Slot) : Type 0 where
  pub owed : (id : ℕ) → id < f.next → Answered f id ⊎ Others id ⊎ Opens id slots
  pub held : All (λ s. s.resolved ≡ false) slots

module _ {O : ℕ → Type 0} where
  sent-Covers :
      (hash : BlockKey → ℕ) (f : Inflight) (s : Slot) (r : BlockResult) (slots : List Slot)
      → Covers f O (s ∷ slots)
      → Covers (sent hash f s.key s.channel r) O slots
  unfolding update wait remove
  sent-Covers hash f s r slots c = record {
    owed = λ id lt. elim (Bool-cases (id == s.channel)) [
      | inl t ↦ inl (r, rw t refl)
      | inr n ↦ elim (c.owed id lt) [
        | inl (q, e) ↦ inl (q, rw n e)
        | inr (inl o) ↦ inr (inl o)
        | inr (inr (inl e)) ↦ absurd (ground arith)
        | inr (inr (inr o)) ↦ inr (inr o)
      ]
    ];
    held = c.held.1;
  }

  pub resolve-Covers :
      (hash : BlockKey → ℕ) (f : Inflight) (s : Slot) (r : BlockResult) (slots : List Slot)
      → Covers f O (s ∷ slots)
      → Covers (resolve hash s r f) O slots
  resolve-Covers hash f s r slots c =
      rw (resolve_once hash s r f c.held.0) (sent-Covers hash f s r slots c)

  pub drop-Covers :
      (hash : BlockKey → ℕ) (f : Inflight) (s : Slot) (slots : List Slot)
      → Covers f O (s ∷ slots)
      → Covers (drop_slot hash s f) O slots
  drop-Covers hash f s slots c =
      rw (drop_once hash s f c.held.0) (sent-Covers hash f s (err cancelled) slots c)

  -- A slot that another list is to hold for a while.
  pub park :
      (f : Inflight) (s : Slot) (slots : List Slot)
      → Covers f O (s ∷ slots)
      → Covers f (λ id. O id ⊎ (s.channel ≡ id)) slots
  park f s slots c = record {
    owed = λ id lt. elim (c.owed id lt) [
      | inl a ↦ inl a
      | inr (inl o) ↦ inr (inl (inl o))
      | inr (inr (inl h)) ↦ inr (inl (inr h))
      | inr (inr (inr o)) ↦ inr (inr o)
    ];
    held = c.held.1;
  }

  pub unpark :
      (f : Inflight) (s : Slot) (slots : List Slot)
      → s.resolved ≡ false
      → Covers f (λ id. O id ⊎ (s.channel ≡ id)) slots
      → Covers f O (s ∷ slots)
  unpark f s slots u c = record {
    owed = λ id lt. elim (c.owed id lt) [
      | inl a ↦ inl a
      | inr (inl (inl o)) ↦ inr (inl o)
      | inr (inl (inr h)) ↦ inr (inr (inl h))
      | inr (inr o) ↦ inr (inr (inr o))
    ];
    held = (u, c.held);
  }

  pub miss-Covers :
      (hash : BlockKey → ℕ) (f : Inflight) (k : BlockKey) (slots : List Slot)
      → Covers f O slots
      → Covers (added hash f k) O (record { key = k; channel = f.next; resolved = false } ∷ slots)
  unfolding update wait
  miss-Covers hash f k slots c = record {
    owed = λ id lt. elim (Bool-cases (id == f.next)) [
      | inl t ↦ inr (inr (inl (ground arith)))
      | inr n ↦ elim (c.owed id (ground arith)) [
        | inl (q, e) ↦ inl (q, rw n e)
        | inr (inl o) ↦ inr (inl o)
        | inr (inr o) ↦ inr (inr (inr o))
      ]
    ];
    held = (refl, c.held);
  }

module _ (e : Services) {O : ℕ → Type 0} where
  pub owned-Covers :
      (st : Fetcher e) (k : BlockKey) (slots : List Slot)
      → Covers st.inflight O slots
      → let r = owned_slot e st (register e.hash st.inflight k) in
        Covers r.0.inflight O (cons? r.1 slots)
  unfolding owned_slot
  owned-Covers st k slots c = elim (Option-cases (get e.hash st.inflight k)) [
    | inl m ↦ rw (register_miss e.hash st.inflight k m) (miss-Covers e.hash st.inflight k slots c)
    | inr (rx, m) ↦ rw (register_hit e.hash st.inflight k rx m) c
  ]

  pub claim-Covers :
      {F : Type 0} (ctx : ReadCtx F) (st : Fetcher e) (i : ℕ) (slots : List Slot)
      → Covers st.inflight O slots
      → Covers (claim e ctx st i).0.inflight O (cons? (claim e ctx st i).1 slots)
  unfolding claim
  claim-Covers ctx st i slots c =
      elim (Bool-cases (e.store.contains st.blocks (block_key ctx.key ctx.tag i))) [
        | inl t ↦ rw t c
        | inr n ↦ rw n (owned-Covers st (block_key ctx.key ctx.tag i) slots c)
      ]

  pub resolve_all-Covers :
      (st : Fetcher e) (slots : List Slot) (r : BlockResult)
      → Covers st.inflight O slots
      → Covers (resolve_all e st slots r).inflight O []
  unfolding resolve_all answered
  resolve_all-Covers st [] r c = c
  resolve_all-Covers st (s ∷ slots) r c =
      resolve_all-Covers (answered e st s r) slots r (resolve-Covers e.hash st.inflight s r slots c)

  pub drop_all_slots-Covers :
      (st : Fetcher e) (slots : List Slot)
      → Covers st.inflight O slots
      → Covers (drop_all_slots e st slots).inflight O []
  unfolding drop_all_slots dropped
  drop_all_slots-Covers st [] c = c
  drop_all_slots-Covers st (s ∷ slots) c =
      drop_all_slots-Covers (dropped e st s) slots (drop-Covers e.hash st.inflight s slots c)

  pub extra-Covers :
      (st : Fetcher e) (s : Option Slot) (m : ObjectMeta) (content : List ℕ) (slots : List Slot)
      → Covers st.inflight O (cons? s slots)
      → Covers (cache_extra e st s m content).inflight O slots
  unfolding cache_extra cached answered
  extra-Covers st none m content slots c = c
  extra-Covers st (some s) m content slots c = resolve-Covers e.hash st.inflight s _ slots c

  pub drop_claimed-Covers :
      (st : Fetcher e) (s : Option Slot) (slots : List Slot)
      → Covers st.inflight O (cons? s slots)
      → Covers (drop_claimed e st s).inflight O slots
  unfolding drop_claimed dropped
  drop_claimed-Covers st none slots c = c
  drop_claimed-Covers st (some s) slots c = drop-Covers e.hash st.inflight s slots c

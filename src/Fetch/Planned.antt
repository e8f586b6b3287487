-- ===== src/Fetch/Planned.antt =====
-- nestor/src/fetch.rs, `schedule` and `adopt`: what the handles and the tasks hold.
use nestor.Common.{
  ℕ, zero, suc, ◌+◌, ◌-◌, ◌≤◌, ◌<◌, ◌≡◌, ◌⊎◌, inl, inr, refl, subst, ◌∙◌, List, [], ◌∷◌, Option,
  none, some, map, range_from, Range, ok, Option-cases, Bool-cases, All, arith, u32_mod, max, false,
}
use nestor.Fetch.{ReadCtx, Services, Fetcher, answered}
use nestor.Fetch.Owed.{Covers, miss-Covers, resolve-Covers, park, unpark}
use nestor.Fetch.Runs.{concat, Run, tasks_lem}
use nestor.Fetch.Schedule.{Handle, resolved, pending, slot_index, keys, enlist, land, schedule}
use nestor.Fetch.Taking.{grow}
use nestor.Inflight.{Inflight, Slot, register, get, key_eq}
use nestor.Inflight.Sharing.{register_hit, register_miss}
use nestor.Inflight.Table.{added, get-added, key_eq_iff, key_eq_self}
use nestor.Key.{Block, BlockKey, ObjectKey, block_key}

module _ (hash : BlockKey → ℕ) where
  abbrev new_slot : Inflight → BlockKey → Slot
  new_slot f k = record { key = k; channel = f.next; resolved = false }

  enlist_join :
      (found : BlockKey → Option Block) (f : Inflight) (k : BlockKey) (ks : List BlockKey) (rx : ℕ)
      → found k ≡ none
      → get hash f k ≡ some rx
      → let r = enlist hash found f ks in
        enlist hash found f (k ∷ ks) ≡ (r.0, r.1, pending rx ∷ r.2)
  unfolding enlist
  enlist_join found f k ks rx n m = let h = register_hit hash f k rx m in rw (n, h, enlist, h) refl

  enlist_own :
      (found : BlockKey → Option Block) (f : Inflight) (k : BlockKey) (ks : List BlockKey)
      → found k ≡ none
      → get hash f k ≡ none
      → let r = enlist hash found (added hash f k) ks in
        enlist hash found f (k ∷ ks) ≡ (r.0, new_slot f k ∷ r.1, pending f.next ∷ r.2)
  unfolding enlist
  enlist_own found f k ks n m = let h = register_miss hash f k m in rw (n, h, enlist, h) refl

  enlist-Covers :
      {O : ℕ → Type 0} (found : BlockKey → Option Block) (f : Inflight) (ks : List BlockKey)
      → Covers f O []
      → let r = enlist hash found f ks in Covers r.0 O r.1
  unfolding enlist
  enlist-Covers found f [] c = c
  enlist-Covers found f (k ∷ ks) c = elim (Option-cases (found k)) [
    | inr (block, t) ↦ rw (t, enlist) (enlist-Covers found f ks c)
    | inl n ↦ elim (Option-cases (get hash f k)) [
      | inr (rx, m) ↦ rw (enlist_join found f k ks rx n m) (enlist-Covers found f ks c)
      | inl m ↦ rw (enlist_own found f k ks n m) (
          grow (some (new_slot f k)) (enlist hash found (added hash f k) ks).1
            (λ O' c'. enlist-Covers {O = O'} found (added hash f k) ks c')
            (miss-Covers hash f k [] c))
    ]
  ]

  get-register :
      (f : Inflight) (j k : BlockKey) (id : ℕ)
      → get hash f k ≡ some id
      → get hash (register hash f j).0 k ≡ some id
  get-register f j k id e = elim (Option-cases (get hash f j)) [
    | inr (rx, m) ↦ rw (register_hit hash f j rx m) e
    | inl m ↦
        rw (register_miss hash f j m, get-added hash f j k)
          (elim (Bool-cases (key_eq j k)) [
            | inl t ↦ absurd (clash (subst (λ i. get hash f i ≡ none) ((key_eq_iff j k).0 t) m) e)
            | inr n ↦ rw n e
          ])
  ]
    where
      clash : {x : Option ℕ} {id : ℕ} → x ≡ none → x ≡ some id → ⊥
      clash a b = cc

  get-enlist :
      (found : BlockKey → Option Block) (f : Inflight) (ks : List BlockKey) (k : BlockKey) (id : ℕ)
      → get hash f k ≡ some id
      → get hash (enlist hash found f ks).0 k ≡ some id
  unfolding enlist
  get-enlist found f [] k id e = e
  get-enlist found f (j ∷ ks) k id e = elim (Option-cases (found j)) [
    | inr (block, t) ↦ rw (t, enlist) (get-enlist found f ks k id e)
    | inl n ↦
        let e' = get-register f j k id e in
        elim (Option-cases (get hash f j)) [
          | inr (rx, m) ↦ rw (enlist_join found f j ks rx n m) (get-enlist found f ks k id e)
          | inl m ↦ rw (enlist_own found f j ks n m) (
              get-enlist found (added hash f j) ks k id
                (subst (λ g. get hash g.0 k ≡ some id) (register_miss hash f j m) e'))
        ]
  ]

  -- The handle of a block: the block that the lookup found, or the channel on which its key is
  -- registered.
  abbrev pub HandleOf : (BlockKey → Option Block) → Inflight → BlockKey → Handle → Type 0
  HandleOf found f k h =
      ((block : Block) × (found k ≡ some block) × (h ≡ resolved (ok block)))
      ⊎ ((found k ≡ none) × ((id : ℕ) × (h ≡ pending id) × (get hash f k ≡ some id)))

  abbrev pub Handled : (BlockKey → Option Block) → Inflight → List BlockKey → List Handle → Type 0
  Handled found f [] [] = Unit
  Handled found f [] (h ∷ hs) = ⊥
  Handled found f (k ∷ ks) [] = ⊥
  Handled found f (k ∷ ks) (h ∷ hs) = HandleOf found f k h × Handled found f ks hs

  get-added_self : (f : Inflight) (k : BlockKey) → get hash (added hash f k) k ≡ some f.next
  get-added_self f k = get-added hash f k k ∙ rw (key_eq_self k) refl

  pub enlist-Handled :
      (found : BlockKey → Option Block) (f : Inflight) (ks : List BlockKey)
      → let r = enlist hash found f ks in Handled found r.0 ks r.2
  unfolding enlist
  enlist-Handled found f [] = tt
  enlist-Handled found f (k ∷ ks) = elim (Option-cases (found k)) [
    | inr (block, t) ↦ rw (t, enlist) (inl (block, t, refl), enlist-Handled found f ks)
    | inl n ↦ elim (Option-cases (get hash f k)) [
      | inr (rx, m) ↦
          rw (enlist_join found f k ks rx n m)
            (inr (n, (rx, refl, get-enlist found f ks k rx m)), enlist-Handled found f ks)
      | inl m ↦ rw (enlist_own found f k ks n m) (
        inr (n, (f.next, refl, get-enlist found (added hash f k) ks k f.next (get-added_self f k))),
        enlist-Handled found (added hash f k) ks,
      )
    ]
  ]

  enlist-All :
      (P : ℕ → Type 0) (found : BlockKey → Option Block) (f : Inflight) (ks : List BlockKey)
      → All (λ k. P k.index) ks
      → All P (map slot_index (enlist hash found f ks).1)
  unfolding enlist
  enlist-All P found f [] v = tt
  enlist-All P found f (k ∷ ks) v = elim (Option-cases (found k)) [
    | inr (block, t) ↦ rw (t, enlist) (enlist-All P found f ks v.1)
    | inl n ↦ elim (Option-cases (get hash f k)) [
      | inr (rx, m) ↦ rw (enlist_join found f k ks rx n m) (enlist-All P found f ks v.1)
      | inl m ↦ rw (enlist_own found f k ks n m) (v.0, enlist-All P found (added hash f k) ks v.1)
    ]
  ]

module _ (e : Services) where
  land-Covers :
      {O : ℕ → Type 0} (landed : BlockKey → Option Block) (st : Fetcher e) (slots : List Slot)
      → Covers st.inflight O slots
      → let r = land e landed st slots in Covers r.0.inflight O r.1
  unfolding land answered
  land-Covers landed st [] c = c
  land-Covers landed st (s ∷ slots) c = elim (Option-cases (landed s.key)) [
    | inr (block, t) ↦
        rw (t, land)
          (land-Covers landed (answered e st s (ok block)) slots
            (resolve-Covers e.hash st.inflight s (ok block) slots c))
    | inl n ↦
        rw (n, land)
          (unpark (land e landed st slots).0.inflight s (land e landed st slots).1 c.held.0
            (land-Covers landed st slots (park st.inflight s slots c)))
  ]

  land-All :
      (P : ℕ → Type 0) (landed : BlockKey → Option Block) (st : Fetcher e) (slots : List Slot)
      → All P (map slot_index slots)
      → All P (map slot_index (land e landed st slots).1)
  unfolding land
  land-All P landed st [] v = tt
  land-All P landed st (s ∷ slots) v = elim (Option-cases (landed s.key)) [
    | inr (block, t) ↦ rw (t, land) (land-All P landed (answered e st s (ok block)) slots v.1)
    | inl n ↦ rw (n, land) (v.0, land-All P landed st slots v.1)
  ]

keys-All :
    (o : ObjectKey) (tag s n : ℕ)
    → s + n ≤ u32_mod
    → All (λ k. k.index < u32_mod) (map (block_key o tag) (range_from s n))
unfolding range_from block_key
keys-All o tag s zero h = tt
keys-All o tag s (suc n) h = (omega arith, keys-All o tag (s + 1) n (omega arith))

module _ (e : Services) {F : Type 0} (ctx : ReadCtx F) (indexes : Range)
    (found : BlockKey → Option Block) (meanwhile : Fetcher e → Fetcher e)
    (landed : BlockKey → Option Block) (small : indexes.end ≤ u32_mod)
    (first_small : indexes.start ≤ u32_mod) where
  left_small :
      (st : Fetcher e)
      → let r = enlist e.hash found st.inflight (keys ctx indexes) in
        All
          (λ i. i < u32_mod)
          (map slot_index (land e landed (meanwhile (record st { inflight = r.0 })) r.1).1)
  unfolding keys
  left_small st =
      let r = enlist e.hash found st.inflight (keys ctx indexes) in
      land-All e (λ i. i < u32_mod) landed (meanwhile (record st { inflight = r.0 })) r.1
        (enlist-All e.hash (λ i. i < u32_mod) found st.inflight (keys ctx indexes)
          (keys-All ctx.key ctx.tag indexes.start (indexes.end - indexes.start) (omega arith)))

  -- Every handle has the block that the lookup found, or waits on the channel of its block; and the
  -- tasks are nonempty runs of consecutive blocks, each within one fetch window.
  pub schedule-Run :
      (st : Fetcher e)
      → let r = schedule e ctx indexes found meanwhile landed st in
        Handled e.hash found
          (enlist e.hash found st.inflight (keys ctx indexes)).0
          (keys ctx indexes)
          r.1
        × All (Run (max ctx.config.fetch_window 1)) r.2
  unfolding schedule
  schedule-Run st =
      let r = enlist e.hash found st.inflight (keys ctx indexes) in
      let l = land e landed (meanwhile (record st { inflight = r.0 })) r.1 in
      (
        enlist-Handled e.hash found st.inflight (keys ctx indexes),
        (tasks_lem l.1 ctx.config.fetch_window (left_small st)).1,
      )

  -- While others leave no channel open that neither they nor the slots of this call are to answer,
  -- neither does the call: the tasks that it spawns hold the slots of all channels that are left.
  pub schedule-Covers :
      {O : ℕ → Type 0} (st : Fetcher e)
      → ((st' : Fetcher e) (slots : List Slot)
          → Covers st'.inflight O slots
          → Covers (meanwhile st').inflight O slots)
      → Covers st.inflight O []
      → let r = schedule e ctx indexes found meanwhile landed st in
        Covers r.0.inflight O (concat r.2)
  unfolding schedule
  schedule-Covers st keep c =
      let r = enlist e.hash found st.inflight (keys ctx indexes) in
      let st' : Fetcher e = meanwhile (record st { inflight = r.0 }) in
      let l = land e landed st' r.1 in
      rw ((tasks_lem l.1 ctx.config.fetch_window (left_small st)).0) (
        land-Covers e landed st' r.1 (
          keep (record st { inflight = r.0 }) r.1
            (enlist-Covers e.hash found st.inflight (keys ctx indexes) c)))

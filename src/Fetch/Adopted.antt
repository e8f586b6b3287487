-- ===== src/Fetch/Adopted.antt =====
-- nestor/src/fetch.rs, `adopt`: the blocks that the response of a probe is taken over for.
use nestor.Block.{count}
use nestor.Common.{
  ℕ, zero, suc, ◌+◌, ◌-◌, ◌≤◌, ◌≡◌, ◌⊎◌, inl, inr, ap, false, refl, List, [], ◌∷◌, none, map,
  Option-cases, range_from, Range, min, length, arith,
}
use nestor.Fetch.{ReadCtx, GetResponse, Services, Fetcher}
use nestor.Fetch.Owed.{Covers, miss-Covers, park, unpark}
use nestor.Fetch.Schedule.{Handle, pending, keys, adopt_slots, adopt}
use nestor.Fetch.Served.{Consecutive}
use nestor.Inflight.{Inflight, Slot, get}
use nestor.Inflight.Sharing.{register_hit, register_miss}
use nestor.Inflight.Table.{added}
use nestor.Key.{BlockKey, ObjectKey, block_key}

module _ (e : Services) where
  -- The first blocks that nobody fetches, their handles and their channels.
  abbrev pub Adopts : (ℕ → Type 0) → ℕ → ℕ → Inflight × List Slot × List Handle → Type 0
  Adopts O i n r =
      Covers r.0 O r.1
      × Consecutive i r.1
      × (length r.1 ≤ n)
      × (r.2 ≡ map (λ (s : Slot). pending s.channel) r.1)

  abbrev new_slot : Inflight → BlockKey → Slot
  new_slot f k = record { key = k; channel = f.next; resolved = false }

  adopt_own :
      (f : Inflight) (k : BlockKey) (ks : List BlockKey)
      → get e.hash f k ≡ none
      → let r = adopt_slots e (added e.hash f k) ks in
        adopt_slots e f (k ∷ ks) ≡ (r.0, new_slot f k ∷ r.1, pending f.next ∷ r.2)
  unfolding adopt_slots
  adopt_own f k ks m = let h = register_miss e.hash f k m in rw (h, adopt_slots, h) refl

  adopt_slots_lem :
      {O : ℕ → Type 0} (o : ObjectKey) (tag i n : ℕ) (f : Inflight)
      → Covers f O []
      → Adopts O i n (adopt_slots e f (map (block_key o tag) (range_from i n)))
  unfolding adopt_slots range_from block_key
  adopt_slots_lem o tag i zero f c = (c, tt, omega arith, refl)
  adopt_slots_lem {O = O} o tag i (suc n) f c =
      let k = block_key o tag i in
      elim (Option-cases (get e.hash f k)) [
        | inr (rx, m) ↦
            let h = register_hit e.hash f k rx m in
            rw (h, adopt_slots, h) (c, tt, omega arith, refl)
        | inl m ↦
            let s = new_slot f k in
            let c' = park (added e.hash f k) s [] (miss-Covers e.hash f k [] c) in
            let (covers, run, short, handles) =
              adopt_slots_lem {O = λ id. O id ⊎ (f.next ≡ id)} o tag (i + 1) n (added e.hash f k)
                c' in
            let r =
              adopt_slots e (added e.hash f k) (map (block_key o tag) (range_from (i + 1) n)) in
            rw (adopt_own f k (map (block_key o tag) (range_from (i + 1) n)) m) (
              unpark r.0 s r.1 refl covers,
              (refl, run),
              omega arith,
              ap (◌∷◌ (pending f.next)) handles,
            )
      ]

module _ (e : Services) {F : Type 0} (ctx : ReadCtx F) where
  -- The task of a probe holds slots for consecutive blocks from the first index on, within the
  -- object and the indexes; the handles wait on their channels; and while no channel was open that
  -- others do not answer, none is that neither they nor the task are to answer.
  pub adopt-Covers :
      {O : ℕ → Type 0} (indexes : Range) (response : GetResponse) (st : Fetcher e)
      → Covers st.inflight O []
      → let r = adopt e ctx indexes response st in
        Covers r.0.inflight O r.2
        × Consecutive indexes.start r.2
        × (length r.2
            ≤ min indexes.end (count ctx.config.block_size response.meta.size) - indexes.start)
        × (r.1 ≡ map (λ (s : Slot). pending s.channel) r.2)
  unfolding adopt keys
  adopt-Covers indexes response st c =
      adopt_slots_lem e ctx.key ctx.tag indexes.start _ st.inflight c

-- ===== src/Fetch/Taking.antt =====
-- nestor/src/fetch.rs: a body that is taken over leaves no channel open that the slots do not hold.
use nestor.Body.{new, BlockStream, next_block}
use nestor.Common.{
  ℕ, zero, suc, ◌+◌, ◌-◌, ◌≡◌, inl, inr, refl, List, [], ◌∷◌, Option, none, some, subst, Bool-cases,
  Option-cases, Result-cases, ◌==◌, Result, ok, err, OriginError, max, min,
}
use nestor.Fetch.{
  ReadCtx, GetResponse, Trailing, Services, Fetcher, answered, claim, cached, cache_extra,
}
use nestor.Fetch.Consume.{
  lead, serve, claim_all, claim_trailing, trailing, consume, cons?, fill, pass, block_len, Taken,
  whole, front_index,
}
use nestor.Fetch.Owed.{
  Covers, park, unpark, claim-Covers, extra-Covers, drop_claimed-Covers, resolve-Covers,
  drop_all_slots-Covers,
}
use nestor.Block.{index, count}
use nestor.Key.{empty}
use nestor.Inflight.{Inflight, Slot}
use nestor.Origin.{ObjectMeta}

pub grow :
    {O : ℕ → Type 0} {f f' : Inflight} (x : Option Slot) (slots : List Slot)
    → ((O' : ℕ → Type 0) → Covers f O' [] → Covers f' O' slots)
    → Covers f O (cons? x [])
    → Covers f' O (cons? x slots)
grow none slots h c = h _ c
grow (some s) slots h c = unpark _ s slots c.held.0 (h _ (park _ s [] c))

-- What `consume` leaves: the slots of its result, or those that it passes to `fill_trailing`.
unfoldable pub owing : Result OriginError (Option Trailing) → List Slot → List Slot
owing (err x) slots = slots
owing (ok none) slots = slots
owing (ok (some t)) slots = t.slots

trailing-owing :
    (stream : BlockStream) (next : ℕ) (m : ObjectMeta) (slots : List Slot)
    → owing (ok (trailing stream next m slots)) [] ≡ slots
unfolding owing trailing
trailing-owing stream next m [] = refl
trailing-owing stream next m (s ∷ slots) = refl

module _ (e : Services) {F : Type 0} (ctx : ReadCtx F) where
  -- A response that was taken over leaves slots only to retry, or only trailing ones.
  pub record Closes (O : ℕ → Type 0) (t : Taken e) : Type 0 where
    pub covers : Covers t.0.inflight O (owing t.2 t.1)
    pub none_left : (x : Option Trailing) → t.2 ≡ ok x → t.1 ≡ []

  pub lead-Covers :
      {O : ℕ → Type 0} (m : ObjectMeta) (n next : ℕ) (st : Fetcher e) (body : BlockStream)
      (slots : List Slot)
      → Covers st.inflight O slots
      → Covers (lead e ctx m n next st body).0.inflight O slots
  unfolding lead
  lead-Covers m zero next st body slots c = c
  lead-Covers m (suc n) next st body slots c =
      elim (Result-cases (next_block body (block_len ctx.config.block_size next m.size)).1) [
        | inl (x, t) ↦
            rw (t, lead)
              (drop_claimed-Covers e (claim e ctx st next).0 (claim e ctx st next).1 slots
                (claim-Covers e ctx st next slots c))
        | inr (content, t) ↦
            rw (t, lead)
              (lead-Covers m n (next + 1)
                (cache_extra e (claim e ctx st next).0 (claim e ctx st next).1 m content)
                (next_block body (block_len ctx.config.block_size next m.size)).0 slots
                (extra-Covers e (claim e ctx st next).0 (claim e ctx st next).1 m content slots
                  (claim-Covers e ctx st next slots c)))
      ]

  pub serve-Covers :
      {O : ℕ → Type 0} (m : ObjectMeta) (slots : List Slot) (next : ℕ) (st : Fetcher e)
      (body : BlockStream)
      → Covers st.inflight O slots
      → let r = serve e ctx m slots next st body in Covers r.0.inflight O r.2
  unfolding serve cached answered
  serve-Covers m [] next st body c = c
  serve-Covers m (s ∷ slots) next st body c =
      elim (Bool-cases (block_len ctx.config.block_size s.key.index m.size == 0)) [
        | inl t ↦
            rw (t, serve)
              (serve-Covers m slots (s.key.index + 1) (answered e st s (ok (empty m))) body
                (resolve-Covers e.hash st.inflight s (ok (empty m)) slots c))
        | inr n ↦
            elim (Result-cases
              (next_block body (block_len ctx.config.block_size s.key.index m.size)).1) [
                | inl (x, t) ↦ rw (n, t, serve) c
                | inr (content, t) ↦
                    rw (n, t, serve)
                      (serve-Covers m slots (s.key.index + 1) (cached e st s m content)
                        (next_block body (block_len ctx.config.block_size s.key.index m.size)).0
                        (resolve-Covers e.hash st.inflight s
                          (ok (record { meta = m; content = content })) slots c))
              ]
      ]

  pub claim_all-Covers :
      {O : ℕ → Type 0} (is : List ℕ) (st : Fetcher e)
      → Covers st.inflight O []
      → let r = claim_all e ctx is st in Covers r.0.inflight O r.1
  unfolding claim_all
  claim_all-Covers [] st c = c
  claim_all-Covers (i ∷ is) st c =
      grow (claim e ctx st i).1 (claim_all e ctx is (claim e ctx st i).0).1
        (λ O' c'. claim_all-Covers {O = O'} is (claim e ctx st i).0 c')
        (claim-Covers e ctx st i [] c)

  pub fill-Covers :
      {O : ℕ → Type 0} (m : ObjectMeta) (slots : List Slot) (next : ℕ) (st : Fetcher e)
      (body : BlockStream)
      → Covers st.inflight O slots
      → Covers (fill e ctx m slots next st body).inflight O []
  unfolding fill cached answered
  fill-Covers m [] next st body c = c
  fill-Covers m (s ∷ slots) next st body c =
      let b = ctx.config.block_size in
      let p = pass b m.size (s.key.index - next) next body in
      elim (Option-cases p.1) [
        | inr (x, t) ↦ rw (t, fill) (drop_all_slots-Covers e st (s ∷ slots) c)
        | inl n ↦ elim (Result-cases (next_block p.0 (block_len b s.key.index m.size)).1) [
          | inl (x, t) ↦ rw (n, t, fill) (drop_all_slots-Covers e st (s ∷ slots) c)
          | inr (content, t) ↦
              rw (n, t, fill)
                (fill-Covers m slots (max next s.key.index + 1) (cached e st s m content)
                  (next_block p.0 (block_len b s.key.index m.size)).0
                  (resolve-Covers e.hash st.inflight s (ok (record { meta = m; content = content }))
                    slots c))
        ]
      ]

  pub claim_trailing-Covers :
      {O : ℕ → Type 0} (response : GetResponse) (st : Fetcher e) (body : BlockStream) (next : ℕ)
      → Covers st.inflight O []
      → Closes O (claim_trailing e ctx response st body next)
  unfolding claim_trailing owing
  claim_trailing-Covers response st body next c =
      let b = ctx.config.block_size in
      let end = min response.range.end response.meta.size in
      let is = whole b response.meta.size end (count b end - next) next in
      record {
        covers =
            rw (trailing-owing body next response.meta (claim_all e ctx is st).1)
              (claim_all-Covers is st c);
        none_left = λ x h. refl;
      }

  serve-left :
      (m : ObjectMeta) (slots : List Slot) (next : ℕ) (st : Fetcher e) (body : BlockStream)
      → let r = serve e ctx m slots next st body in r.4 ≡ none → r.2 ≡ []
  unfolding serve
  serve-left m [] next st body = λ h. refl
  serve-left m (s ∷ slots) next st body =
      elim (Bool-cases (block_len ctx.config.block_size s.key.index m.size == 0)) [
        | inl t ↦
            rw (t, serve)
              (serve-left m slots (s.key.index + 1) (answered e st s (ok (empty m))) body)
        | inr n ↦
            elim (Result-cases
              (next_block body (block_len ctx.config.block_size s.key.index m.size)).1) [
                | inl (x, t) ↦ rw (n, t, serve) (λ h. cc)
                | inr (content, t) ↦
                    rw (n, t, serve)
                      (serve-left m slots (s.key.index + 1) (cached e st s m content)
                        (next_block body (block_len ctx.config.block_size s.key.index m.size)).0)
              ]
      ]

  pub consume-Covers :
      {O : ℕ → Type 0} (st : Fetcher e) (response : GetResponse) (slots : List Slot)
      → Covers st.inflight O slots
      → Closes O (consume e ctx st response slots)
  unfolding consume owing
  consume-Covers {O = O} st response slots c =
      let b = ctx.config.block_size in
      let m = response.meta in
      let next = index b response.range.start in
      let first = min (front_index next slots) (count b m.size) in
      let l = lead e ctx m (first - next) next st (new response.body) in
      let r = serve e ctx m slots (max next first) l.0 l.1 in
      let cl = lead-Covers m (first - next) next st (new response.body) slots c in
      let cr = serve-Covers m slots (max next first) l.0 l.1 cl in
      elim (Option-cases l.2) [
        | inr (x, t) ↦ rw (t, consume) (record { covers = cl; none_left = λ y h. cc })
        | inl n ↦ elim (Option-cases r.4) [
          | inr (x, t) ↦ rw (n, t, consume) (record { covers = cr; none_left = λ y h. cc })
          | inl n' ↦
              rw (n, n', consume)
                (claim_trailing-Covers response r.0 r.1 r.3 (
                  subst (λ left. Covers r.0.inflight O left)
                    (serve-left m slots (max next first) l.0 l.1 n') cr))
        ]
      ]

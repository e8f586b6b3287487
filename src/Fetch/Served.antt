-- ===== src/Fetch/Served.antt =====
-- nestor/src/fetch.rs, `consume`: against a description of what each slot is owed.
use nestor.Block.{BlockSize, bytes}
use nestor.Block.Cover.{block_bytes, block_range-eq, block_bytes-eq, suc_mul, mul_split}
use nestor.Block.Size.{IsValid, bytes_bounds}
use nestor.Body.{BlockStream, next_block}
use nestor.Body.Reassembly.{owed, next_block-Delivers}
use nestor.Common.{
  ℕ, ◌+◌, ◌-◌, ◌*◌, ◌≤◌, ◌<◌, ◌≡◌, inl, inr, refl, sym, ap, ◌∙◌, List, [], ◌∷◌, Option, none, true,
  false, Bool-cases, ◌==◌, leb, if◌then◌else◌, length, length-slice, take, drop, slice, drop-take,
  take-take, drop-drop, slice_empty, ok, OriginError, arith, u32_max, min,
}
use nestor.Fetch.{ReadCtx, Services, Fetcher, answered, cached}
use nestor.Fetch.Consume.{serve, block_len}
use nestor.Inflight.{Slot, resolve}
use nestor.Key.{Block, empty}
use nestor.Origin.{ObjectMeta}

-- The slots are for the blocks from `i` on.
abbrev pub Consecutive : ℕ → List Slot → Type 0
Consecutive i [] = Unit
Consecutive i (s ∷ slots) = (s.key.index ≡ i) × Consecutive (i + 1) slots

take-slice : (n s e : ℕ) (xs : List ℕ) → s + n ≤ e → take n (slice s e xs) ≡ slice s (s + n) xs
unfolding slice
take-slice n s e xs h =
    take-take n (e - s) n (drop s xs) (omega arith)
    ∙ ap (λ j. take j (drop s xs)) {x = n} {y = s + n - s} (omega arith)

drop-slice : (n s e t : ℕ) (xs : List ℕ) → s + n ≡ t → drop n (slice s e xs) ≡ slice t e xs
unfolding slice
drop-slice n s e t xs h =
    drop-take n (e - s) (e - t) (drop s xs) (omega arith)
    ∙ ap (take (e - t)) (drop-drop n s t xs (omega arith))

module _ (e : Services) where
  -- A slot's block goes into the block cache, unless it is empty, and to those who wait for it.
  unfoldable pub publish_one : BlockSize → ObjectMeta → List ℕ → Fetcher e → Slot → Fetcher e
  publish_one b m xs st s =
      let content = block_bytes b s.key.index xs in
      let block : Block = record { meta = m; content = content } in
      record st {
        inflight = resolve e.hash s (ok block) st.inflight;
        blocks = if length content == 0 then st.blocks else e.store.insert st.blocks s.key block;
      }

  nil_of : (ys : List ℕ) → (length ys == 0) ≡ true → ys ≡ []
  nil_of [] t = refl
  nil_of (y ∷ ys) t = absurd (ground arith)

  answered-publish_one :
      (b : BlockSize) (m : ObjectMeta) (xs : List ℕ) (st : Fetcher e) (s : Slot)
      → (length (block_bytes b s.key.index xs) == 0) ≡ true
      → answered e st s (ok (empty m)) ≡ publish_one b m xs st s
  unfolding answered empty publish_one
  answered-publish_one b m xs st s t =
      let nil = nil_of (block_bytes b s.key.index xs) t in
      rw (t, publish_one)
        (ap
          (λ l. record st {
            inflight = resolve e.hash s (ok (record { meta = m; content = l })) st.inflight;
          })
          (sym nil))

  cached-publish_one :
      (b : BlockSize) (m : ObjectMeta) (xs : List ℕ) (st : Fetcher e) (s : Slot)
      → (length (block_bytes b s.key.index xs) == 0) ≡ false
      → cached e st s m (block_bytes b s.key.index xs) ≡ publish_one b m xs st s
  unfolding cached publish_one
  cached-publish_one b m xs st s t = rw (t, publish_one) refl

  unfoldable pub publish : BlockSize → ObjectMeta → List ℕ → Fetcher e → List Slot → Fetcher e
  unfolding publish_one
  publish b m xs st [] = st
  publish b m xs st (s ∷ slots) = publish b m xs (publish_one b m xs st s) slots

module _ (e' : Services) {F : Type 0} (ctx : ReadCtx F) (v : IsValid ctx.config.block_size)
    (xs : List ℕ) (m : ObjectMeta) (size : m.size ≡ length xs) where
  -- A block of the object, and its length.
  block_eq :
      (i : ℕ)
      → i < u32_max
      → (block_bytes ctx.config.block_size i xs
          ≡ slice
              (i * bytes ctx.config.block_size)
              (min (i * bytes ctx.config.block_size + bytes ctx.config.block_size) (length xs))
              xs)
        × (block_len ctx.config.block_size i m.size
            ≡ min (i * bytes ctx.config.block_size + bytes ctx.config.block_size) (length xs)
              - i * bytes ctx.config.block_size)
  unfolding block_len
  block_eq i h = (
    block_bytes-eq ctx.config.block_size v i xs h,
    rw (size, block_range-eq ctx.config.block_size v i (length xs) h) refl,
  )

  rest_eq :
      (i n e t : ℕ)
      → e ≤ length xs
      → (i + 1) * bytes ctx.config.block_size ≡ t
      → n ≡ min t (length xs) - i * bytes ctx.config.block_size
      → i * bytes ctx.config.block_size ≤ t
      → drop n (slice (i * bytes ctx.config.block_size) e xs) ≡ slice t e xs
  rest_eq i n e t h k l o = elim (Bool-cases (leb t (length xs))) [
    | inl y ↦ drop-slice n _ e t xs (ground arith)
    | inr y ↦
        drop-slice n (i * bytes ctx.config.block_size) e (i * bytes ctx.config.block_size + n) xs
          refl
        ∙ slice_empty _ e xs (ground arith)
        ∙ sym (slice_empty t e xs (ground arith))
  ]

  next_lem :
      (i e : ℕ) (body : BlockStream)
      → i < u32_max
      → e ≤ length xs
      → min (i * bytes ctx.config.block_size + bytes ctx.config.block_size) (length xs) ≤ e
      → i * bytes ctx.config.block_size ≤ e
      → owed body ≡ slice (i * bytes ctx.config.block_size) e xs
      → let r = next_block body (block_len ctx.config.block_size i m.size) in
        (r.1 ≡ ok (block_bytes ctx.config.block_size i xs))
        × (owed r.0 ≡ slice ((i + 1) * bytes ctx.config.block_size) e xs)
  next_lem i e body h small enough start o =
      let s = bytes ctx.config.block_size in
      let (content, n) = block_eq i h in
      let f = suc_mul i s in
      let l = length-slice (i * s) e xs small in
      elim (next_block-Delivers body (block_len ctx.config.block_size i m.size)) [
        | inl (fits, out, left, b) ↦ (
          out
              ∙ ap ok (
                  ap (take _) o
                  ∙ take-slice _ (i * s) e xs (omega arith)
                  ∙ ap (λ j. slice (i * s) j xs)
                      {x = i * s + block_len ctx.config.block_size i m.size} (omega arith)
                  ∙ sym content),
          left ∙ ap (drop _) o ∙ rest_eq i _ e _ small refl (omega arith) (omega arith),
        )
        | inr (short, out) ↦ absurd (omega (arith, ap length o))
      ]

  -- Every slot was served, as described, and the body owes what comes from block `j` on.
  abbrev pub Serves :
      ℕ → ℕ → Fetcher e' × BlockStream × List Slot × ℕ × Option OriginError → Fetcher e' → Type 0
  Serves j e r want =
      (r.0 ≡ want)
      × (r.2 ≡ [])
      × (r.4 ≡ none)
      × (owed r.1 ≡ slice (j * bytes ctx.config.block_size) e xs)

  -- Of an object of at most 2^32 - 1 blocks, a body that still owes the object's bytes from the
  -- first slot's block up to the last slot's block at least serves every slot: the slots are
  -- answered in order, each with its block, which is cached unless it is behind the object's end,
  -- and no error is left.
  pub serve-publish :
      (slots : List Slot) (i e next : ℕ) (st : Fetcher e') (body : BlockStream)
      → i + length slots ≤ u32_max
      → e ≤ length xs
      → min ((i + length slots) * bytes ctx.config.block_size) (length xs) ≤ e
      → Consecutive i slots
      → owed body ≡ slice (i * bytes ctx.config.block_size) e xs
      → Serves
          (i + length slots)
          e
          (serve e' ctx m slots next st body)
          (publish e' ctx.config.block_size m xs st slots)
  unfolding serve publish
  serve-publish [] i e next st body h small enough c o = (
    refl,
    refl,
    refl,
    o ∙ ap (λ j. slice (j * bytes ctx.config.block_size) e xs) {x = i} (omega arith),
  )
  serve-publish (s ∷ slots) i e next st body h small enough (k, c) o =
      let b = ctx.config.block_size in
      let i' = s.key.index in
      let o' : owed body ≡ slice (s.key.index * bytes b) e xs = rw k o in
      let (content, n) = block_eq i' (omega arith) in
      let l =
        ap length content
        ∙ length-slice (i' * bytes b) (min (i' * bytes b + bytes b) (length xs)) xs (omega arith) in
      let f = suc_mul i' (bytes b) in
      let pos = bytes_bounds b v in
      let g = mul_split i' (length slots) (bytes b) in
      let j : s.key.index + 1 + length slots ≡ i + length (s ∷ slots) = omega arith in
      let c' : Consecutive (s.key.index + 1) slots = rw k c in
      let up : min ((s.key.index + 1 + length slots) * bytes b) (length xs) ≤ e = rw j enough in
      elim (Bool-cases (block_len b i' m.size == 0)) [
        | inl t ↦
            let q : (length (block_bytes b s.key.index xs) == 0) ≡ true = ground arith in
            rw (t, sym j, serve, sym (answered-publish_one e' b m xs st s q))
              (serve-publish slots (i' + 1) e (i' + 1) (answered e' st s (ok (empty m))) body
                (omega arith) small up c'
                (o' ∙ slice_empty _ e xs (ground arith) ∙ sym (slice_empty _ e xs (ground arith))))
        | inr t ↦
            let (got, left) =
              next_lem i' e body (omega arith) small (ground arith) (ground arith) o' in
            let q : (length (block_bytes b s.key.index xs) == 0) ≡ false = ground arith in
            rw (t, got, sym j, serve, sym (cached-publish_one e' b m xs st s q))
              (serve-publish slots (i' + 1) e (i' + 1) (cached e' st s m (block_bytes b i' xs))
                (next_block body (block_len b i' m.size)).0 (omega arith) small up c' left)
      ]

-- ===== src/Reader/Collected.antt =====
-- nestor/src/reader.rs, `next` and `collect`: a read whose blocks all arrive returns its bytes.
use nestor.Block.{bytes, blocks, slice_within, ReadRange}
use nestor.Block.Cover.{
  block_bytes, block_bytes-eq, suc_mul, mul_split, slice_within-eq, cut, read_blocks,
  read_blocks-blocks,
}
use nestor.Block.Size.{IsValid}
use nestor.Common.{
  ℕ, zero, suc, ◌+◌, ◌-◌, ◌*◌, ◌≤◌, ◌<◌, ◌≡◌, refl, sym, ap, ◌∙◌, Bool, true, false, ◌||◌, min, max,
  List, [], some, ltb, leb, ◌==◌, length, slice, length-slice, range_from, Range, ok, arith,
  u32_max,
}
use nestor.Fetch.{ReadCtx}
use nestor.Origin.{ObjectMeta}
use nestor.Reader.{
  Engine, Reader, new_reader, learn, emit_block, pop, round, next_item, collect, joined,
}
use nestor.Reader.Filled.{blocks_bounds, answers, length-answers, at, fill_lem}

module _ {F : Type 0} (ctx : ReadCtx F) (v : IsValid ctx.config.block_size) (m : ObjectMeta)
    (xs : List ℕ) (request : ReadRange) (range : Range) (first end : ℕ)
    (inside : range.end ≤ length xs) (order : range.start < range.end) (small : end ≤ u32_max)
    (last : end * bytes ctx.config.block_size < range.end + bytes ctx.config.block_size)
    (e : Engine F)
    (serves : (c : ℕ) (r : Range)
      → e.schedule c ctx r ≡ answers ctx.config.block_size m xs r.start (r.end - r.start))
    (some_window : 0 < ctx.config.read_window) where
  -- The state of a read whose next block has been taken out of the window.
  abbrev taken : ℕ → ℕ → ℕ → Bool → Reader F
  taken i next c done = record (at ctx m xs request range first end (i + 1) next c) { done = done }

  last_block :
      (i : ℕ)
      → i < end
      → (i * bytes ctx.config.block_size < range.end)
        × (i + 1 < end → i * bytes ctx.config.block_size + bytes ctx.config.block_size < range.end)
  last_block i h = (
    below i end (bytes ctx.config.block_size) range.end h last,
    λ k. below' i end (bytes ctx.config.block_size) range.end k last,
  )
    where
      below : (i n s t : ℕ) → i < n → n * s < t + s → i * s < t
      below i n s t h k =
          let d : n ≡ i + suc (n - suc i) = omega arith in
          let f = mul_split i (n - suc i) s in let g = ap (λ j. j * s) d in omega arith

      below' : (i n s t : ℕ) → i + 1 < n → n * s < t + s → i * s + s < t
      below' i n s t h k = let b = below (i + 1) n s t h k in let f = suc_mul i s in omega arith

  emit_lem :
      (i next c : ℕ)
      → i < end
      → range.start < i * bytes ctx.config.block_size + bytes ctx.config.block_size
      → (emit_block e
            (taken i next c false)
            i
            (record { meta = m; content = block_bytes ctx.config.block_size i xs })
          ≡ (
            taken i next c (leb end (i + 1)),
            some (ok (cut ctx.config.block_size i range (block_bytes ctx.config.block_size i xs))),
          ))
  unfolding emit_block learn cut
  emit_lem i next c h lo =
      let b = ctx.config.block_size in
      let s = bytes b in
      let (up, full) = last_block i h in
      let w = slice_within-eq b v i range (omega arith) in
      let q : block_bytes b i xs ≡ slice (i * s) (min (i * s + s) (length xs)) xs =
        block_bytes-eq b v i xs (omega arith) in
      let l : length (block_bytes b i xs) ≡ min (i * s + s) (length xs) - i * s =
        ap length q ∙ length-slice (i * s) (min (i * s + s) (length xs)) xs (omega arith) in
      let ws : (slice_within b i range).start ≡ max (i * s) (min range.start (i * s + s)) - i * s =
        ap (λ r. r.start) w in
      let n1 : (length (block_bytes b i xs) == 0
            || leb (length (block_bytes b i xs)) (slice_within b i range).start)
          ≡ false =
        ground arith in
      let n2 : (ltb (length (block_bytes b i xs)) s || leb end (i + 1)) ≡ leb end (i + 1) =
        ground arith in
      rw (n1, n2) refl

  round_lem :
      (i next c : ℕ)
      → i ≤ next
      → next ≤ end
      → i < end
      → range.start < i * bytes ctx.config.block_size + bytes ctx.config.block_size
      → (next' : ℕ) × (c' : ℕ) × (i < next')
        × (next' ≤ end)
        × (round e (at ctx m xs request range first end i next c) ≡ (
          taken i next' c' (leb end (i + 1)),
          some (
              some
                (ok (cut ctx.config.block_size i range (block_bytes ctx.config.block_size i xs)))),
        ))
  unfolding round pop
  round_lem i next c h k more lo =
      let (next', c', eq, lt, hi) =
        fill_lem ctx m xs request range first end e serves i next c h k small more some_window in
      let d : next' - i ≡ suc (next' - (i + 1)) = omega arith in
      (
        next',
        c',
        lt,
        hi,
        ap (λ r. pop e r r.window) eq
            ∙ ap
                (λ n.
                  pop e (at ctx m xs request range first end i next' c')
                    (answers ctx.config.block_size m xs i n))
                d
            ∙ ap (λ out. (out.0, some out.1)) (emit_lem i next' c' more lo),
      )

  collect_done : (n i next c : ℕ) → collect e (suc n) (taken i next c true) ≡ some (ok [])
  unfolding collect next_item round
  collect_done n i next c = refl

  collect_step :
      (n i next c : ℕ) (r : Reader F) (chunk : List ℕ)
      → round e (at ctx m xs request range first end i next c) ≡ (r, some (some (ok chunk)))
      → collect e (suc n) (at ctx m xs request range first end i next c)
        ≡ joined chunk (collect e n r)
  unfolding collect next_item
  collect_step n i next c r chunk t = rw (t, collect, next_item, t) refl

  collect_lem :
      (n i next c : ℕ)
      → i + suc n ≡ end
      → i ≤ next
      → next ≤ end
      → range.start < i * bytes ctx.config.block_size + bytes ctx.config.block_size
      → collect e (suc (suc n)) (at ctx m xs request range first end i next c)
        ≡ some (ok (read_blocks ctx.config.block_size range xs (range_from i (suc n))))
  unfolding read_blocks range_from joined
  collect_lem zero i next c total h k lo =
      let (next', c', lt, hi, t) = round_lem i next c h k (omega arith) lo in
      let stop : leb end (i + 1) ≡ true = ground arith in
      collect_step (suc zero) i next c _ _ t ∙ rw (stop, collect_done zero i next' c') refl
  collect_lem (suc n) i next c total h k lo =
      let (next', c', lt, hi, t) = round_lem i next c h k (omega arith) lo in
      let on : leb end (i + 1) ≡ false = ground arith in
      let f = suc_mul i (bytes ctx.config.block_size) in
      collect_step (suc (suc n)) i next c _ _ t
      ∙ rw (on, collect_lem n (i + 1) next' c' (omega arith) (omega arith) hi (omega arith)) refl

-- A read of a nonempty range inside an object of at most 2^32 - 1 blocks, with the object's
-- metadata known from the start, returns exactly the bytes of the range, if the handles that it
-- starts with are on the bytes of its first blocks, none of them behind the range, if each call for
-- blocks returns handles on the blocks' own bytes, and if the read window is not zero; it ends after
-- one item for each block.
pub collect-reads :
    {F : Type 0} (ctx : ReadCtx F) (m : ObjectMeta) (xs : List ℕ) (request : ReadRange)
    (range : Range) (e : Engine F) (k : ℕ)
    → IsValid ctx.config.block_size
    → ctx.meta ≡ some m
    → range.start < range.end
    → range.end ≤ length xs
    → length xs ≤ u32_max * bytes ctx.config.block_size
    → 0 < ctx.config.read_window
    → ((c : ℕ) (r : Range)
        → e.schedule c ctx r ≡ answers ctx.config.block_size m xs r.start (r.end - r.start))
    → (blocks ctx.config.block_size range).start + k ≤ (blocks ctx.config.block_size range).end
    → let is = blocks ctx.config.block_size range in
      collect e
        (suc (is.end - is.start))
        (new_reader request ctx range (answers ctx.config.block_size m xs is.start k))
      ≡ some (ok (slice range.start range.end xs))
unfolding new_reader
collect-reads ctx m xs request range e k v known order inside size some_window serves few =
    let b = ctx.config.block_size in
    let is = blocks b range in
    let (lo, hi, less, last, small) = blocks_bounds b range v order (omega arith) in
    let n : ℕ = is.end - is.start - 1 in
    let d : is.end - is.start ≡ suc n = omega arith in
    let fetched = answers b m xs is.start k in
    let s : Reader _ = at ctx m xs request range is.start is.end is.start (is.start + k) 0 in
    let begin : new_reader request ctx range fetched ≡ s =
      ap (λ j. record (new_reader request ctx range fetched) { known = j }) known
      ∙ ap (λ j. record s { next = is.start + j; window = fetched })
          (length-answers b m xs is.start k)
      ∙ ap (λ j. record s { window = answers b m xs is.start j }) {x = k}
          {y = is.start + k - is.start} (omega arith) in
    ap (collect e (suc (is.end - is.start))) begin
    ∙ ap (λ k. collect e (suc k) s) d
    ∙ collect_lem ctx v m xs request range is.start is.end inside order small last e serves
        some_window n is.start (is.start + k) 0 (omega arith) (omega arith) few hi
    ∙ ap (λ k. some (ok (read_blocks b range xs (range_from is.start k)))) (sym d)
    ∙ ap (λ l. some (ok l)) (read_blocks-blocks b v range xs order inside size)

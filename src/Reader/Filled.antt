-- ===== src/Reader/Filled.antt =====
-- nestor/src/reader.rs: the window of a read whose blocks all arrive.
use nestor.Block.{BlockSize, bytes, blocks, ReadRange, aligned_take}
use nestor.Block.Cover.{block_bytes, first_small, below_lem, cmax_lem}
use nestor.Block.Groups.{aligned_take_lem}
use nestor.Block.Size.{IsValid, bytes_bounds, index-eq, count-eq, div_bounds, div_ceil_bounds}
use nestor.Common.{
  ℕ, zero, suc, ◌+◌, ◌-◌, ◌*◌, ◌/◌, ◌≤◌, ◌<◌, ◌≡◌, refl, ap, ◌∙◌, inl, inr, false, not, ◌&&◌,
  Bool-cases, List, [], ◌∷◌, ◌++◌, none, some, ltb, ◌==◌, length, Range, ok, arith, u32_max,
  div_ceil, leb_of_lt,
}
use nestor.Fetch.{ReadCtx}
use nestor.Inflight.{BlockResult}
use nestor.Origin.{ObjectMeta}
use nestor.Reader.{Engine, Reader, learn, fill_loop, limit, fill}

-- Where the blocks of a nonempty range begin and end.
pub blocks_bounds :
    (b : BlockSize) (r : Range)
    → IsValid b
    → r.start < r.end
    → r.end ≤ u32_max * bytes b
    → let is = blocks b r in
      (is.start * bytes b ≤ r.start)
      × (r.start < is.start * bytes b + bytes b)
      × (is.start < is.end)
      × (is.end * bytes b < r.end + bytes b)
      × (is.end ≤ u32_max)
unfolding blocks
blocks_bounds b r v h size =
    let s = bytes b in
    let pos : 0 < s = omega (arith, bytes_bounds b v) in
    let nonempty = leb_of_lt r.end r.start h in
    let c = count-eq b r.end (omega arith) v in
    let (clo, chi) = div_ceil_bounds r.end s pos in
    let first = index-eq b r.start (first_small r.start s (omega arith) pos) in
    let (flo, fhi) = div_bounds r.start s (r.start / s) pos refl in
    let below : r.start / s < div_ceil r.end s =
      below_lem (r.start / s) (div_ceil r.end s) s (omega arith) in
    rw (nonempty, c, first)
      (flo, omega arith, below, chi, cmax_lem (div_ceil r.end s) s r.end chi (omega arith))

-- The blocks of an object, as handles return them.
abbrev pub answer : BlockSize → ObjectMeta → List ℕ → ℕ → BlockResult
answer b m xs i = ok (record { meta = m; content = block_bytes b i xs })

abbrev pub answers : BlockSize → ObjectMeta → List ℕ → ℕ → ℕ → List BlockResult
answers b m xs i zero = []
answers b m xs i (suc n) = answer b m xs i ∷ answers b m xs (i + 1) n

pub length-answers :
    (b : BlockSize) (m : ObjectMeta) (xs : List ℕ) (i n : ℕ) → length (answers b m xs i n) ≡ n
length-answers b m xs i zero = refl
length-answers b m xs i (suc n) = ap suc (length-answers b m xs (i + 1) n)

answers-append :
    (b : BlockSize) (m : ObjectMeta) (xs : List ℕ) (i n k j t : ℕ)
    → i + n ≡ j
    → n + k ≡ t
    → answers b m xs i n ++ answers b m xs j k ≡ answers b m xs i t
answers-append b m xs i zero k j t h h' =
    ap (λ x. answers b m xs x k) {x = j} {y = i} (omega arith)
    ∙ ap (answers b m xs i) {x = k} {y = t} (omega arith)
answers-append b m xs i (suc n) k j zero h h' = absurd (omega arith)
answers-append b m xs i (suc n) k j (suc t) h h' =
    ap (◌∷◌ (answer b m xs i)) (answers-append b m xs (i + 1) n k j t (omega arith) (omega arith))

module _ {F : Type 0} (ctx : ReadCtx F) (m : ObjectMeta) (xs : List ℕ) (request : ReadRange)
    (range : Range) (first end : ℕ) where
  -- The state of a read in front of block `i`, with the blocks up to `next` under way.
  abbrev pub at : ℕ → ℕ → ℕ → Reader F
  at i next calls = record {
    request = request;
    ctx = ctx;
    range = range;
    known = some m;
    first = first;
    next = next;
    end = end;
    emit = i;
    window = answers ctx.config.block_size m xs i (next - i);
    restarted = false;
    refetched = none;
    done = false;
    calls = calls;
  }

  module _ (e : Engine F)
      (serves : (c : ℕ) (r : Range)
        → e.schedule c ctx r ≡ answers ctx.config.block_size m xs r.start (r.end - r.start)) where
    -- A state that is as far or further, and after a round in front of the end not without a block.
    abbrev Further : ℕ → ℕ → ℕ → ℕ → Reader F → Type 0
    Further fuel most i next r =
        (next' : ℕ) × (c' : ℕ) × (r ≡ at i next' c')
        × (next ≤ next')
        × (next' ≤ end)
        × (0 < fuel → 0 < most → i < end → i < next')

    fill_loop_lem :
        (fuel most i next c : ℕ)
        → i ≤ next
        → next ≤ end
        → end ≤ u32_max
        → Further fuel most i next (fill_loop e fuel most (at i next c))
    unfolding fill_loop
    fill_loop_lem zero most i next c h k small =
        (next, c, refl, omega arith, k, λ p. absurd (omega (arith, p)))
    fill_loop_lem (suc fuel) most i next c h k small =
        let take = aligned_take next end ctx.config.fetch_window in
        let w = length-answers ctx.config.block_size m xs i (next - i) in
        elim (Bool-cases
          (ltb (length (answers ctx.config.block_size m xs i (next - i))) most && ltb next end)) [
            | inr n ↦ rw (n, fill_loop) (next, c, refl, omega arith, k, λ p q o. ground arith)
            | inl t ↦
                elim (Bool-cases (
                  not (length (answers ctx.config.block_size m xs i (next - i)) == 0)
                  && ltb most (length (answers ctx.config.block_size m xs i (next - i)) + take))) [
                    | inl t' ↦
                        rw (t, t', fill_loop) (next, c, refl, omega arith, k, λ p q o. ground arith)
                    | inr n ↦
                        let (one, inside, win, stop) =
                          aligned_take_lem next end ctx.config.fetch_window (ground arith) small in
                        let (next', c', eq, lo, hi, some_block) =
                          fill_loop_lem fuel most i (next + take) (c + 1) (omega arith) inside
                            small in
                        let joined =
                          ap (λ l. answers ctx.config.block_size m xs i (next - i) ++ l)
                            (serves c (record { start = next; end = next + take }))
                          ∙ answers-append ctx.config.block_size m xs i (next - i)
                              (next + take - next) next (next + take - i) (omega arith)
                              (omega arith) in
                        rw (t, n, joined, fill_loop)
                          (next', c', eq, omega arith, hi, λ p q o. omega arith)
                  ]
          ]

    pub fill_lem :
        (i next c : ℕ)
        → i ≤ next
        → next ≤ end
        → end ≤ u32_max
        → i < end
        → 0 < ctx.config.read_window
        → (next' : ℕ) × (c' : ℕ) × (fill e (at i next c) ≡ at i next' c')
          × (i < next')
          × (next' ≤ end)
    unfolding fill learn limit
    fill_lem i next c h k small more some_window =
        let (next', c', eq, lo, hi, some_block) =
          fill_loop_lem (suc end) ctx.config.read_window i next c h k small in
        (next', c', eq, some_block (omega arith) some_window more, hi)

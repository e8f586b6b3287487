-- ===== src/Block/Cover.antt =====
-- nestor/src/block.rs, `blocks`, `block_range` and `slice_within`, with the slicing of
-- nestor/src/reader.rs: the blocks of a range, cut to the range, make up the range.
use native.Mathlib.Nat.{mod-eq_of_lt, div-lt_iff_lt-mul}
use nestor.Common.{
  ℕ, zero, suc, ◌+◌, ◌-◌, ◌*◌, ◌/◌, ◌%◌, ◌^◌, ◌≤◌, ◌<◌, ◌≡◌, refl, sym, ap, ◌∙◌, inl, inr, List, [],
  ◌∷◌, ◌++◌, append-nil, arith, ltb, ltb→lt, Bool-cases, leb_of_lt, u32_mod, u32_max, u64_mod,
  range_from, slice, slice-slice, slice-append, slice_empty, length-slice, length, min, max, Range,
  some, div_ceil,
}
use nestor.Block.Size.{
  IsValid, bytes_bounds, offset-eq, index-eq, div_bounds, div_ceil_bounds, count-eq,
}
use nestor.Block.{BlockSize, bytes, blocks, span, block_range, slice_within}

-- The bytes of one block of an object.
unfoldable pub block_bytes : BlockSize → ℕ → List ℕ → List ℕ
block_bytes b i xs = let r = block_range b i (some (length xs)) in slice r.start r.end xs

-- What a reader returns of a block: `data[within.start..min(within.end, data.len())]`.
unfoldable pub cut : BlockSize → ℕ → Range → List ℕ → List ℕ
cut b i r block =
    let within = slice_within b i r in slice within.start (min within.end (length block)) block

-- The blocks with the listed indexes, each cut to the range, in a row.
unfoldable pub read_blocks : BlockSize → Range → List ℕ → List ℕ → List ℕ
read_blocks b r xs [] = []
read_blocks b r xs (i ∷ is) = cut b i r (block_bytes b i xs) ++ read_blocks b r xs is

mul_small : (i s : ℕ) → i ≤ 2 ^ 32 → s ≤ 2 ^ 24 → i * s + s ≤ 2 ^ 57
mul_small i s h k = grind arith

pub suc_mul : (i s : ℕ) → (i + 1) * s ≡ i * s + s
suc_mul i s = grind arith

pub mul_split : (i n s : ℕ) → (i + suc n) * s ≡ i * s + s + n * s
mul_split i n s = grind arith

mul_split' : (i n s : ℕ) → (i + 1 + n) * s ≡ i * s + s + n * s
mul_split' i n s = grind arith

pub first_small : (x s : ℕ) → x < u32_max * s → 0 < s → x / s < u32_mod
first_small x s h pos = (div-lt_iff_lt-mul {x = x} pos).1 (omega arith)

pub below_lem : (q c s : ℕ) → q * s < c * s → q < c
below_lem q c s h = grind arith

pub cmax_lem : (c s e : ℕ) → c * s < e + s → e ≤ u32_max * s → c ≤ u32_max
cmax_lem c s e h k = grind arith

-- Two slices join where the first one ends at the boundary, or the second one is empty.
join :
    (a e m u : ℕ) (xs : List ℕ)
    → a ≤ m
    → m ≤ u
    → (a ≤ e)
    → slice a (min e m) xs ++ slice m (min e u) xs ≡ slice a (min e u) xs
join a e m u xs h k l = elim (Bool-cases (ltb e m)) [
  | inl t ↦
      let lt : e < m = ltb→lt e m t in
      let b1 : min e m ≡ e = omega arith in
      let b2 : min e u ≡ e = omega arith in
      rw (b1, b2) (ap (λ l. slice a e xs ++ l) (slice_empty m e xs (omega arith)) ∙ append-nil _)
  | inr t ↦
      let b1 : min e m ≡ m = ground arith in rw b1 (slice-append a m (min e u) xs h (ground arith))
]

module _ (b : BlockSize) (v : IsValid b) where
  pub slice_within-eq :
      (i : ℕ) (r : Range)
      → i < u32_mod
      → slice_within b i r ≡ record {
        start = max (i * bytes b) (min r.start (i * bytes b + bytes b)) - i * bytes b;
        end = max (i * bytes b) (min r.end (i * bytes b + bytes b)) - i * bytes b;
      }
  unfolding slice_within
  slice_within-eq i r h =
      let o = offset-eq b i v (omega arith) in
      let m = mul_small i (bytes b) (omega arith) (bytes_bounds b v).1 in
      let e : (i * bytes b + bytes b) % u64_mod ≡ i * bytes b + bytes b =
        mod-eq_of_lt {n = i * bytes b + bytes b} (omega arith) in
      rw (o, e)

  pub block_range-eq :
      (i size : ℕ)
      → i < u32_max
      → block_range b i (some size)
        ≡ record { start = i * bytes b; end = min (i * bytes b + bytes b) size }
  unfolding block_range span
  block_range-eq i size h =
      let o = offset-eq b i v (omega arith) in
      let p = offset-eq b (i + 1) v (omega arith) ∙ suc_mul i (bytes b) in
      let w : (i + 1) % u32_mod ≡ i + 1 = mod-eq_of_lt {n = i + 1} (omega arith) in rw (w, o, p)

  -- The bytes of a block are a slice of the object.
  pub block_bytes-eq :
      (i : ℕ) (xs : List ℕ)
      → i < u32_max
      → block_bytes b i xs ≡ slice (i * bytes b) (min (i * bytes b + bytes b) (length xs)) xs
  unfolding block_bytes
  block_bytes-eq i xs h = rw (block_range-eq i (length xs) h) refl

  module _ (r : Range) (xs : List ℕ) (small : r.end ≤ length xs) (order : r.start < r.end) where
    piece-eq :
        (i : ℕ)
        → i < u32_max
        → i * bytes b < r.end
        → r.start < i * bytes b + bytes b
        → cut b i r (block_bytes b i xs)
          ≡ slice (max (i * bytes b) r.start) (min r.end (i * bytes b + bytes b)) xs
    unfolding cut block_bytes
    piece-eq i h lo hi =
        let s = bytes b in
        let l : length (slice (i * s) (min (i * s + s) (length xs)) xs)
            ≡ min (i * s + s) (length xs) - i * s =
          length-slice (i * s) (min (i * s + s) (length xs)) xs (omega arith) in
        rw (slice_within-eq i r (omega arith), block_range-eq i (length xs) h)
          (slice-slice (i * s) (min (i * s + s) (length xs)) _ _ _ _ xs (omega arith) (omega arith))

    pieces-eq :
        (n i : ℕ)
        → i + n ≤ u32_max
        → (i + n) * bytes b < r.end + bytes b
        → r.start < i * bytes b + bytes b
        → read_blocks b r xs (range_from i n)
          ≡ slice (max (i * bytes b) r.start) (min r.end ((i + n) * bytes b)) xs
    unfolding read_blocks range_from
    pieces-eq zero i h up lo =
        let e : (i + 0) * bytes b ≡ i * bytes b = ap (λ j. j * bytes b) {x = i + 0} (omega arith) in
        sym (slice_empty _ _ xs (omega arith))
    pieces-eq (suc n) i h up lo =
        let s = bytes b in
        let e : (i + suc n) * s ≡ i * s + s + n * s = mul_split i n s in
        let e' : (i + 1 + n) * s ≡ i * s + s + n * s = mul_split' i n s in
        let f = suc_mul i s in
        let here = piece-eq i (omega arith) (omega arith) lo in
        let rest = pieces-eq n (i + 1) (omega arith) (omega arith) (omega arith) in
        let b1 : max ((i + 1) * s) r.start ≡ i * s + s = omega arith in
        let b2 : min r.end ((i + 1 + n) * s) ≡ min r.end ((i + suc n) * s) = omega arith in
        rw (here, rest, b1, b2)
          (join (max (i * s) r.start) r.end (i * s + s) ((i + suc n) * s) xs (omega arith)
            (omega arith) (omega arith))

  -- Of a valid block size, for a nonempty range inside an object of at most 2^32 - 1 blocks:
  -- reading every block of the range and cutting each to the range gives the range's bytes, in
  -- order.
  pub read_blocks-blocks :
      (r : Range) (xs : List ℕ)
      → r.start < r.end
      → r.end ≤ length xs
      → length xs ≤ u32_max * bytes b
      → let is = blocks b r in
        read_blocks b r xs (range_from is.start (is.end - is.start)) ≡ slice r.start r.end xs
  unfolding blocks
  read_blocks-blocks r xs h small size =
      let s = bytes b in
      let pos : 0 < s = omega (arith, bytes_bounds b v) in
      let nonempty = leb_of_lt r.end r.start h in
      let c = count-eq b r.end (omega arith) v in
      let (clo, chi) = div_ceil_bounds r.end s pos in
      let q : r.start / s < u32_mod = first_small r.start s (omega arith) pos in
      let first = index-eq b r.start q in
      let (flo, fhi) = div_bounds r.start s (r.start / s) pos refl in
      let below : r.start / s < div_ceil r.end s =
        below_lem (r.start / s) (div_ceil r.end s) s (omega arith) in
      let cmax : div_ceil r.end s ≤ u32_max =
        cmax_lem (div_ceil r.end s) s r.end chi (omega arith) in
      let n : ℕ = div_ceil r.end s - r.start / s in
      let total : r.start / s + n ≡ div_ceil r.end s = omega arith in
      let e : (r.start / s + n) * s ≡ div_ceil r.end s * s = ap (λ j. j * s) total in
      let b1 : max (r.start / s * s) r.start ≡ r.start = omega arith in
      let b2 : min r.end ((r.start / s + n) * s) ≡ r.end = omega arith in
      rw (nonempty, c, first)
        (pieces-eq r xs small h n (r.start / s) (omega arith) (omega arith) (omega arith)
          ∙ ap (λ j. slice j (min r.end ((r.start / s + n) * s)) xs) b1
          ∙ ap (λ j. slice r.start j xs) b2)

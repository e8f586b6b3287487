-- ===== src/Block.antt =====
-- nestor/src/block.rs: block sizes, the byte ranges a request resolves to, and the grouping of
-- missing blocks. Offsets and sizes are u64, block indexes are u32; what can leave its width wraps.
-- The proofs stand in the modules below.
pub mod Size
pub mod Groups
pub mod Requests
pub mod Cover
use nestor.Common.{
  ℕ, zero, suc, ◌+◌, ◌-◌, ◌*◌, ◌/◌, ◌%◌, ◌^◌, min, max, List, [], ◌∷◌, Bool, ◌&&◌, ◌||◌, not, true,
  false, Option, none, some, ltb, leb, ◌==◌, if◌then◌else◌, Range, u32_mod, u32_max, u64_mod,
  u64_max, div_ceil, is_power_of_two, trailing_zeros, Result, ok, err, NestorError, range,
}
use mathlib.Core.List.{foldl}

abbrev pub min_block_size : ℕ
min_block_size = 64 * 1024

abbrev pub max_block_size : ℕ
max_block_size = 16 * 1024 * 1024

pub record BlockSize : Type 0 where
  pub shift : ℕ

unfoldable pub new : ℕ → Option BlockSize
new bytes =
    if ltb bytes min_block_size || ltb max_block_size bytes || not (is_power_of_two 32 bytes)
    then none
    else some (record { shift = trailing_zeros 32 bytes })

unfoldable pub bytes : BlockSize → ℕ
bytes b = 2 ^ b.shift

-- `(offset >> shift) as u32`.
unfoldable pub index : BlockSize → ℕ → ℕ
index b offset = offset / bytes b % u32_mod

-- `(index as u64) << shift`.
unfoldable pub offset : BlockSize → ℕ → ℕ
offset b index = index * bytes b % u64_mod

unfoldable pub count : BlockSize → ℕ → ℕ
count b size =
    let blocks = div_ceil size (bytes b) in if ltb u32_max blocks then u32_max else blocks

unfoldable pub blocks : BlockSize → Range → Range
blocks b r =
    if leb r.end r.start
    then record { start = 0; end = 0 }
    else record { start = index b r.start; end = count b r.end }

unfoldable pub span : BlockSize → ℕ → ℕ → Option ℕ → Range
span b first n (some size) = record {
  start = offset b first;
  end = min (offset b ((first + n) % u32_mod)) size;
}
span b first n none = record { start = offset b first; end = offset b ((first + n) % u32_mod) }

unfoldable pub block_range : BlockSize → ℕ → Option ℕ → Range
block_range b index size = span b index 1 size

-- `Ord::clamp`.
abbrev clamp : ℕ → ℕ → ℕ → ℕ
clamp lo hi x = max lo (min x hi)

unfoldable pub slice_within : BlockSize → ℕ → Range → Range
slice_within b index r =
    let block_start = offset b index in
    let block_end = (block_start + bytes b) % u64_mod in
    record {
      start = clamp block_start block_end r.start - block_start;
      end = clamp block_start block_end r.end - block_start;
    }

pub data ReadRange : Type 0 where
  full : ReadRange
  bounded : Range → ReadRange
  from suffix : ℕ → ReadRange

unfoldable pub needs_size : ReadRange → Bool
needs_size (bounded r) = false
needs_size r = true

unfoldable pub resolve : ReadRange → ℕ → Result NestorError Range
resolve full size = ok (record { start = 0; end = size })
resolve (bounded r) size =
    if leb r.end r.start || leb size r.start
    then err (range r size)
    else ok (record { start = r.start; end = min r.end size })
resolve (from start) size =
    if leb size start
    then err (range (record { start = start; end = u64_max }) size)
    else ok (record { start = start; end = size })
resolve (suffix len) size =
    if len == 0
    then err (range (record { start = size; end = size }) size)
    else ok (record { start = size - len; end = size })

pub record FetchGroup : Type 0 where
  pub first : ℕ
  pub count : ℕ

-- The body of the loop of `group_misses`: a miss joins the last group or starts one.
unfoldable pub push_miss : ℕ → List FetchGroup → ℕ → List FetchGroup
push_miss window [] idx = record { first = idx; count = 1 } ∷ []
push_miss window (g ∷ []) idx =
    if (g.first + g.count) % u32_mod == idx && not (idx % window == 0)
    then record g { count = g.count + 1 } ∷ []
    else g ∷ record { first = idx; count = 1 } ∷ []
push_miss window (g ∷ h ∷ gs) idx = g ∷ push_miss window (h ∷ gs) idx

unfoldable pub group_misses : List ℕ → ℕ → List FetchGroup
group_misses misses window = foldl (push_miss (max window 1)) [] misses

unfoldable pub aligned_take : ℕ → ℕ → ℕ → ℕ
aligned_take next end window =
    let w = max window 1 in
    let boundary = min ((next / w + 1) % u32_mod * w) u32_max in
    (min boundary end + u32_mod - next) % u32_mod

-- The first and last block of `first_group`, for the requests that have them.
unfoldable pub group_bounds : BlockSize → ReadRange → Option Range
group_bounds b full = some (record { start = 0; end = u32_max })
group_bounds b (from start) = some (record { start = index b start; end = u32_max })
group_bounds b (bounded r) = some (record { start = index b r.start; end = count b r.end })
group_bounds b (suffix len) = none

unfoldable pub first_group : BlockSize → ReadRange → ℕ → Option Range
unfolding group_bounds
first_group b request window = elim (group_bounds b request) [
  | none ↦ none
  | some r ↦
      let take = aligned_take r.start (max r.end (min (r.start + 1) u32_max)) window in
      some (record { start = r.start; end = (r.start + take) % u32_mod })
]

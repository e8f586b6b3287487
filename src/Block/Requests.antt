-- ===== src/Block/Requests.antt =====
-- nestor/src/block.rs, `ReadRange::resolve` and `first_group`.
use native.Mathlib.Nat.{mod-eq_of_lt, zero-div}
use nestor.Common.{
  ℕ, Option-cases, ◌+◌, ◌-◌, ◌%◌, ◌≤◌, ◌<◌, ◌≡◌, refl, ◌⊎◌, inl, inr, ◌↔◌, arith, u32_mod, u32_max,
  min, max, Range, some, ok,
}
use nestor.Block.Groups.{aligned_take_lem}
use nestor.Block.{
  BlockSize, bytes, index, count, ReadRange, full, bounded, from, suffix, resolve, group_bounds,
  first_group, aligned_take,
}

index-zero : (b : BlockSize) → index b 0 ≡ 0
unfolding index
index-zero b = rw (zero-div (bytes b))

-- Which requests an object of the size can serve.
abbrev pub Serves : ReadRange → ℕ → Type 0
Serves full size = Unit {0}
Serves (bounded r) size = (r.start < r.end) × (r.start < size)
Serves (from start) size = start < size
Serves (suffix len) size = 0 < len

-- The bytes that a request asks for, of an object of the size.
abbrev pub Wanted : ReadRange → ℕ → ℕ → Type 0
Wanted full size x = x < size
Wanted (bounded r) size x = (r.start ≤ x) × (x < r.end) × (x < size)
Wanted (from start) size x = (start ≤ x) × (x < size)
Wanted (suffix len) size x = (size ≤ x + len) × (x < size)

-- `resolve` succeeds exactly on the requests that the object can serve.
resolve_iff :
    (request : ReadRange) (size : ℕ)
    → ((r : Range) × (resolve request size ≡ ok r)) ↔ Serves request size
unfolding resolve
resolve_iff full size = (λ h. tt, λ h. (record { start = 0; end = size }, refl))
resolve_iff (bounded r) size = (
  λ h. ground (arith, h.1),
  λ h. (record { start = r.start; end = min r.end size }, ground arith),
)
resolve_iff (from start) size =
    (λ h. ground (arith, h.1), λ h. (record { start = start; end = size }, ground arith))
resolve_iff (suffix len) size =
    (λ h. ground (arith, h.1), λ h. (record { start = size - len; end = size }, ground arith))

-- The resolved range lies in the object and holds exactly the bytes that the request asks for.
pub resolve-Wanted :
    (request : ReadRange) (size : ℕ) (r : Range) (x : ℕ)
    → resolve request size ≡ ok r
    → (r.start ≤ r.end) × (r.end ≤ size) × (((r.start ≤ x) × (x < r.end)) ↔ Wanted request size x)
unfolding resolve
resolve-Wanted full size r x h = ground arith
resolve-Wanted (bounded q) size r x h = ground arith
resolve-Wanted (from start) size r x h = ground arith
resolve-Wanted (suffix len) size r x h = ground arith

bounds-resolve :
    (b : BlockSize) (request : ReadRange) (size : ℕ) (gb r : Range)
    → group_bounds b request ≡ some gb
    → resolve request size ≡ ok r
    → (gb.start ≡ index b r.start) × (gb.end ≤ u32_max)
unfolding group_bounds resolve count
bounds-resolve b full size gb r h k = let z : index b 0 ≡ 0 = index-zero b in ground (arith, z)
bounds-resolve b (bounded q) size gb r h k = ground arith
bounds-resolve b (from start) size gb r h k = ground arith
bounds-resolve b (suffix len) size gb r h k = cc

probe-group :
    (gb : Range) (window : ℕ)
    → gb.start < u32_max
    → gb.end ≤ u32_max
    → let end = max gb.end (min (gb.start + 1) u32_max) in
      gb.start < (gb.start + aligned_take gb.start end window) % u32_mod
probe-group gb window lt le =
    let end : ℕ = max gb.end (min (gb.start + 1) u32_max) in
    let (some_block, fits, _, _) =
      aligned_take_lem gb.start end window (omega arith) (omega arith) in
    rw (mod-eq_of_lt {n = gb.start + aligned_take gb.start end window} {m = u32_mod} (omega arith))
      (omega arith)

-- For a request that resolves to a range, the group that a probe fetches first begins at the
-- range's first block, and it holds at least one block unless that block's index is 2^32 - 1 or
-- more.
first_group-resolve :
    (b : BlockSize) (request : ReadRange) (window size : ℕ) (g r : Range)
    → first_group b request window ≡ some g
    → resolve request size ≡ ok r
    → (g.start ≡ index b r.start) × ((u32_max ≤ index b r.start) ⊎ (g.start < g.end))
unfolding first_group
first_group-resolve b request window size g r h k = elim (Option-cases (group_bounds b request)) [
  | inl e ↦ absurd (cc (rw (e, first_group) at h))
  | inr (gb, e) ↦
      let (s, le) = bounds-resolve b request size gb r e k in ground (arith, probe-group gb window)
]

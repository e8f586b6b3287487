-- ===== src/Gateway/Responses.antt =====
-- nestor-s3/src/headers.rs, `content_headers`: what is written of a range.
use nestor.Block.{ReadRange, full, bounded, from, suffix, resolve}
use nestor.Common.{
  ℕ, ◌+◌, ◌-◌, ◌%◌, ◌≤◌, ◌<◌, ◌≡◌, ◌⊎◌, inl, inr, refl, true, some, Range, ok, u64_mod, u64_max,
  arith,
}
use nestor.Gateway.Ranges.{content_headers}

resolve-shape :
    (request : ReadRange) (size : ℕ) (r : Range)
    → resolve request size ≡ ok r
    → (r.start ≤ r.end) × (r.end ≤ size) × ((r.start < r.end) ⊎ (size ≡ 0))
unfolding resolve
resolve-shape full size r e = ground arith
resolve-shape (bounded q) size r e = ground arith
resolve-shape (from start) size r e = ground arith
resolve-shape (suffix len) size r e = ground arith

wrapped :
    (s e size : ℕ)
    → s ≤ e
    → e ≤ size
    → size < u64_mod
    → ((e + u64_mod - s) % u64_mod ≡ e - s)
      × ((0 < e → (e + u64_mod - 1) % u64_mod + 1 ≡ e)
          × (e ≡ 0 → (e + u64_mod - 1) % u64_mod ≡ u64_max))
wrapped s e size h k small = (omega arith, (λ p. omega arith, λ z. omega arith))

-- The positions that are written for a range of a resolved request: the length is the range's, and
-- the last position is the one in front of its end, unless the object is empty; then it is 2^64 - 1.
pub content_headers-resolve :
    (request : ReadRange) (size : ℕ) (r : Range)
    → size < u64_mod
    → resolve request size ≡ ok r
    → let h = content_headers r size true in
      (h.content_length ≡ r.end - r.start)
      × ((last : ℕ) × (h.content_range ≡ some (r.start, last, size))
          × (((0 < size) × (last + 1 ≡ r.end) × (r.start ≤ last) × (last < size))
              ⊎ ((size ≡ 0) × (last ≡ u64_max))))
unfolding content_headers
content_headers-resolve request size r small e =
    let (order, inside, some_bytes) = resolve-shape request size r e in
    let (len, (nonempty, empty)) = wrapped r.start r.end size order inside small in
    (
      len,
      (
        (r.end + u64_mod - 1) % u64_mod,
        refl,
        elim some_bytes [
          | inl lt ↦
              let w = nonempty (omega (arith, lt)) in
              inl (omega (arith, lt, inside), w, omega (arith, w, lt), omega (arith, w, inside, lt))
          | inr z ↦ inr (z, empty (omega (arith, z, inside)))
        ],
      ),
    )

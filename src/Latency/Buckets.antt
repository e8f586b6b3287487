-- ===== src/Latency/Buckets.antt =====
-- nestor/src/latency.rs, `bucket` and `upper_edge`: the histogram's resolution.
use nestor.Block.Size.{div_bounds}
use nestor.Common.{
  ℕ, zero, suc, ◌+◌, ◌-◌, ◌*◌, ◌/◌, ◌%◌, ◌^◌, ◌≤◌, ◌<◌, ◌≡◌, refl, ap, ◌∙◌, min, max, arith,
  pow_double, pow_mono, pow_reflects_lt,
}
use nestor.Latency.{ilog2, bucket, upper_edge, min_shift, buckets}

-- `ilog2` is the position of the highest bit.
pub ilog2_bounds : (k n : ℕ) → 0 < n → n < 2 ^ k → (2 ^ ilog2 k n ≤ n) × (n < 2 ^ suc (ilog2 k n))
unfolding ilog2
ilog2_bounds zero n pos h = absurd (omega arith)
ilog2_bounds (suc k) n pos h = ground (
  arith,
  ilog2_bounds k (n / 2),
  pow_double k,
  pow_double (ilog2 k (n / 2)),
  pow_double (suc (ilog2 k (n / 2))),
)

pub log_range : (v : ℕ) → 2 ^ 16 ≤ v → v < 2 ^ 40 → (16 ≤ ilog2 64 v) × (ilog2 64 v ≤ 39)
log_range v lo hi =
    let (a, b) = ilog2_bounds 64 v (omega arith) (omega arith) in
    (
      omega (arith, pow_reflects_lt 16 (suc (ilog2 64 v)) (omega arith)),
      omega (arith, pow_reflects_lt (ilog2 64 v) 40 (omega arith)),
    )

-- With `t` the weight of a slot, the value lies in the slot's eighth of the octave.
eighth :
    (v log : ℕ)
    → 16 ≤ log
    → 2 ^ log ≤ v
    → v < 2 ^ suc log
    → (8 ≤ v / 2 ^ (log - 3))
      × (v / 2 ^ (log - 3) < 16)
      × (v / 2 ^ (log - 3) * 2 ^ (log - 3) ≤ v)
      × (v < v / 2 ^ (log - 3) * 2 ^ (log - 3) + 2 ^ (log - 3))
      × (8 * 2 ^ (log - 3) ≤ v)
eighth v log h lo hi =
    let t = 2 ^ (log - 3) in
    let e : log ≡ suc (suc (suc (log - 3))) = omega arith in
    let p : 2 ^ log ≡ 8 * t =
      ap (λ j. 2 ^ j) e
      ∙ omega (
        arith,
        pow_double (suc (suc (log - 3))),
        pow_double (suc (log - 3)),
        pow_double (log - 3),
      ) in
    let pos : 0 < t = pow_mono 0 (log - 3) (omega arith) in
    let (a, b) = div_bounds v t (v / t) pos refl in
    let up = pow_double log in
    (at_least (v / t) t v b (omega arith), below (v / t) t v a (omega arith), a, b, omega arith)
  where
    at_least : (q t v : ℕ) → v < q * t + t → 8 * t ≤ v → 8 ≤ q
    at_least q t v h k = grind arith

    below : (q t v : ℕ) → q * t ≤ v → v < 16 * t → q < 16
    below q t v h k = grind arith

-- The slot of a value below 2^40 ns, about 18 minutes, has an edge above the value and above it by
-- an eighth at most; values below 2^16 ns count as 2^16.
pub upper_edge-bucket :
    (nanos : ℕ)
    → nanos < 2 ^ 40
    → (nanos < upper_edge (bucket nanos))
      × (8 * upper_edge (bucket nanos) ≤ 9 * max nanos (2 ^ min_shift))
unfolding bucket upper_edge
upper_edge-bucket nanos h =
    let v = max nanos (2 ^ min_shift) in
    let log = ilog2 64 v in
    let (lo, hi) = log_range v (omega arith) (omega arith) in
    let (a, b) = ilog2_bounds 64 v (omega arith) (omega arith) in
    let (q8, q16, ql, qu, t8) = eighth v log lo a b in
    let q = v / 2 ^ (log - 3) in
    let slot : min ((log - 16) * 8 + q % 8) (buckets - 1) ≡ (log - 16) * 8 + (q - 8) =
      omega arith in
    let octave : ((log - 16) * 8 + (q - 8)) / 8 ≡ log - 16 = omega arith in
    let sub : ((log - 16) * 8 + (q - 8)) % 8 ≡ q - 8 = omega arith in
    let exp : log - 16 + 16 - 3 ≡ log - 3 = omega arith in
    let width : 8 + (q - 8) + 1 ≡ q + 1 = omega arith in
    rw (slot, octave, sub, exp, width) (edge q (2 ^ (log - 3)) v nanos qu ql t8 (omega arith))
  where
    edge :
        (q t v n : ℕ)
        → v < q * t + t
        → q * t ≤ v
        → 8 * t ≤ v
        → n ≤ v
        → (n < (q + 1) * t) × (8 * ((q + 1) * t) ≤ 9 * v)
    edge q t v n a b c d = grind arith

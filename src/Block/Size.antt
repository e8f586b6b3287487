-- ===== src/Block/Size.antt =====
-- nestor/src/block.rs, `BlockSize`: which sizes there are, and offsets against block indexes.
use native.Mathlib.Nat.{
  div-add-mod', mod-lt, mod-eq_of_lt, mul-add-div_right, div-eq_of_lt, div-lt_iff_lt-mul,
}
use nestor.Common.{
  ℕ, ◌+◌, ◌-◌, ◌*◌, ◌/◌, ◌%◌, ◌^◌, ◌≤◌, ◌<◌, ◌≡◌, sym, ap, ◌∙◌, ◌↔◌, some, arith, ltb, Bool-cases,
  inl, inr, u32_mod, u32_max, div_ceil, is_power_of_two, trailing_zeros, pow_mono, pow_reflects_le,
  pow_injective, pow-trailing_zeros, is_power_of_two-pow, true,
}
use nestor.Block.{BlockSize, new, bytes, index, offset, count}

-- The sizes of `BlockSize::new`: 64 KiB to 16 MiB.
abbrev pub IsValid : BlockSize → Type 0
IsValid b = (16 ≤ b.shift) × (b.shift ≤ 24)

new_sound : (n : ℕ) (b : BlockSize) → new n ≡ some b → IsValid b × (n ≡ bytes b)
unfolding new bytes
new_sound n b h =
    let e : 2 ^ b.shift ≡ n = ground (arith, pow-trailing_zeros 32 n) in
    let lo : 2 ^ 16 ≤ 2 ^ b.shift = ground arith in
    let hi : 2 ^ b.shift ≤ 2 ^ 24 = ground arith in
    ((pow_reflects_le 16 b.shift lo, pow_reflects_le b.shift 24 hi), sym e)

new_complete : (n : ℕ) (b : BlockSize) → IsValid b × (n ≡ bytes b) → new n ≡ some b
unfolding new bytes
new_complete n b h =
    let p : is_power_of_two 32 n ≡ true =
      ap (is_power_of_two 32) h.1 ∙ is_power_of_two-pow 32 b.shift (omega arith) in
    let t : trailing_zeros 32 n ≡ b.shift =
      pow_injective (trailing_zeros 32 n) b.shift (pow-trailing_zeros 32 n p ∙ h.1) in
    ground (arith, pow_mono 16 b.shift, pow_mono b.shift 24)

-- `BlockSize::new` accepts exactly the powers of two from 2^16 to 2^24, and the size that it
-- returns has that many bytes.
new_iff : (n : ℕ) (b : BlockSize) → (new n ≡ some b) ↔ (IsValid b × (n ≡ bytes b))
new_iff n b = (new_sound n b, new_complete n b)

pub bytes_bounds : (b : BlockSize) → IsValid b → (2 ^ 16 ≤ bytes b) × (bytes b ≤ 2 ^ 24)
unfolding bytes
bytes_bounds b v = (pow_mono 16 b.shift v.0, pow_mono b.shift 24 v.1)

mul_bound : (i s : ℕ) → i ≤ 2 ^ 32 → s ≤ 2 ^ 24 → i * s ≤ 2 ^ 56
mul_bound i s h k = grind arith

pub offset-eq : (b : BlockSize) (i : ℕ) → IsValid b → i ≤ u32_mod → offset b i ≡ i * bytes b
unfolding offset
offset-eq b i v h =
    let m = mul_bound i (bytes b) h (bytes_bounds b v).1 in
    mod-eq_of_lt {n = i * bytes b} (omega arith)

pub index-eq : (b : BlockSize) (x : ℕ) → x / bytes b < u32_mod → index b x ≡ x / bytes b
unfolding index
index-eq b x h = mod-eq_of_lt h

pub div_bounds : (x s q : ℕ) → 0 < s → x / s ≡ q → (q * s ≤ x) × (x < q * s + s)
div_bounds x s q h e =
    let d = div-add-mod' x s in
    let m = mod-lt x h in
    let k : x / s * s ≡ q * s = ap (λ j. j * s) e in (omega arith, omega arith)

pub div_unique : (x s q : ℕ) → q * s ≤ x → x < q * s + s → x / s ≡ q
div_unique x s q h k =
    let pos : 0 < s = omega arith in
    let e : x ≡ q * s + (x - q * s) = omega arith in
    ap (λ j. j / s) e
    ∙ mul-add-div_right pos q (x - q * s)
    ∙ ap (λ j. q + j) (div-eq_of_lt {n = x - q * s} {m = s} (omega arith))
    ∙ omega arith

-- Of a valid size, a byte position below 2^32 blocks has the index `i`, a u32, exactly if it lies
-- from the offset of `i` to before the offset of `i + 1`.
index_iff :
    (b : BlockSize) (i x : ℕ)
    → IsValid b
    → i < u32_mod
    → x < u32_mod * bytes b
    → (index b x ≡ i) ↔ ((offset b i ≤ x) × (x < offset b (i + 1)))
index_iff b i x v hi hx =
    let lo = offset-eq b i v (omega arith) in
    let up = offset-eq b (i + 1) v (omega arith) in
    let pos : 0 < bytes b = omega (arith, bytes_bounds b v) in
    let small : x / bytes b < u32_mod = below x (bytes b) pos hx in
    let e = index-eq b x small in
    (
      λ h. let d = div_bounds x (bytes b) i pos (sym e ∙ h) in (omega arith, omega arith),
      λ h. e ∙ div_unique x (bytes b) i (omega arith) (omega arith),
    )
  where
    below : (x s : ℕ) → 0 < s → x < u32_mod * s → x / s < u32_mod
    below x s pos h = (div-lt_iff_lt-mul {x = x} pos).1 h

-- `div_ceil` is the least number of blocks that hold the size.
pub div_ceil_bounds : (a s : ℕ) → 0 < s → (a ≤ div_ceil a s * s) × (div_ceil a s * s < a + s)
unfolding div_ceil
div_ceil_bounds a s h =
    let d = div-add-mod' a s in
    let m = mod-lt a h in
    elim (Bool-cases (ltb 0 (a % s))) [
      | inl t ↦ rw (t, div_ceil) (ground arith)
      | inr t ↦ rw (t, div_ceil) (ground arith)
    ]

pub count-eq :
    (b : BlockSize) (n : ℕ) → n ≤ u32_max * bytes b → IsValid b → count b n ≡ div_ceil n (bytes b)
unfolding count
count-eq b n h v =
    let pos : 0 < bytes b = omega (arith, bytes_bounds b v) in
    let d = div_ceil_bounds n (bytes b) pos in
    ground (arith, small (div_ceil n (bytes b)) (bytes b) n d.1 h)
  where
    small : (c s n : ℕ) → c * s < n + s → n ≤ u32_max * s → c ≤ u32_max
    small c s n p q = grind arith

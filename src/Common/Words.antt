-- ===== src/Common/Words.antt =====
-- Machine words as native numbers, ranges of them, and the powers of two the block sizes use.
use Prim.Native.Nat.{ℕ, zero, suc, ◌+◌, ◌-◌, ◌*◌, ◌/◌, ◌%◌, ◌^◌, ◌≤◌, ◌<◌}
use mathlib.Core.Path.{◌≡◌, refl}
use mathlib.Core.Bool.{Bool, true, false}
use native.Mathlib.Omega.{arith}
use native.Mathlib.Nat.{pow-suc, pow-le-pow_right}
use native.Mathlib.Decide.{dec_le}
use nestor.Common.Tests.{◌==◌, ltb, if◌then◌else◌}

abbrev pub u32_mod : ℕ
u32_mod = 2 ^ 32

abbrev pub u32_max : ℕ
u32_max = 2 ^ 32 - 1

abbrev pub u64_mod : ℕ
u64_mod = 2 ^ 64

abbrev pub u64_max : ℕ
u64_max = 2 ^ 64 - 1

-- `Range<u64>` or `Range<u32>`.
pub record Range : Type 0 where
  pub start : ℕ
  pub end : ℕ

-- `u64::div_ceil`.
unfoldable pub div_ceil : ℕ → ℕ → ℕ
div_ceil a b = if ltb 0 (a % b) then a / b + 1 else a / b

-- `u32::is_power_of_two` over `k` bits.
unfoldable pub is_power_of_two : ℕ → ℕ → Bool
is_power_of_two zero n = false
is_power_of_two (suc k) n = if n % 2 == 0 then is_power_of_two k (n / 2) else n == 1

-- `u32::trailing_zeros` over `k` bits.
unfoldable pub trailing_zeros : ℕ → ℕ → ℕ
trailing_zeros zero n = 0
trailing_zeros (suc k) n = if n % 2 == 0 then suc (trailing_zeros k (n / 2)) else 0

pub pow_double : (n : ℕ) → 2 ^ suc n ≡ 2 * 2 ^ n
pow_double n = omega (arith, pow-suc 2 n)

pub pow-trailing_zeros : (k n : ℕ) → is_power_of_two k n ≡ true → 2 ^ trailing_zeros k n ≡ n
unfolding is_power_of_two trailing_zeros
pow-trailing_zeros zero n h = ground arith
pow-trailing_zeros (suc k) n h =
    ground (arith, pow-trailing_zeros k (n / 2), pow_double (trailing_zeros k (n / 2)))

pub is_power_of_two-pow : (k s : ℕ) → s < k → is_power_of_two k (2 ^ s) ≡ true
unfolding is_power_of_two
is_power_of_two-pow zero s h = absurd (omega arith)
is_power_of_two-pow (suc k) zero h = refl
is_power_of_two-pow (suc k) (suc s) h =
    let half : 2 ^ suc s / 2 ≡ 2 ^ s = omega (arith, pow_double s) in
    ground (arith, pow_double s, half, is_power_of_two-pow k s)

pub pow_mono : (a b : ℕ) → a ≤ b → 2 ^ a ≤ 2 ^ b
pow_mono a b h = pow-le-pow_right (omega arith) h

pub pow_reflects_lt : (a b : ℕ) → 2 ^ a < 2 ^ b → a < b
pow_reflects_lt a b h = elim (dec_le b a) [
  | yes p ↦ absurd (omega (arith, pow_mono b a p))
  | no p ↦ omega arith
]

pub pow_reflects_le : (a b : ℕ) → 2 ^ a ≤ 2 ^ b → a ≤ b
pow_reflects_le a b h = elim (dec_le a b) [
  | yes p ↦ p
  | no p ↦ absurd (omega (arith, pow_mono (suc b) a (omega arith), pow_double b, pow_mono 0 b))
]

pub pow_injective : (a b : ℕ) → 2 ^ a ≡ 2 ^ b → a ≡ b
pow_injective a b h =
    omega (arith, pow_reflects_le a b (omega arith), pow_reflects_le b a (omega arith))

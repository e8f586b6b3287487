-- ===== src/Origin/Text.antt =====
-- The parts of the standard library's text handling that nestor/src/origin.rs uses: UTF-8
-- validation, `split`, `trim`, `trim_start_matches("W/")` and equality.
use nestor.Common.{
  ℕ, zero, suc, ◌+◌, ◌-◌, ◌*◌, ◌≡◌, ◌↔◌, refl, List, [], ◌∷◌, Bool, ◌&&◌, ◌||◌, true, false, Option,
  none, some, ltb, leb, ◌==◌, if◌then◌else◌, length, arith,
}
use mathlib.Core.List.{reverse}

unfoldable pub same : List ℕ → List ℕ → Bool
same [] [] = true
same (x ∷ xs) (y ∷ ys) = x == y && same xs ys
same _ _ = false

-- A continuation byte in the given bounds; 0x80 to 0xBF in general.
unfoldable pub within : ℕ → ℕ → ℕ → Bool
within lo hi b = leb lo b && leb b hi

abbrev low_six : ℕ → ℕ
low_six b = b - 0x80

-- The first code point of a list of bytes, and the bytes behind it.
unfoldable pub utf8_three : ℕ → List ℕ → ℕ → ℕ → Option (ℕ × List ℕ)
unfolding within
utf8_three a (b ∷ c ∷ rest) lo hi =
    if within lo hi b && within 0x80 0xbf c
    then some ((a - 0xe0) * 4096 + low_six b * 64 + low_six c, rest)
    else none
utf8_three a _ lo hi = none

unfoldable pub utf8_four : ℕ → List ℕ → ℕ → ℕ → Option (ℕ × List ℕ)
unfolding within
utf8_four a (b ∷ c ∷ d ∷ rest) lo hi =
    if within lo hi b && within 0x80 0xbf c && within 0x80 0xbf d
    then some ((a - 0xf0) * 262144 + low_six b * 4096 + low_six c * 64 + low_six d, rest)
    else none
utf8_four a _ lo hi = none

unfoldable pub utf8_two : ℕ → List ℕ → Option (ℕ × List ℕ)
unfolding within
utf8_two a (b ∷ rest) =
    if within 0x80 0xbf b then some ((a - 0xc0) * 64 + low_six b, rest) else none
utf8_two a [] = none

unfoldable pub utf8_char : ℕ → List ℕ → Option (ℕ × List ℕ)
unfolding utf8_two utf8_three utf8_four
utf8_char a rest =
    if ltb a 0x80
    then some (a, rest)
    else if within 0xc2 0xdf a
    then utf8_two a rest
    else if a == 0xe0
    then utf8_three a rest 0xa0 0xbf
    else if a == 0xed
    then utf8_three a rest 0x80 0x9f
    else if within 0xe1 0xef a
    then utf8_three a rest 0x80 0xbf
    else if a == 0xf0
    then utf8_four a rest 0x90 0xbf
    else if within 0xf1 0xf3 a
    then utf8_four a rest 0x80 0xbf
    else if a == 0xf4
    then utf8_four a rest 0x80 0x8f
    else none

-- A code point takes a byte at least, so the number of bytes is fuel enough.
unfoldable pub utf8_loop : ℕ → List ℕ → Option (List ℕ)
unfolding utf8_char
utf8_loop fuel [] = some []
utf8_loop zero (a ∷ rest) = none
utf8_loop (suc fuel) (a ∷ rest) = elim (utf8_char a rest) [
  | none ↦ none
  | some (c, left) ↦ elim (utf8_loop fuel left) [ none ↦ none | some cs ↦ some (c ∷ cs) ]
]

-- `std::str::from_utf8`.
unfoldable pub from_utf8 : List ℕ → Option (List ℕ)
unfolding utf8_loop
from_utf8 bytes = utf8_loop (length bytes) bytes

-- `str::split` at one character: never empty, and `n` separators give `n + 1` parts.
unfoldable pub split_on : ℕ → List ℕ → List (List ℕ)
split_on sep [] = [] ∷ []
split_on sep (c ∷ cs) = elim (split_on sep cs) [
  | [] ↦ [] ∷ []
  | part ∷ parts ↦ if c == sep then [] ∷ part ∷ parts else (c ∷ part) ∷ parts
]

-- Unicode `White_Space`.
unfoldable pub is_whitespace : ℕ → Bool
unfolding within
is_whitespace c =
    within 0x09 0x0d c
    || c == 0x20
    || c == 0x85
    || c == 0xa0
    || c == 0x1680
    || within 0x2000 0x200a c
    || within 0x2028 0x2029 c
    || c == 0x202f
    || c == 0x205f
    || c == 0x3000

unfoldable pub trim_start : List ℕ → List ℕ
trim_start [] = []
trim_start (c ∷ cs) = if is_whitespace c then trim_start cs else c ∷ cs

-- `str::trim`.
unfoldable pub trim : List ℕ → List ℕ
unfolding trim_start is_whitespace
trim cs = reverse (trim_start (reverse (trim_start cs)))

-- `trim_start_matches("W/")`, which drops the prefix as often as it is there.
unfoldable pub trim_weak : List ℕ → List ℕ
trim_weak (w ∷ s ∷ cs) = if w == b'W' && s == b'/' then trim_weak cs else w ∷ s ∷ cs
trim_weak cs = cs

pub same_iff : (xs ys : List ℕ) → (same xs ys ≡ true) ↔ (xs ≡ ys)
unfolding same
same_iff [] [] = (λ h. refl, λ h. refl)
same_iff [] (y ∷ ys) = (λ h. cc, λ h. cc)
same_iff (x ∷ xs) [] = (λ h. cc, λ h. cc)
same_iff (x ∷ xs) (y ∷ ys) = ground (arith, same_iff xs ys)

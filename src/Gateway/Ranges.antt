-- ===== src/Gateway/Ranges.antt =====
-- nestor-s3/src/headers.rs, `parse_range` and `content_headers`. A header is its text, or none if it
-- is missing or not text.
use nestor.Block.{ReadRange, bounded, from, suffix}
use nestor.Common.{
  ℕ, ◌+◌, ◌-◌, ◌*◌, ◌%◌, min, List, [], ◌∷◌, Bool, false, ◌&&◌, ◌||◌, Option, none, some, ltb, leb,
  ◌==◌, if◌then◌else◌, Range, u64_mod, u64_max,
}
use nestor.Origin.Text.{trim}
use nestor.Policy.Overrides.{split_once}

-- The digits of `u64::from_str`: an overflow is an error.
unfoldable pub digits_u64 : ℕ → List ℕ → Option ℕ
digits_u64 acc [] = some acc
digits_u64 acc (c ∷ cs) =
    let next = acc * 10 + (c - b'0') in
    let rest = digits_u64 next cs in
    if leb b'0' c && leb c b'9' && ltb next u64_mod then rest else none

unfoldable pub parse_u64 : List ℕ → Option ℕ
unfolding digits_u64
parse_u64 [] = none
parse_u64 (c ∷ []) = digits_u64 0 (c ∷ [])
parse_u64 (c ∷ d ∷ cs) = if c == b'+' then digits_u64 0 (d ∷ cs) else digits_u64 0 (c ∷ d ∷ cs)

unfoldable pub strip_prefix : List ℕ → List ℕ → Option (List ℕ)
strip_prefix [] text = some text
strip_prefix (p ∷ prefix) [] = none
strip_prefix (p ∷ prefix) (c ∷ cs) = if p == c then strip_prefix prefix cs else none

unfoldable pub contains : ℕ → List ℕ → Bool
contains x [] = false
contains x (c ∷ cs) = c == x || contains x cs

abbrev pub text_bytes : List ℕ
text_bytes = b'b' ∷ b'y' ∷ b't' ∷ b'e' ∷ b's' ∷ b'=' ∷ []

unfoldable pub closed_range : Option ℕ → Option ℕ → Option ReadRange
closed_range none end = none
closed_range (some start) none = none
closed_range (some start) (some end) =
    if leb start end
    then some (bounded (record { start = start; end = min (end + 1) u64_max }))
    else none

-- The `match` on the trimmed texts around the dash.
unfoldable pub range_of : List ℕ → List ℕ → Option ReadRange
unfolding parse_u64 closed_range
range_of [] end = elim (parse_u64 end) [ none ↦ none | some n ↦ some (suffix n) ]
range_of (c ∷ cs) [] = elim (parse_u64 (c ∷ cs)) [ none ↦ none | some n ↦ some (from n) ]
range_of (c ∷ cs) (d ∷ ds) = closed_range (parse_u64 (c ∷ cs)) (parse_u64 (d ∷ ds))

unfoldable pub parse_spec : List ℕ → Option ReadRange
unfolding contains split_once range_of
parse_spec spec = if contains b',' spec then none else elim (split_once b'-' spec) [
  | none ↦ none
  | some (start, end) ↦ range_of (trim start) (trim end)
]

unfoldable pub parse_range : Option (List ℕ) → Option ReadRange
unfolding strip_prefix parse_spec
parse_range none = none
parse_range (some value) = elim (strip_prefix text_bytes (trim value)) [
  | none ↦ none
  | some spec ↦ parse_spec (trim spec)
]

-- The length of the content and, for a partial answer, the first and last position and the size. The
-- subtraction wraps.
pub record ContentHeaders : Type 0 where
  pub content_length : ℕ
  pub content_range : Option (ℕ × ℕ × ℕ)

unfoldable pub content_headers : Range → ℕ → Bool → ContentHeaders
content_headers r size partial = record {
  content_length = (r.end + u64_mod - r.start) % u64_mod;
  content_range = if partial then some (r.start, (r.end + u64_mod - 1) % u64_mod, size) else none;
}

-- ===== src/Policy/Overrides.antt =====
-- nestor/src/policy.rs, `FetchOverrides::parse`: settings written as `key=value`, separated by
-- white space. Texts are lists of code points. `humantime::parse_duration` is a parameter.
pub mod Laws
use nestor.Common.{
  ℕ, zero, suc, ◌+◌, ◌-◌, ◌*◌, Bool, true, false, ◌&&◌, ◌||◌, List, [], ◌∷◌, Option, none, some,
  ltb, leb, ◌==◌, if◌then◌else◌, Result, ok, err, ok_or, ◌>>=◌, u32_mod,
}
use nestor.Origin.Text.{same, is_whitespace}
use nestor.Policy.{FetchOverrides, no_overrides}

pub data PolicyParseError : Type 0 where
  syntax key : List ℕ → PolicyParseError
  value : List ℕ → List ℕ → PolicyParseError

-- `str::split_whitespace`: the maximal runs of other characters.
unfoldable pub split_whitespace : List ℕ → List (List ℕ)
split_whitespace [] = []
split_whitespace (c ∷ []) = if is_whitespace c then [] else (c ∷ []) ∷ []
split_whitespace (c ∷ d ∷ cs) =
    let rest = split_whitespace (d ∷ cs) in
    if is_whitespace c
    then rest
    else if is_whitespace d
    then (c ∷ []) ∷ rest
    else elim rest [ [] ↦ (c ∷ []) ∷ [] | word ∷ words ↦ (c ∷ word) ∷ words ]

-- `str::split_once` at one character.
unfoldable pub split_once : ℕ → List ℕ → Option (List ℕ × List ℕ)
split_once sep [] = none
split_once sep (c ∷ cs) =
    if c == sep
    then some ([], cs)
    else elim (split_once sep cs) [ none ↦ none | some (a, b) ↦ some (c ∷ a, b) ]

-- The digits of `u32::from_str`: an overflow is an error.
unfoldable pub digits_u32 : ℕ → List ℕ → Option ℕ
digits_u32 acc [] = some acc
digits_u32 acc (c ∷ cs) =
    let next = acc * 10 + (c - b'0') in
    let rest = digits_u32 next cs in
    if leb b'0' c && leb c b'9' && ltb next u32_mod then rest else none

-- `u32::from_str`: a plus sign may lead, and one digit at least is wanted.
unfoldable pub parse_u32 : List ℕ → Option ℕ
unfolding digits_u32
parse_u32 [] = none
parse_u32 (c ∷ []) = if c == b'+' then none else digits_u32 0 (c ∷ [])
parse_u32 (c ∷ d ∷ cs) = if c == b'+' then digits_u32 0 (d ∷ cs) else digits_u32 0 (c ∷ d ∷ cs)

abbrev text_attempts : List ℕ
text_attempts = b'a' ∷ b't' ∷ b't' ∷ b'e' ∷ b'm' ∷ b'p' ∷ b't' ∷ b's' ∷ []

abbrev text_backoff : List ℕ
text_backoff = b'b' ∷ b'a' ∷ b'c' ∷ b'k' ∷ b'o' ∷ b'f' ∷ b'f' ∷ []

abbrev text_backoff_max : List ℕ
text_backoff_max = b'b' ∷ b'a' ∷ b'c' ∷ b'k' ∷ b'o' ∷ b'f' ∷ b'f' ∷ b'_' ∷ b'm' ∷ b'a' ∷ b'x' ∷ []

abbrev text_first_byte : List ℕ
text_first_byte = b'f' ∷ b'i' ∷ b'r' ∷ b's' ∷ b't' ∷ b'_' ∷ b'b' ∷ b'y' ∷ b't' ∷ b'e' ∷ []

abbrev text_attempt : List ℕ
text_attempt = b'a' ∷ b't' ∷ b't' ∷ b'e' ∷ b'm' ∷ b'p' ∷ b't' ∷ []

abbrev text_deadline : List ℕ
text_deadline = b'd' ∷ b'e' ∷ b'a' ∷ b'd' ∷ b'l' ∷ b'i' ∷ b'n' ∷ b'e' ∷ []

abbrev text_hedge : List ℕ
text_hedge = b'h' ∷ b'e' ∷ b'd' ∷ b'g' ∷ b'e' ∷ []

-- The values of `hedge`.
unfoldable pub parse_switch : List ℕ → Option Bool
parse_switch v =
    if same v (b'o' ∷ b'n' ∷ []) || same v (b't' ∷ b'r' ∷ b'u' ∷ b'e' ∷ [])
    then some true
    else if same v (b'o' ∷ b'f' ∷ b'f' ∷ []) || same v (b'f' ∷ b'a' ∷ b'l' ∷ b's' ∷ b'e' ∷ [])
    then some false
    else none

module _ (parse_duration : List ℕ → Option ℕ) where
  -- `Some(f(value)?)` with the error of a bad value.
  unfoldable pub setting {ℓ} :
      {A : Type ℓ}
      → List ℕ
      → List ℕ
      → Option A
      → (A → FetchOverrides)
      → Result PolicyParseError FetchOverrides
  setting k v none f = err (value k v)
  setting k v (some a) f = ok (f a)

  -- The `match` on the key.
  unfoldable pub apply : FetchOverrides → List ℕ → List ℕ → Result PolicyParseError FetchOverrides
  apply o k v =
      if same k text_attempts
      then setting k v (parse_u32 v) (λ n. record o { attempts = some n })
      else if same k text_backoff
      then setting k v (parse_duration v) (λ d. record o { backoff = some d })
      else if same k text_backoff_max
      then setting k v (parse_duration v) (λ d. record o { backoff_max = some d })
      else if same k text_first_byte
      then setting k v (parse_duration v) (λ d. record o { first_byte = some d })
      else if same k text_attempt
      then setting k v (parse_duration v) (λ d. record o { attempt = some d })
      else if same k text_deadline
      then setting k v (parse_duration v) (λ d. record o { deadline = some d })
      else if same k text_hedge
      then setting k v (parse_switch v) (λ b. record o { hedge = some b })
      else err (key k)

  -- The loop over the pairs.
  unfoldable pub parse_pairs :
      FetchOverrides → List (List ℕ) → Result PolicyParseError FetchOverrides
  parse_pairs o [] = ok o
  parse_pairs o (pair ∷ pairs) = ok_or (split_once b'=' pair) (syntax pair) >>= λ kv.
      apply o kv.0 kv.1 >>= λ o'. parse_pairs o' pairs

  -- `FetchOverrides::parse`.
  unfoldable pub parse : List ℕ → Result PolicyParseError FetchOverrides
  unfolding parse_pairs split_whitespace
  parse text = parse_pairs no_overrides (split_whitespace text)

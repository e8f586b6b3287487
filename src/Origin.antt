-- ===== src/Origin.antt =====
-- nestor/src/origin.rs: object metadata and the HTTP preconditions evaluated against it. Texts are
-- lists of code points, bytes are numbers below 256.
pub mod Text
pub mod Conditions
pub mod Evaluation
use Text.{from_utf8, split_on, trim, trim_weak, same}
use nestor.Common.{
  ℕ, ◌+◌, ◌/◌, ◌≡◌, List, [], ◌∷◌, Bool, ◌&&◌, ◌||◌, not, true, false, Option, none, some, ltb,
  if◌then◌else◌, Range,
}

-- An instant of the wall clock: nanoseconds before or since the Unix epoch.
pub data SystemTime : Type 0 where
  before since : ℕ → SystemTime

pub record ObjectMeta : Type 0 where
  pub size : ℕ
  pub etag : Option (List ℕ)
  pub last_modified : Option SystemTime

-- `etag.as_deref().and_then(from_utf8).map(trim_start_matches("W/"))`.
unfoldable pub strong_etag : ObjectMeta → Option (List ℕ)
strong_etag m = elim m.etag [
  | none ↦ none
  | some bytes ↦ elim (from_utf8 bytes) [ none ↦ none | some text ↦ some (trim_weak text) ]
]

unfoldable pub candidate_matches : Option (List ℕ) → List ℕ → Bool
candidate_matches etag candidate =
    same candidate (b'*' ∷ []) || elim etag [ none ↦ false | some e ↦ same (trim_weak candidate) e ]

unfoldable pub any_matches : Option (List ℕ) → List (List ℕ) → Bool
any_matches etag [] = false
any_matches etag (c ∷ cs) = candidate_matches etag (trim c) || any_matches etag cs

unfoldable pub etag_matches : ObjectMeta → List ℕ → Bool
etag_matches m candidates = any_matches (strong_etag m) (split_on b',' candidates)

unfoldable pub whole_seconds : SystemTime → ℕ
whole_seconds (before n) = 0
whole_seconds (since n) = n / 1_000_000_000

unfoldable pub modified_after : ObjectMeta → SystemTime → Option Bool
modified_after m instant = elim m.last_modified [
  | none ↦ none
  | some modified ↦ some (ltb (whole_seconds instant) (whole_seconds modified))
]

pub record Preconditions : Type 0 where
  pub if_match : Option (List ℕ)
  pub if_none_match : Option (List ℕ)
  pub if_modified_since : Option SystemTime
  pub if_unmodified_since : Option SystemTime

pub data Precondition : Type 0 where
  satisfied not_modified failed : Precondition

-- `modified_after(since) == Some(expected)`.
unfoldable pub modified_is : ObjectMeta → SystemTime → Bool → Bool
modified_is m instant expected = elim (modified_after m instant) [
  | none ↦ false
  | some b ↦ elim expected [ true ↦ b | false ↦ not b ]
]

unfoldable pub match_fails : Preconditions → ObjectMeta → Bool
match_fails p m = elim p.if_match [
  | none ↦ false
  | some candidates ↦ not (etag_matches m candidates)
]

unfoldable pub unmodified_fails : Preconditions → ObjectMeta → Bool
unmodified_fails p m = elim p.if_unmodified_since [ none ↦ false | some t ↦ modified_is m t true ]

-- What is left of `evaluate` once `if_match` and `if_unmodified_since` have passed.
unfoldable pub evaluate_cached : Preconditions → ObjectMeta → Precondition
evaluate_cached p m = elim p.if_none_match [
  | some candidates ↦ if etag_matches m candidates then not_modified else satisfied
  | none ↦ elim p.if_modified_since [
    | none ↦ satisfied
    | some t ↦ if modified_is m t false then not_modified else satisfied
  ]
]

unfoldable pub evaluate : Preconditions → ObjectMeta → Precondition
evaluate p m =
    if match_fails p m then failed else if unmodified_fails p m then failed else evaluate_cached p m

pub record GetOptions : Type 0 where
  pub range : Option Range
  pub if_match : Option (List ℕ)
  pub if_none_match : Option (List ℕ)

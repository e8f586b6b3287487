-- ===== src/Tests/Origins.antt =====
-- nestor/src/origin.rs: preconditions of an object with a weak tag.
use nestor.Common.{ℕ, ◌≡◌, ◌↔◌, refl, List, [], ◌∷◌, some, none, true}
use nestor.Origin.{
  ObjectMeta, since, Preconditions, not_modified, failed, strong_etag, candidate_matches,
  any_matches, etag_matches, whole_seconds, modified_after, modified_is, match_fails,
  unmodified_fails, evaluate_cached, evaluate,
}
use nestor.Origin.Text.{
  from_utf8, utf8_loop, utf8_char, utf8_two, utf8_three, utf8_four, within, split_on, trim,
  trim_start, trim_weak, is_whitespace, same,
}
use nestor.Origin.Evaluation.{Fails, Unchanged, evaluate_iff}

-- The tag `W/"a"`, modified ten seconds after the epoch.
abbrev page : ObjectMeta
page = record {
  size = 100;
  etag = some (b'W' ∷ b'/' ∷ b'"' ∷ b'a' ∷ b'"' ∷ []);
  last_modified = some (since 10_500_000_000);
}

-- `"b", "a"`.
abbrev tags : List ℕ
tags = b'"' ∷ b'b' ∷ b'"' ∷ b',' ∷ b' ' ∷ b'"' ∷ b'a' ∷ b'"' ∷ []

abbrev conditional : Preconditions
conditional = record {
  if_match = none;
  if_none_match = some tags;
  if_modified_since = none;
  if_unmodified_since = some (since 10_000_000_000);
}

listed : etag_matches page tags ≡ true
unfolding etag_matches any_matches candidate_matches strong_etag from_utf8 utf8_loop utf8_char
    utf8_two utf8_three utf8_four within split_on trim trim_start trim_weak is_whitespace same
listed = refl

unchanged : evaluate conditional page ≡ not_modified
unfolding evaluate evaluate_cached match_fails unmodified_fails modified_is modified_after
    whole_seconds
unchanged = rw listed refl

evaluate_iff_example :
    ((evaluate conditional page ≡ failed) ↔ Fails conditional page)
    × ((evaluate conditional page ≡ not_modified)
        ↔ ((¬ Fails conditional page) × Unchanged conditional page))
evaluate_iff_example = evaluate_iff conditional page

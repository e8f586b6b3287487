-- ===== src/Origin/Conditions.antt =====
-- nestor/src/origin.rs, `etag_matches` and `modified_after`, against the rules of HTTP.
use nestor.Common.{
  ℕ, ◌*◌, ◌≤◌, ◌<◌, ltb, ◌≡◌, ◌↔◌, ◌⊎◌, inl, inr, refl, sym, ap, ◌∙◌, ◌/◌, List, [], ◌∷◌, true,
  Option, none, some, Bool-cases, Option-cases, arith,
}
use nestor.Origin.Text.{split_on, trim, trim_weak, from_utf8, same, same_iff}
use nestor.Origin.{
  ObjectMeta, SystemTime, before, since, whole_seconds, strong_etag, candidate_matches, any_matches,
  etag_matches,
}

-- Some member of the list satisfies the predicate.
abbrev pub Any {ℓ} : {A : Type ℓ} → (A → Type 0) → List A → Type 0
Any P [] = ⊥
Any P (x ∷ xs) = P x ⊎ Any P xs

-- A candidate names the entity tag, which must be valid text, weak marks left out on both sides; or
-- it is the wildcard.
abbrev pub Names : ObjectMeta → List ℕ → Type 0
Names m part =
    (trim part ≡ b'*' ∷ [])
    ⊎ ((bytes : List ℕ) × (text : List ℕ) × (m.etag ≡ some bytes)
        × (from_utf8 bytes ≡ some text)
        × (trim_weak (trim part) ≡ trim_weak text))

strong_etag_iff :
    (m : ObjectMeta) (c : List ℕ)
    → ((e : List ℕ) × (strong_etag m ≡ some e) × (c ≡ e)) ↔ (
        (bytes : List ℕ) × (text : List ℕ) × (m.etag ≡ some bytes)
        × (from_utf8 bytes ≡ some text)
        × (c ≡ trim_weak text))
unfolding strong_etag
strong_etag_iff m c = go m.etag
  where
    impossible : {e : List ℕ} → ◌≡◌ {A = Option (List ℕ)} none (some e) → ⊥
    impossible h = cc

    inside : {d e : List ℕ} → ◌≡◌ {A = Option (List ℕ)} (some d) (some e) → d ≡ e
    inside h = cc

    go :
        (o : Option (List ℕ))
        → ((e : List ℕ) × ((elim o [
          | none ↦ none
          | some bytes ↦ elim (from_utf8 bytes) [ none ↦ none | some text ↦ some (trim_weak text) ]
        ])
              ≡ some e)
            × (c ≡ e))
          ↔ ((bytes : List ℕ) × (text : List ℕ) × (o ≡ some bytes)
              × (from_utf8 bytes ≡ some text)
              × (c ≡ trim_weak text))
    go none = (λ (e, h, k). absurd cc, λ (bytes, text, h, u, k). absurd cc)
    go (some bytes) = elim (Option-cases (from_utf8 bytes)) [
      | inl n ↦ (
        λ (e, h, k). absurd (impossible (rw n at h)),
        λ (bytes', text, h, u, k).
            let same : bytes ≡ bytes' = cc in absurd (impossible (sym n ∙ ap from_utf8 same ∙ u)),
      )
      | inr (text, u) ↦ (
        λ (e, h, k). (bytes, text, refl, u, k ∙ sym (inside (rw u at h))),
        λ (bytes', text', h, u', k).
            let same : bytes ≡ bytes' = cc in
            let same' : text ≡ text' = inside (sym u ∙ ap from_utf8 same ∙ u') in
            rw u (trim_weak text, refl, k ∙ ap trim_weak (sym same')),
      )
    ]

candidate_iff :
    (etag : Option (List ℕ)) (c : List ℕ)
    → (candidate_matches etag c ≡ true)
      ↔ ((c ≡ b'*' ∷ []) ⊎ ((e : List ℕ) × (etag ≡ some e) × (trim_weak c ≡ e)))
unfolding candidate_matches
candidate_iff none c = ground (arith, same_iff c (b'*' ∷ []))
candidate_iff (some e) c = (
  λ h. elim (Bool-cases (same c (b'*' ∷ []))) [
    | inl t ↦ inl ((same_iff c (b'*' ∷ [])).0 t)
    | inr t ↦ inr (e, refl, (same_iff (trim_weak c) e).0 (rw t at h))
  ],
  λ h. elim h [
    | inl t ↦ rw ((same_iff c (b'*' ∷ [])).1 t) refl
    | inr (e', p, q) ↦ ground (arith, same_iff c (b'*' ∷ []), same_iff (trim_weak c) e)
  ],
)

named_iff :
    (m : ObjectMeta) (c : List ℕ) → (candidate_matches (strong_etag m) (trim c) ≡ true) ↔ Names m c
named_iff m c =
    let one = candidate_iff (strong_etag m) (trim c) in
    let tag = strong_etag_iff m (trim_weak (trim c)) in
    (
      λ h. elim (one.0 h) [ inl w ↦ inl w | inr t ↦ inr (tag.0 t) ],
      λ h. elim h [ inl w ↦ one.1 (inl w) | inr t ↦ one.1 (inr (tag.1 t)) ],
    )

any_matches_iff :
    (m : ObjectMeta) (parts : List (List ℕ))
    → (any_matches (strong_etag m) parts ≡ true) ↔ Any (Names m) parts
unfolding any_matches
any_matches_iff m [] = (λ h. absurd (cc h), λ h. absurd h)
any_matches_iff m (c ∷ cs) =
    let one = named_iff m c in
    let rest = any_matches_iff m cs in
    (
      λ h. elim (Bool-cases (candidate_matches (strong_etag m) (trim c))) [
        | inl t ↦ inl (one.0 t)
        | inr t ↦ inr (rest.0 (rw t at h))
      ],
      λ h. elim h [ inl t ↦ rw (one.1 t) refl | inr t ↦ ground (arith, rest.1 t) ],
    )

-- A condition on entity tags holds exactly if one of its comma-separated parts, without the blanks
-- around it, is the wildcard or equals the object's tag, weak marks left out on both sides.
pub etag_matches_iff :
    (m : ObjectMeta) (candidates : List ℕ)
    → (etag_matches m candidates ≡ true) ↔ Any (Names m) (split_on b',' candidates)
unfolding etag_matches
etag_matches_iff m candidates = any_matches_iff m (split_on b',' candidates)

-- The object was modified in a later second than the date: a whole second begins after the date and
-- not after the modification. A time before the epoch counts as second 0.
abbrev pub Later : SystemTime → SystemTime → Type 0
Later (before n) t = ⊥
Later (since n) (before k) = 1_000_000_000 ≤ n
Later (since n) (since k) = (s : ℕ) × (k < s * 1_000_000_000) × (s * 1_000_000_000 ≤ n)

pub Later-iff :
    (modified t : SystemTime)
    → (ltb (whole_seconds t) (whole_seconds modified) ≡ true) ↔ Later modified t
unfolding whole_seconds
Later-iff (before n) (before k) = ground arith
Later-iff (before n) (since k) = ground arith
Later-iff (since n) (before k) = ground arith
Later-iff (since n) (since k) = (
  λ h. (n / 1_000_000_000, ground arith, omega arith),
  λ (s, lo, hi). let less : k / 1_000_000_000 < n / 1_000_000_000 = omega arith in ground arith,
)

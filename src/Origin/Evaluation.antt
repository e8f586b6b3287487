-- ===== src/Origin/Evaluation.antt =====
-- nestor/src/origin.rs, `Preconditions::evaluate`, against the rules of HTTP.
use nestor.Origin.Conditions.{Any, Names, Later, etag_matches_iff, Later-iff}
use nestor.Common.{
  ℕ, ltb, ◌≡◌, ◌≢◌, ◌↔◌, ◌⊎◌, inl, inr, refl, sym, ap, subst, Bool, List, true, false, Option, none,
  some, Bool-cases, Option-cases, arith, ◌||◌,
}
use nestor.Origin.Text.{split_on, same}
use nestor.Origin.{
  ObjectMeta, SystemTime, whole_seconds, Preconditions, not_modified, failed, etag_matches,
  modified_after, modified_is, match_fails, unmodified_fails, evaluate_cached, evaluate,
}

-- The conditions that answer 412.
abbrev pub Fails : Preconditions → ObjectMeta → Type 0
Fails p m =
    ((c : List ℕ) × (p.if_match ≡ some c) × (¬ Any (Names m) (split_on b',' c)))
    ⊎ ((t : SystemTime) × (modified : SystemTime) × (p.if_unmodified_since ≡ some t)
        × (m.last_modified ≡ some modified)
        × Later modified t)

-- The conditions that answer 304, where none of those above holds.
abbrev pub Unchanged : Preconditions → ObjectMeta → Type 0
Unchanged p m =
    ((c : List ℕ) × (p.if_none_match ≡ some c) × Any (Names m) (split_on b',' c))
    ⊎ ((t : SystemTime) × (modified : SystemTime) × (p.if_none_match ≡ none)
        × (p.if_modified_since ≡ some t)
        × (m.last_modified ≡ some modified)
        × (¬ Later modified t))

-- The same with the tests of the code.
abbrev FailsTests : Preconditions → ObjectMeta → Type 0
FailsTests p m =
    ((c : List ℕ) × (p.if_match ≡ some c) × (etag_matches m c ≡ false))
    ⊎ ((t : SystemTime) × (p.if_unmodified_since ≡ some t) × (modified_after m t ≡ some true))

abbrev UnchangedTests : Preconditions → ObjectMeta → Type 0
UnchangedTests p m =
    ((c : List ℕ) × (p.if_none_match ≡ some c) × (etag_matches m c ≡ true))
    ⊎ ((t : SystemTime) × (p.if_none_match ≡ none)
        × (p.if_modified_since ≡ some t)
        × (modified_after m t ≡ some false))

match_fails_iff :
    (p : Preconditions) (m : ObjectMeta)
    → (match_fails p m ≡ true) ↔ ((c : List ℕ) × (p.if_match ≡ some c) × (etag_matches m c ≡ false))
unfolding match_fails
match_fails_iff p m = elim (Option-cases p.if_match) [
  | inl e ↦ ground arith
  | inr (c, e) ↦ (λ h. (c, e, ground arith), λ h. ground (arith, h.1, h.2))
]

unmodified_fails_iff :
    (p : Preconditions) (m : ObjectMeta)
    → (unmodified_fails p m ≡ true)
      ↔ ((t : SystemTime) × (p.if_unmodified_since ≡ some t) × (modified_after m t ≡ some true))
unfolding unmodified_fails modified_is
unmodified_fails_iff p m = elim (Option-cases p.if_unmodified_since) [
  | inl e ↦ ground arith
  | inr (t, e) ↦ (λ h. (t, e, ground arith), λ h. ground (arith, h.1, h.2))
]

cached_iff :
    (p : Preconditions) (m : ObjectMeta) → (evaluate_cached p m ≡ not_modified) ↔ UnchangedTests p m
unfolding evaluate_cached modified_is
cached_iff p m = elim (Option-cases p.if_none_match) [
  | inl e ↦ elim (Option-cases p.if_modified_since) [
    | inl e' ↦ (λ h. ground arith, λ h. ground arith)
    | inr (t, e') ↦ (λ h. inr (t, e, e', ground arith), λ h. ground arith)
  ]
  | inr (c, e) ↦ (λ h. inl (c, e, ground arith), λ h. ground arith)
]

cached-ne-failed : (p : Preconditions) (m : ObjectMeta) → evaluate_cached p m ≢ failed
unfolding evaluate_cached
cached-ne-failed p m = ground arith

early_iff :
    (p : Preconditions) (m : ObjectMeta)
    → ((match_fails p m || unmodified_fails p m) ≡ true) ↔ FailsTests p m
early_iff p m = (
  λ h. elim (Bool-cases (match_fails p m)) [
    | inl t ↦ inl ((match_fails_iff p m).0 t)
    | inr t ↦ inr ((unmodified_fails_iff p m).0 (rw t at h))
  ],
  λ h. elim h [
    | inl f ↦ rw ((match_fails_iff p m).1 f) refl
    | inr f ↦ let t = (unmodified_fails_iff p m).1 f in ground arith
  ],
)

evaluate_tests :
    (p : Preconditions) (m : ObjectMeta)
    → ((evaluate p m ≡ failed) ↔ FailsTests p m)
      × ((evaluate p m ≡ not_modified) ↔ ((¬ FailsTests p m) × UnchangedTests p m))
unfolding evaluate
evaluate_tests p m = (
  (λ h. fails.0 (ground (arith, cached-ne-failed p m)), λ h. failing h),
  (unchanged, λ h. passing h.0 h.1),
)
  where
    fails : ((match_fails p m || unmodified_fails p m) ≡ true) ↔ FailsTests p m
    fails = early_iff p m

    failing : FailsTests p m → evaluate p m ≡ failed
    failing h = let t = fails.1 h in ground arith

    unchanged : evaluate p m ≡ not_modified → (¬ FailsTests p m) × UnchangedTests p m
    unchanged h =
        (λ f. let t = failing f in let u = h in absurd (cc), (cached_iff p m).0 (ground arith))

    passing : ¬ FailsTests p m → UnchangedTests p m → evaluate p m ≡ not_modified
    passing n u = elim (Bool-cases (match_fails p m || unmodified_fails p m)) [
      | inl t ↦ absurd (n (fails.0 t))
      | inr t ↦ let c = (cached_iff p m).1 u in ground arith
    ]

match_iff :
    (m : ObjectMeta) (c : List ℕ) → (etag_matches m c ≡ false) ↔ (¬ Any (Names m) (split_on b',' c))
match_iff m c =
    let named = etag_matches_iff m c in
    (
      λ h any. let t = named.1 any in absurd (ground arith),
      λ n. elim (Bool-cases (etag_matches m c)) [ inl t ↦ absurd (n (named.0 t)) | inr f ↦ f ],
    )

-- What `modified_after` tells, for a date that is later and for one that is not.
after_iff :
    (m : ObjectMeta) (t : SystemTime)
    → ((modified_after m t ≡ some true)
        ↔ ((modified : SystemTime) × (m.last_modified ≡ some modified) × Later modified t))
      × ((modified_after m t ≡ some false)
          ↔ ((modified : SystemTime) × (m.last_modified ≡ some modified) × (¬ Later modified t)))
unfolding modified_after
after_iff m t = go m.last_modified
  where
    told : {a b : Bool} → ◌≡◌ {A = Option Bool} (some a) (some b) → a ≡ b
    told h = cc

    own : {a b : SystemTime} → ◌≡◌ {A = Option SystemTime} (some a) (some b) → a ≡ b
    own h = cc

    go :
        (o : Option SystemTime)
        → let r : Option Bool = elim o [
          | none ↦ none
          | some modified ↦ some (ltb (whole_seconds t) (whole_seconds modified))
        ] in
          ((r ≡ some true) ↔ ((modified : SystemTime) × (o ≡ some modified) × Later modified t))
          × ((r ≡ some false)
              ↔ ((modified : SystemTime) × (o ≡ some modified) × (¬ Later modified t)))
    go none = (
      (λ h. absurd cc, λ (modified, h, l). absurd cc),
      (λ h. absurd cc, λ (modified, h, l). absurd cc),
    )
    go (some modified) =
        let later = Later-iff modified t in
        (
          (
            λ h. (modified, refl, later.0 (told h)),
            λ (modified', h, l). ap some (later.1 (subst (λ u. Later u t) (sym (own h)) l)),
          ),
          (
            λ h.
                (modified, refl, λ l. let a = later.1 l in let b = told h in absurd (ground arith)),
            λ (modified', h, l).
                elim (Bool-cases (ltb (whole_seconds t) (whole_seconds modified))) [
                  | inl y ↦ absurd (l (subst (λ u. Later u t) (own h) (later.0 y)))
                  | inr n ↦ ap some n
                ],
          ),
        )

Fails-iff : (p : Preconditions) (m : ObjectMeta) → FailsTests p m ↔ Fails p m
Fails-iff p m = (
  λ h. elim h [
    | inl (c, e, n) ↦ inl (c, e, (match_iff m c).0 n)
    | inr (t, e, a) ↦ let (u, k, l) = (after_iff m t).0.0 a in inr (t, u, e, k, l)
  ],
  λ h. elim h [
    | inl (c, e, n) ↦ inl (c, e, (match_iff m c).1 n)
    | inr (t, u, e, k, l) ↦ inr (t, e, (after_iff m t).0.1 (u, k, l))
  ],
)

Unchanged-iff : (p : Preconditions) (m : ObjectMeta) → UnchangedTests p m ↔ Unchanged p m
Unchanged-iff p m = (
  λ h. elim h [
    | inl (c, e, n) ↦ inl (c, e, (etag_matches_iff m c).0 n)
    | inr (t, n, e, a) ↦ let (u, k, l) = (after_iff m t).1.0 a in inr (t, u, n, e, k, l)
  ],
  λ h. elim h [
    | inl (c, e, n) ↦ inl (c, e, (etag_matches_iff m c).1 n)
    | inr (t, u, n, e, k, l) ↦ inr (t, n, e, (after_iff m t).1.1 (u, k, l))
  ],
)

-- `evaluate` fails exactly where `If-Match` names no tag of the object or the object was modified
-- after the `If-Unmodified-Since` date; it reports "not modified" exactly where it does not fail
-- and `If-None-Match` names the tag, or is absent and the object was not modified after the
-- `If-Modified-Since` date, in seconds. A date condition is skipped for an object with no modification time.
pub evaluate_iff :
    (p : Preconditions) (m : ObjectMeta)
    → ((evaluate p m ≡ failed) ↔ Fails p m)
      × ((evaluate p m ≡ not_modified) ↔ ((¬ Fails p m) × Unchanged p m))
evaluate_iff p m =
    let (fails, same) = evaluate_tests p m in
    let f = Fails-iff p m in
    let u = Unchanged-iff p m in
    (
      (λ h. f.0 (fails.0 h), λ h. fails.1 (f.1 h)),
      (
        λ h. let (n, t) = same.0 h in (λ k. n (f.1 k), u.0 t),
        λ h. same.1 (λ k. h.0 (f.0 k), u.1 h.1),
      ),
    )

-- ===== src/Gateway/Routing.antt =====
-- nestor-s3/src/addressing.rs and nestor-s3/src/routes.rs: buckets, keys and routes.
use nestor.Common.{
  ℕ, ◌≡◌, ◌≢◌, ◌⊎◌, ◌↔◌, inl, inr, refl, sym, ap, ◌∙◌, List, [], ◌∷◌, true, Option, none, some,
  ◌==◌, Bool-cases, Option-cases, Result-cases, Result, ok, err, ok_injective, arith,
}
use nestor.Gateway.{
  path, Target, S3Error, non_empty, validated_bucket, without_slash, host_bucket, path_parts,
  with_bucket, path_target, serve, forward, panics, decoded, resolve, served, dispatched,
}
use nestor.Policy.Overrides.{split_once}

-- A request that can be cached reaches the expectation of a bucket exactly if there is a key and no
-- bucket.
dispatched_iff :
    (t : Target)
    → (dispatched true [] t ≡ panics) ↔ ((t.bucket ≡ none) × ((k : List ℕ) × (t.key ≡ some k)))
unfolding dispatched served
dispatched_iff t = go t.key t.bucket
  where
    go :
        (key bucket : Option (List ℕ))
        → ((elim key [
          | none ↦ forward t
          | some key ↦ elim bucket [ none ↦ panics | some bucket ↦ serve bucket key ]
        ])
            ≡ panics)
          ↔ ((bucket ≡ none) × ((k : List ℕ) × (key ≡ some k)))
    go none bucket = (λ e. absurd (ground arith), λ h. absurd (ground (arith, h.1.1)))
    go (some key) none = (λ e. (refl, (key, refl)), λ h. refl)
    go (some key) (some bucket) = (λ e. absurd (ground arith), λ h. absurd (ground (arith, h.0)))

-- The target of a path, if there is one, has the key, and a bucket if the path names one.
path_target-fields :
    (bucket key : Option (List ℕ)) (t : Target)
    → path_target bucket key ≡ ok t
    → (t.key ≡ key) × ((t.bucket ≡ none) ↔ (bucket ≡ none))
unfolding path_target with_bucket
path_target-fields none key t e =
    let own : ◌≡◌ {A = Target} (record { bucket = none; key = key }) t = ok_injective _ _ e in
    (ap (λ t. t.key) (sym own), (λ h. refl, λ h. ap (λ t. t.bucket) (sym own)))
path_target-fields (some bucket) key t e = elim (Result-cases (validated_bucket bucket)) [
  | inl (x, v) ↦ absurd (refused (rw (v, path_target, with_bucket) at e))
  | inr (b, v) ↦
      let own : ◌≡◌ {A = Target} (record { bucket = some b; key = key }) t =
        ok_injective _ _ (rw (v, path_target, with_bucket) at e) in
      let has : some b ≡ t.bucket = ap (λ (t : Target). t.bucket) own in
      (ap (λ (t : Target). t.key) (sym own), (λ h. absurd cc, λ h. absurd cc))
]
  where
    refused : {x : S3Error} → ◌≡◌ {A = Result S3Error Target} (err x) (ok t) → ⊥
    refused h = cc

-- A path is a slash and a nonempty rest, and names a key and no bucket; or it is not, and names no
-- key, or a bucket.
abbrev Splits : List ℕ → Type 0
Splits rest =
    ((c : ℕ) × (cs : List ℕ) × (rest ≡ b'/' ∷ c ∷ cs) × (path_parts rest ≡ ([], some (c ∷ cs))))
    ⊎ (((c : ℕ) (cs : List ℕ) → rest ≢ b'/' ∷ c ∷ cs)
        × (((path_parts rest).1 ≡ none)
            ⊎ ((b : ℕ) × (bs : List ℕ) × ((path_parts rest).0 ≡ b ∷ bs))))

slash-Splits : (x : ℕ) (cs : List ℕ) → (x == b'/') ≡ true → Splits (x ∷ cs)
unfolding path_parts non_empty split_once
slash-Splits x [] t =
    inr ((λ c ds e. absurd (ground arith)), inl (rw (t, path_parts, split_once) refl))
slash-Splits x (c ∷ cs) t =
    let k : x ≡ b'/' = ground arith in
    inl (c, cs, ap (λ j. j ∷ c ∷ cs) k, rw (t, path_parts, split_once) refl)

path_parts-Splits : (rest : List ℕ) → Splits rest
unfolding path_parts non_empty split_once
path_parts-Splits [] = inr ((λ c cs e. absurd (ground arith)), inl refl)
path_parts-Splits (x ∷ cs) = elim (Bool-cases (x == b'/')) [
  | inl t ↦ slash-Splits x cs t
  | inr f ↦ elim (Option-cases (split_once b'/' cs)) [
    | inl n ↦ inr ((λ c ds e. absurd (ground arith)), inl (rw (f, n, path_parts, split_once) refl))
    | inr ((a, b), n) ↦
        inr ((λ c ds e. absurd (ground arith)), inr (x, a, rw (f, n, path_parts, split_once) refl))
  ]
]

module _ (percent_decode : List ℕ → List ℕ) where
  -- With path addressing, a GET or HEAD request without a query reaches the expectation of a bucket
  -- that is not there exactly if its path is two slashes and a nonempty rest.
  pub dispatched-panics :
      (host rest : List ℕ) (t : Target)
      → resolve percent_decode path host (b'/' ∷ rest) ≡ ok t
      → (dispatched true [] t ≡ panics) ↔ ((c : ℕ) × (cs : List ℕ) × (rest ≡ b'/' ∷ c ∷ cs))
  unfolding resolve without_slash host_bucket decoded non_empty
  dispatched-panics host rest t e =
      let parts = path_parts rest in
      let named : path_target (non_empty parts.0) (decoded percent_decode parts.1) ≡ ok t = e in
      let (key, bucket) = path_target-fields _ _ t named in
      elim (path_parts-Splits rest) [
        | inl (c, cs, form, split) ↦ (
          λ h. (c, cs, form),
          λ h. (dispatched_iff t).1 (
            bucket.1 (ap (λ (q : List ℕ × Option (List ℕ)). non_empty q.0) split),
            (
              percent_decode (c ∷ cs),
              key ∙ ap (λ (q : List ℕ × Option (List ℕ)). decoded percent_decode q.1) split,
            ),
          ),
        )
        | inr (other, inl keyless) ↦
            let none_there : t.key ≡ none = key ∙ ap (decoded percent_decode) keyless in
            (
              λ h. let (b, (k, there)) = (dispatched_iff t).0 h in absurd cc,
              λ (c, cs, form). absurd (other c cs form),
            )
        | inr (other, inr (b, bs, bucketed)) ↦
            let some_bucket : non_empty parts.0 ≡ some (b ∷ bs) = ap non_empty bucketed in
            (
              λ h. let missing = bucket.0 ((dispatched_iff t).0 h).0 in absurd cc,
              λ (c, cs, form). absurd (other c cs form),
            )
      ]

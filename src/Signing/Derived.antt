-- ===== src/Signing/Derived.antt =====
-- nestor-s3/src/sigv4.rs, `SigningKeys`: the cache against the derivation.
use nestor.Common.{
  ℕ, ◌≤◌, ◌≡◌, inl, inr, refl, sym, ap, ◌∙◌, List, [], ◌∷◌, ◌++◌, Bool, true, ◌&&◌, some, ◌==◌,
  Bool-cases, Option-cases, length, length-append, length-drop, drop, All, arith,
}
use nestor.Origin.Text.{same, same_iff}
use nestor.Signing.{SigningKey, signing_keys_kept, signing_key, find_key, push_key, get_key}

-- A call of `get`.
pub record Asked : Type 0 where
  pub secret : List ℕ
  pub day : List ℕ
  pub region : List ℕ

same_key : {a b : List ℕ} → some a ≡ some b → a ≡ b
same_key h = cc

all_same : (a b c : Bool) → (a && b && c) ≡ true → (a ≡ true) × ((b ≡ true) × (c ≡ true))
all_same a b c h = ground arith

module _ (hmac : List ℕ → List ℕ → List ℕ) where
  -- The entries after the calls.
  unfoldable pub after : List SigningKey → List Asked → List SigningKey
  unfolding get_key
  after entries [] = entries
  after entries (a ∷ calls) = after (get_key hmac entries a.secret a.day a.region).0 calls

  abbrev Derived : SigningKey → Type 0
  Derived e = e.key ≡ signing_key hmac e.secret e.day e.region

  -- All entries are what would be derived, and there are at most eight.
  abbrev Sound : List SigningKey → Type 0
  Sound entries = All Derived entries × (length entries ≤ signing_keys_kept)

  find_key-Derived :
      (entries : List SigningKey) (secret day region key : List ℕ)
      → All Derived entries
      → find_key hmac entries secret day region ≡ some key
      → key ≡ signing_key hmac secret day region
  unfolding find_key
  find_key-Derived [] secret day region key s e = absurd (ground arith)
  find_key-Derived (x ∷ entries) secret day region key s e =
      elim (Bool-cases (same x.day day && same x.region region && same x.secret secret)) [
        | inl t ↦
            let own : x.key ≡ key = same_key (rw t at e) in
            let (a, (b, c)) = all_same _ _ _ t in
            let d = (same_iff x.day day).0 a in
            let r = (same_iff x.region region).0 b in
            let k = (same_iff x.secret secret).0 c in
            let z = s.0 in
            sym own
            ∙ z
            ∙ ap (λ u. signing_key hmac u x.day x.region) k
            ∙ ap (λ u. signing_key hmac secret u x.region) d
            ∙ ap (λ u. signing_key hmac secret day u) r
        | inr f ↦ find_key-Derived entries secret day region key s.1 (rw f at e)
      ]

  All-append : (a b : List SigningKey) → All Derived a → All Derived b → All Derived (a ++ b)
  All-append [] b s t = t
  All-append (x ∷ a) b s t = (s.0, All-append a b s.1 t)

  All-drop : (entries : List SigningKey) → All Derived entries → All Derived (drop 1 entries)
  All-drop [] s = s
  All-drop (x ∷ entries) s = s.1

  push_key-Sound :
      (entries : List SigningKey) (e : SigningKey)
      → Sound entries
      → Derived e
      → Sound (push_key hmac entries e)
  unfolding push_key
  push_key-Sound entries e s d = elim (Bool-cases (length entries == signing_keys_kept)) [
    | inl t ↦
        rw (t, push_key)
          (
            All-append (drop 1 entries) (e ∷ []) (All-drop entries s.0) (d, tt),
            ground (arith, length-append (drop 1 entries) (e ∷ []), length-drop 1 entries),
          )
    | inr f ↦
        rw (f, push_key)
          (
            All-append entries (e ∷ []) s.0 (d, tt),
            ground (arith, length-append entries (e ∷ []), s.1),
          )
  ]

  get_key-Sound :
      (entries : List SigningKey) (secret day region : List ℕ)
      → Sound entries
      → let r = get_key hmac entries secret day region in
        (r.1 ≡ signing_key hmac secret day region) × Sound r.0
  unfolding get_key
  get_key-Sound entries secret day region s =
      elim (Option-cases (find_key hmac entries secret day region)) [
        | inl e ↦ rw (e, get_key) (refl, push_key-Sound entries _ s refl)
        | inr (key, e) ↦ rw (e, get_key) (find_key-Derived entries secret day region key s.0 e, s)
      ]

  after-Sound :
      (calls : List Asked) (entries : List SigningKey) → Sound entries → Sound (after entries calls)
  unfolding after
  after-Sound [] entries s = s
  after-Sound (a ∷ calls) entries s =
      after-Sound calls _ (get_key-Sound entries a.secret a.day a.region s).1

  -- After any calls on an empty cache, `get` returns the key that is derived from the secret, the day
  -- and the region, and at most eight keys are kept.
  pub get_key-after :
      (calls : List Asked) (secret day region : List ℕ)
      → let r = get_key hmac (after [] calls) secret day region in
        (r.1 ≡ signing_key hmac secret day region) × (length r.0 ≤ signing_keys_kept)
  get_key-after calls secret day region =
      let (key, s) =
        get_key-Sound (after [] calls) secret day region (after-Sound calls [] (tt, omega arith)) in
      (key, s.1)

-- ===== src/Policy/Overrides/Laws.antt =====
-- nestor/src/policy.rs, `FetchOverrides::parse` and `FetchPolicy::with`: which setting counts.
use nestor.Common.{
  ℕ, ◌≡◌, refl, ap, ◌∙◌, List, [], ◌∷◌, ◌++◌, Option, none, some, Option-cases, inl, inr, Result,
  ok, err, ◌>>=◌, chain_iff, unwrap_or, max, if◌then◌else◌, arith,
}
use nestor.Origin.Text.{same}
use nestor.Policy.{FetchOverrides, FetchPolicy, Floating, with_overrides}
use nestor.Policy.Overrides.{
  PolicyParseError, setting, apply, parse_pairs, parse_u32, split_once, text_attempts,
}

-- The value that the last pair with the key `attempts` sets, or the one given.
last_attempts : Option ℕ → List (List ℕ) → Option ℕ
last_attempts a [] = a
last_attempts a (pair ∷ pairs) = elim (split_once b'=' pair) [
  | none ↦ last_attempts a pairs
  | some (k, v) ↦ last_attempts (if same k text_attempts then parse_u32 v else a) pairs
]

bind_assoc :
    (r : Result PolicyParseError FetchOverrides)
    (f g h : FetchOverrides → Result PolicyParseError FetchOverrides)
    → ((o : FetchOverrides) → f o ≡ (g o >>= h))
    → (r >>= f) ≡ ((r >>= g) >>= h)
bind_assoc (ok o) f g h e = e o
bind_assoc (err p) f g h e = refl

module _ (parse_duration : List ℕ → Option ℕ) where
  -- Settings are read from left to right: what stands in front decides, by its error or by the
  -- settings that the rest starts from.
  parse_pairs-append :
      (o : FetchOverrides) (xs ys : List (List ℕ))
      → parse_pairs parse_duration o (xs ++ ys)
        ≡ (parse_pairs parse_duration o xs >>= λ o'. parse_pairs parse_duration o' ys)
  unfolding parse_pairs
  parse_pairs-append o [] ys = refl
  parse_pairs-append o (x ∷ xs) ys = elim (Option-cases (split_once b'=' x)) [
    | inl e ↦ rw (e, parse_pairs) refl
    | inr (kv, e) ↦
        rw (e, parse_pairs)
          (bind_assoc (apply parse_duration o kv.0 kv.1) _ _ _ (λ o'. parse_pairs-append o' xs ys))
  ]

  -- One pair sets the field of its key and leaves `attempts` alone unless that is its key.
  apply-attempts :
      (o o' : FetchOverrides) (k v : List ℕ)
      → apply parse_duration o k v ≡ ok o'
      → o'.attempts ≡ (if same k text_attempts then parse_u32 v else o.attempts)
  unfolding apply setting
  apply-attempts o o' k v h = ground arith

  pairs-attempts :
      (o o' : FetchOverrides) (pairs : List (List ℕ))
      → parse_pairs parse_duration o pairs ≡ ok o'
      → o'.attempts ≡ last_attempts o.attempts pairs
  unfolding parse_pairs last_attempts
  pairs-attempts o o' [] h = ground arith
  pairs-attempts o o' (x ∷ xs) h = elim (Option-cases (split_once b'=' x)) [
    | inl e ↦ let h' = rw (e, parse_pairs) at h in absurd (cc)
    | inr (kv, e) ↦
        let (o1, p, q) =
          (chain_iff (apply parse_duration o kv.0 kv.1) _ o').0 (rw (e, parse_pairs) at h) in
        rw (e, last_attempts)
          (pairs-attempts o1 o' xs q
            ∙ ap (λ a. last_attempts a xs) (apply-attempts o o1 kv.0 kv.1 p))
  ]

  -- Where the settings parse, the number of attempts that a read uses is the value of the last
  -- `attempts` pair, or else the one given before, or else the policy's, and at least 1.
  parse_pairs-attempts :
      {F : Type 0} (f : Floating F) (p : FetchPolicy F) (o o' : FetchOverrides)
      (pairs : List (List ℕ))
      → parse_pairs parse_duration o pairs ≡ ok o'
      → (o'.attempts ≡ last_attempts o.attempts pairs)
        × ((with_overrides f p o').attempts
            ≡ max (unwrap_or (last_attempts o.attempts pairs) p.attempts) 1)
  unfolding with_overrides
  parse_pairs-attempts f p o o' pairs h = let e = pairs-attempts o o' pairs h in (e, rw e refl)

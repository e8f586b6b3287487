-- ===== src/Fetch/Hedged.antt =====
-- nestor/src/fetch.rs, `get_hedged`: what a second request can change.
use nestor.Common.{
  ℕ, ◌+◌, ◌≤◌, ◌≡◌, ◌⊎◌, inl, inr, refl, Bool, true, false, Bool-cases, Option, none, some, arith,
}
use nestor.Fetch.Hedge.{Reply, retryable, ready, race, get_hedged}

not_ready : (first : Bool) (a b : ℕ) → ready first a b ≡ false → b ≤ a
unfolding ready
not_ready first a b h = ground arith

module _ {A : Type 0} where
  race_lem :
      (first : Bool) (started hedged : ℕ) (primary secondary : Reply A)
      → let r = (race first started hedged primary secondary).0 in
        ((r ≡ primary) ⊎ (r ≡ secondary))
        × (retryable primary.result ≡ false → (retryable r.result ≡ false) × (r.at ≤ primary.at))
  unfolding race
  race_lem first started hedged primary secondary =
      elim (Bool-cases (ready first primary.at secondary.at)) [
        | inl t ↦ elim (Bool-cases (retryable primary.result)) [
          | inl y ↦ rw (t, y, race) (inr refl, λ h. absurd (clash h))
          | inr y ↦ rw (t, y, race) (inl refl, λ h. (y, omega arith))
        ]
        | inr n ↦ elim (Bool-cases (retryable secondary.result)) [
          | inl y ↦ rw (n, y, race) (inl refl, λ h. (h, omega arith))
          | inr y ↦ rw (n, y, race) (inr refl, λ h. (y, not_ready first primary.at secondary.at n))
        ]
      ]
    where
      clash : true ≡ false → ⊥
      clash h = cc

-- An answer is one of the two. It is a retryable failure only if the first request failed so, and
-- it is not later than a first answer that is not such a failure. If it is the second
-- request's answer, a hedge was sent, and that was before the first answer was there.
pub get_hedged_lem :
    {A : Type 0} (delay : Option ℕ) (permit early first : Bool) (started : ℕ)
    (primary secondary : Reply A)
    → let r = (get_hedged delay permit early first started primary secondary).0 in
      ((r ≡ primary)
        ⊎ ((r ≡ secondary)
            × (permit ≡ true)
            × ((d : ℕ) × (delay ≡ some d) × (started + d ≤ primary.at))))
      × (retryable primary.result ≡ false → (retryable r.result ≡ false) × (r.at ≤ primary.at))
unfolding get_hedged race ready
get_hedged_lem none permit early first started primary secondary = (inl refl, λ h. (h, omega arith))
get_hedged_lem (some d) permit early first started primary secondary =
    elim (Bool-cases (ready early primary.at (started + d))) [
      | inl t ↦ rw (t, get_hedged) (inl refl, λ h. (h, omega arith))
      | inr n ↦ elim (Bool-cases permit) [
        | inr p ↦ rw (n, p, get_hedged) (inl refl, λ h. (h, omega arith))
        | inl p ↦
            rw (n, p, get_hedged)
              (let (which, good) = race_lem first started (started + d) primary secondary in
                (
                  elim which [
                    | inl e ↦ inl e
                    | inr e ↦ inr (e, refl, (d, refl, not_ready early primary.at (started + d) n))
                  ],
                  good,
                ))
      ]
    ]

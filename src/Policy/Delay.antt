-- ===== src/Policy/Delay.antt =====
-- nestor/src/policy.rs, `HedgeConfig`: validation, the raw form, and the delay.
use nestor.Common.{
  ℕ, ◌≤◌, ◌≡◌, refl, sym, subst, ◌⊎◌, inl, inr, min, max, false, Bool-cases, Option-cases, ◌||◌,
  Option, none, some, ltb_of_le, ok, arith,
}
use nestor.Policy.{
  Floating, HedgeAfter, HedgeConfig, RawHedge, factor, quantile, default_hedge, new_hedge,
  factor_hedge, quantile_hedge, hedge_of, try_from_raw, estimate, delay, raw_of, to_raw,
}

module _ {F : Type 0} (f : Floating F) where
  -- The factor or the quantile has passed its test.
  abbrev pub Checked : HedgeAfter F → Type 0
  Checked (factor x) = (f.is_nan x || f.le_zero x) ≡ false
  Checked (quantile x) = (f.is_nan x || f.le_zero x || f.gt_one x) ≡ false

  abbrev pub IsValid : HedgeConfig F → Type 0
  IsValid h = Checked h.after × (h.min_delay ≤ h.max_delay)

  new_hedge-eq :
      (a : HedgeAfter F) (lo hi : ℕ) (h : HedgeConfig F)
      → new_hedge f a lo hi ≡ ok h
      → (h.after ≡ a) × (h.min_delay ≡ lo) × (h.max_delay ≡ hi) × (lo ≤ hi)
  unfolding new_hedge
  new_hedge-eq a lo hi h e = ground arith

  new_hedge-IsValid :
      (a : HedgeAfter F) (lo hi : ℕ) (h : HedgeConfig F)
      → Checked a
      → new_hedge f a lo hi ≡ ok h
      → IsValid h
  new_hedge-IsValid a lo hi h c e =
      let (p, q, r, s) = new_hedge-eq a lo hi h e in (subst Checked (sym p) c, omega arith)

  hedge_of-IsValid :
      (x q : Option F) (lo hi : ℕ) (h : HedgeConfig F)
      → Checked (factor f.three)
      → hedge_of f x q lo hi ≡ ok h
      → IsValid h
  unfolding hedge_of factor_hedge quantile_hedge default_hedge
  hedge_of-IsValid (some x) (some q) lo hi h t e = cc
  hedge_of-IsValid none (some q) lo hi h t e =
      elim (Bool-cases (f.is_nan q || f.le_zero q || f.gt_one q)) [
        | inl b ↦ let e' = rw (b, quantile_hedge) at e in cc
        | inr b ↦ new_hedge-IsValid (quantile q) lo hi h b (rw (b, quantile_hedge) at e)
      ]
  hedge_of-IsValid (some x) none lo hi h t e = elim (Bool-cases (f.is_nan x || f.le_zero x)) [
    | inl b ↦ let e' = rw (b, factor_hedge) at e in cc
    | inr b ↦ new_hedge-IsValid (factor x) lo hi h b (rw (b, factor_hedge) at e)
  ]
  hedge_of-IsValid none none lo hi h t e = new_hedge-IsValid (factor f.three) lo hi h t e

  -- Where the default factor passes the test of factors, a configuration read from its raw form is
  -- valid, so the clamp of `delay` never panics and the delay lies within the configured bounds,
  -- whatever the latency is: it is the upper bound while there is no estimate, and otherwise the
  -- estimate moved into the bounds.
  try_from_raw-delay :
      (raw : RawHedge F) (h : HedgeConfig F) (mean : Option ℕ) (quantiles : F → Option ℕ)
      → Checked (factor f.three)
      → try_from_raw f raw ≡ ok h
      → IsValid h
        × ((d : ℕ) × (delay f h mean quantiles ≡ some d)
            × (h.min_delay ≤ d)
            × (d ≤ h.max_delay)
            × (((estimate f h.after mean quantiles ≡ none) × (d ≡ h.max_delay))
                ⊎ ((e : ℕ) × (estimate f h.after mean quantiles ≡ some e)
                    × (d ≡ max h.min_delay (min e h.max_delay)))))
  unfolding try_from_raw delay
  try_from_raw-delay raw h mean quantiles t e =
      let v = hedge_of-IsValid raw.raw_factor raw.raw_quantile _ _ h t e in
      (
        v,
        elim (Option-cases (estimate f h.after mean quantiles)) [
          | inl n ↦ (h.max_delay, rw (n, delay), v.1, omega arith, inl (n, refl))
          | inr (d, n) ↦ (
            max h.min_delay (min d h.max_delay),
            rw (n, delay) (rw (ltb_of_le h.max_delay h.min_delay v.1) refl),
            omega arith,
            omega arith,
            inr (d, n, refl),
          )
        ],
      )

  from_raw_of :
      (a : HedgeAfter F) (lo hi : ℕ)
      → Checked a
      → lo ≤ hi
      → try_from_raw f (raw_of a lo hi) ≡ ok (record { after = a; min_delay = lo; max_delay = hi })
  unfolding try_from_raw raw_of hedge_of factor_hedge quantile_hedge new_hedge
  from_raw_of (factor x) lo hi c le = rw c (rw (ltb_of_le hi lo le) refl)
  from_raw_of (quantile x) lo hi c le = rw c (rw (ltb_of_le hi lo le) refl)

  -- Where the default factor passes the test of factors, what is written out of a configuration
  -- that was read reads back as the same configuration.
  try_from_raw-to_raw :
      (raw : RawHedge F) (h : HedgeConfig F)
      → Checked (factor f.three)
      → try_from_raw f raw ≡ ok h
      → try_from_raw f (to_raw h) ≡ ok h
  unfolding to_raw
  try_from_raw-to_raw raw h t e =
      let (v, _) = try_from_raw-delay raw h none (λ _. none) t e in
      from_raw_of h.after h.min_delay h.max_delay v.0 v.1

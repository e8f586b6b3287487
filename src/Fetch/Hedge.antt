-- ===== src/Fetch/Hedge.antt =====
-- nestor/src/fetch.rs, `origin_get`, `get_hedged` and `observe_ttfb`. A request that was sent is
-- its result and the time at which it is there. Where both requests are ready at once, `select!`
-- takes either: an argument says which.
use nestor.Common.{
  ℕ, ◌+◌, ◌-◌, min, Bool, false, Option, none, some, ltb, ◌==◌, if◌then◌else◌, Result, ok, err,
  OriginError, timeout, is_retryable,
}

pub record Reply (A : Type 0) : Type 0 where
  pub result : Result OriginError A
  pub at : ℕ

-- `timeout_at`: the reply, or a timeout once `by` has passed.
unfoldable pub timed : {A : Type 0} → ℕ → ℕ → Reply A → Reply A
timed started by r =
    if ltb by r.at then record { result = err (timeout (by - started)); at = by } else r

-- `observe_ttfb`: the sample that is recorded.
unfoldable pub ttfb : {A : Type 0} → ℕ → Reply A → Option ℕ
ttfb started r = elim r.result [ ok a ↦ some (r.at - started) | err e ↦ none ]

unfoldable pub retryable : {A : Type 0} → Result OriginError A → Bool
retryable (ok a) = false
retryable (err e) = is_retryable e

-- Which of two is ready first; `first` settles a tie.
unfoldable pub ready : Bool → ℕ → ℕ → Bool
ready first a b = if a == b then first else ltb a b

module _ {A : Type 0} where
  -- The inner `select!`: a retryable failure of the one leaves the answer to the other.
  unfoldable pub race : Bool → ℕ → ℕ → Reply A → Reply A → Reply A × Option ℕ
  unfolding ready ttfb retryable
  race first started hedged primary secondary =
      if ready first primary.at secondary.at
      then if retryable primary.result
        then (secondary, ttfb hedged secondary)
        else (primary, ttfb started primary)
      else if retryable secondary.result
      then (primary, ttfb started primary)
      else (secondary, ttfb hedged secondary)

  -- The hedge's delay is `none` if the policy has no hedge; `permit` tells whether `try_acquire`
  -- succeeds.
  unfoldable pub get_hedged :
      Option ℕ → Bool → Bool → Bool → ℕ → Reply A → Reply A → Reply A × Option ℕ
  unfolding race
  get_hedged none permit early first started primary secondary = (primary, ttfb started primary)
  get_hedged (some delay) permit early first started primary secondary =
      if ready early primary.at (started + delay)
      then (primary, ttfb started primary)
      else if permit
      then race first started (started + delay) primary secondary
      else (primary, ttfb started primary)

  unfoldable pub origin_get :
      ℕ → ℕ → Option ℕ → Bool → Bool → Bool → ℕ → Reply A → Reply A → Reply A
  unfolding timed get_hedged
  origin_get first_byte attempt_deadline delay permit early first started primary secondary =
      timed started (min (started + first_byte) attempt_deadline)
        (get_hedged delay permit early first started primary secondary).0

-- ===== src/Tests/Policies.antt =====
-- nestor/src/policy.rs: delays, retries and overrides, with percentages for the floating-point
-- numbers.
use nestor.Common.{
  ℕ, ◌+◌, ◌-◌, ◌*◌, ◌/◌, ◌≤◌, ◌<◌, ◌≡◌, ◌⊎◌, refl, List, [], ◌∷◌, Option, some, none, true, false,
  ltb, ◌==◌, ok, err, OriginError, io, timeout, is_retryable, arith,
}
use nestor.Origin.Text.{same}
use nestor.Policy.{
  Floating, factor, HedgeConfig, RawHedge, default_hedge, new_hedge, factor_hedge, hedge_of,
  try_from_raw, FetchPolicy, FetchOverrides, no_overrides, backoff_for, Retry, failed,
}
use nestor.Policy.Retries.{failed_cases}
use nestor.Policy.Overrides.{parse_pairs, split_once, apply, setting, parse_u32, digits_u32}

-- Hundredths.
abbrev pub percent : Floating ℕ
percent = record {
  is_nan = λ x. false;
  le_zero = λ x. x == 0;
  gt_one = λ x. ltb 100 x;
  three = 300;
  mul_f64 = λ d x. d * x / 100;
}

abbrev raw : RawHedge ℕ
raw = record { raw_factor = some 200; raw_quantile = none; raw_min = some 10; raw_max = some 1000 }

abbrev hedge : HedgeConfig ℕ
hedge = record { after = factor 200; min_delay = 10; max_delay = 1000 }

raw_read : try_from_raw percent raw ≡ ok hedge
unfolding try_from_raw hedge_of factor_hedge new_hedge default_hedge
raw_read = refl

abbrev pub policy : FetchPolicy ℕ
policy = record {
  attempts = 3;
  backoff = 50;
  backoff_max = 2000;
  first_byte = 5000;
  attempt = 30_000;
  deadline = 60_000;
  hedge = none;
}

abbrev retry : Retry ℕ
retry = record { policy = policy; attempt = 0; deadline = 60_000 }

failed_runs :
    ((failed retry (io 0) 100).1 ≡ ok 50)
    × ((failed retry (io 0) 59_990).1 ≡ err (timeout 60_000))
    × ((failed retry OriginError.not_found 100).1 ≡ err OriginError.not_found)
unfolding failed backoff_for is_retryable
failed_runs = (refl, refl, refl)

failed_cases_example :
    let next = (failed retry (io 0) 100).0 in
    (next.attempt ≡ 0 + 1)
    × (next.policy ≡ policy)
    × (next.deadline ≡ 60_000)
    × (((d : ℕ) × ((failed retry (io 0) 100).1 ≡ ok d)
          × (is_retryable (io 0) ≡ true)
          × (next.attempt < policy.attempts)
          × (100 + d < 60_000)
          × (d ≡ backoff_for policy 0))
        ⊎ (((failed retry (io 0) 100).1 ≡ err (io 0))
            × ((is_retryable (io 0) ≡ false) ⊎ (policy.attempts ≤ next.attempt)))
        ⊎ (((failed retry (io 0) 100).1 ≡ err (timeout policy.deadline))
            × (60_000 ≤ 100 + backoff_for policy 0)))
failed_cases_example = failed_cases retry (io 0) 100 (omega arith)

-- Durations of one digit.
abbrev digit_duration : List ℕ → Option ℕ
digit_duration (c ∷ []) = some (c - b'0')
digit_duration cs = none

-- `attempts=5` and `deadline=9`.
abbrev five_attempts : List ℕ
five_attempts = b'a' ∷ b't' ∷ b't' ∷ b'e' ∷ b'm' ∷ b'p' ∷ b't' ∷ b's' ∷ b'=' ∷ b'5' ∷ []

abbrev nine_deadline : List ℕ
nine_deadline = b'd' ∷ b'e' ∷ b'a' ∷ b'd' ∷ b'l' ∷ b'i' ∷ b'n' ∷ b'e' ∷ b'=' ∷ b'9' ∷ []

abbrev parsed : FetchOverrides
parsed = record no_overrides { attempts = some 5; deadline = some 9 }

pairs_parsed :
    parse_pairs digit_duration no_overrides (five_attempts ∷ nine_deadline ∷ []) ≡ ok parsed
unfolding parse_pairs split_once apply setting parse_u32 digits_u32 same no_overrides
pairs_parsed = refl

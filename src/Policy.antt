-- ===== src/Policy.antt =====
-- nestor/src/policy.rs: how a miss goes to the origin. Durations and instants are nanoseconds. The
-- floating-point numbers are a type `F` with the tests and the product that the code uses.
pub mod Delay
pub mod Retries
pub mod Overrides
use nestor.Common.{
  ℕ, zero, suc, ◌+◌, ◌-◌, ◌*◌, ◌^◌, ◌%◌, min, max, Bool, true, false, not, ◌||◌, ◌&&◌, Option, none,
  some, ltb, leb, if◌then◌else◌, map_or, unwrap_or, Result, ok, err, ◌>>=◌, OriginError, timeout,
  is_retryable, u64_mod, u32_mod,
}

abbrev pub millis : ℕ → ℕ
millis n = n * 1_000_000

abbrev pub seconds : ℕ → ℕ
seconds n = n * 1_000_000_000

-- `Duration::MAX`.
abbrev pub duration_max : ℕ
duration_max = u64_mod * 1_000_000_000 - 1

-- What the code asks of `f64`.
pub record Floating (F : Type 0) : Type 0 where
  pub is_nan : F → Bool
  pub le_zero : F → Bool
  pub gt_one : F → Bool
  pub three : F
  pub mul_f64 : ℕ → F → ℕ

pub data HedgeAfter (F : Type 0) : Type 0 where
  factor quantile : F → HedgeAfter F

pub record HedgeConfig (F : Type 0) : Type 0 where
  pub after : HedgeAfter F
  pub min_delay : ℕ
  pub max_delay : ℕ

pub data HedgeConfigError (F : Type 0) : Type 0 where
  bad_factor bad_quantile : F → HedgeConfigError F
  bounds : ℕ → ℕ → HedgeConfigError F
  exclusive : HedgeConfigError F

pub record RawHedge (F : Type 0) : Type 0 where
  pub raw_factor : Option F
  pub raw_quantile : Option F
  pub raw_min : Option ℕ
  pub raw_max : Option ℕ

module _ {F : Type 0} (f : Floating F) where
  unfoldable pub default_hedge : HedgeConfig F
  default_hedge = record { after = factor f.three; min_delay = millis 50; max_delay = seconds 2 }

  unfoldable pub new_hedge : HedgeAfter F → ℕ → ℕ → Result (HedgeConfigError F) (HedgeConfig F)
  new_hedge after lo hi =
      if ltb hi lo
      then err (bounds lo hi)
      else ok (record { after = after; min_delay = lo; max_delay = hi })

  unfoldable pub factor_hedge : F → ℕ → ℕ → Result (HedgeConfigError F) (HedgeConfig F)
  unfolding new_hedge
  factor_hedge x lo hi =
      if f.is_nan x || f.le_zero x then err (bad_factor x) else new_hedge (factor x) lo hi

  unfoldable pub quantile_hedge : F → ℕ → ℕ → Result (HedgeConfigError F) (HedgeConfig F)
  unfolding new_hedge
  quantile_hedge x lo hi =
      if f.is_nan x || f.le_zero x || f.gt_one x
      then err (bad_quantile x)
      else new_hedge (quantile x) lo hi

  -- The `match` of `TryFrom<RawHedge>`.
  unfoldable pub hedge_of :
      Option F → Option F → ℕ → ℕ → Result (HedgeConfigError F) (HedgeConfig F)
  unfolding factor_hedge quantile_hedge default_hedge
  hedge_of (some x) (some q) lo hi = err exclusive
  hedge_of none (some q) lo hi = quantile_hedge q lo hi
  hedge_of (some x) none lo hi = factor_hedge x lo hi
  hedge_of none none lo hi = new_hedge default_hedge.after lo hi

  unfoldable pub try_from_raw : RawHedge F → Result (HedgeConfigError F) (HedgeConfig F)
  unfolding hedge_of
  try_from_raw raw =
      hedge_of raw.raw_factor raw.raw_quantile (unwrap_or raw.raw_min default_hedge.min_delay)
        (unwrap_or raw.raw_max default_hedge.max_delay)

  -- `delay`, given the mean of the latency and its quantiles. `none` is the panic of `clamp`.
  unfoldable pub estimate : HedgeAfter F → Option ℕ → (F → Option ℕ) → Option ℕ
  estimate (factor x) mean quantiles = elim mean [ none ↦ none | some m ↦ some (f.mul_f64 m x) ]
  estimate (quantile x) mean quantiles = quantiles x

  unfoldable pub delay : HedgeConfig F → Option ℕ → (F → Option ℕ) → Option ℕ
  unfolding estimate
  delay h mean quantiles = elim (estimate h.after mean quantiles) [
    | none ↦ some h.max_delay
    | some d ↦
        if ltb h.max_delay h.min_delay then none else some (max h.min_delay (min d h.max_delay))
  ]

module _ {F : Type 0} where
  -- `impl From<HedgeConfig> for RawHedge`.
  unfoldable pub raw_of : HedgeAfter F → ℕ → ℕ → RawHedge F
  raw_of (factor x) lo hi = record {
    raw_factor = some x;
    raw_quantile = none;
    raw_min = some lo;
    raw_max = some hi;
  }
  raw_of (quantile x) lo hi = record {
    raw_factor = none;
    raw_quantile = some x;
    raw_min = some lo;
    raw_max = some hi;
  }

  unfoldable pub to_raw : HedgeConfig F → RawHedge F
  unfolding raw_of
  to_raw h = raw_of h.after h.min_delay h.max_delay

pub record FetchPolicy (F : Type 0) : Type 0 where
  pub attempts : ℕ
  pub backoff : ℕ
  pub backoff_max : ℕ
  pub first_byte : ℕ
  pub attempt : ℕ
  pub deadline : ℕ
  pub hedge : Option (HedgeConfig F)

pub record FetchOverrides : Type 0 where
  pub attempts : Option ℕ
  pub backoff : Option ℕ
  pub backoff_max : Option ℕ
  pub first_byte : Option ℕ
  pub attempt : Option ℕ
  pub deadline : Option ℕ
  pub hedge : Option Bool

unfoldable pub no_overrides : FetchOverrides
no_overrides = record {
  attempts = none;
  backoff = none;
  backoff_max = none;
  first_byte = none;
  attempt = none;
  deadline = none;
  hedge = none;
}

module _ {F : Type 0} (f : Floating F) where
  unfoldable pub default_policy : FetchPolicy F
  unfolding default_hedge
  default_policy = record {
    attempts = 3;
    backoff = millis 50;
    backoff_max = seconds 2;
    first_byte = seconds 5;
    attempt = seconds 30;
    deadline = seconds 60;
    hedge = some (default_hedge f);
  }

  unfoldable pub hedge_with : Option (HedgeConfig F) → Option Bool → Option (HedgeConfig F)
  unfolding default_hedge
  hedge_with base none = base
  hedge_with base (some false) = none
  hedge_with none (some true) = some (default_hedge f)
  hedge_with (some h) (some true) = some h

  -- `FetchPolicy::with`.
  unfoldable pub with_overrides : FetchPolicy F → FetchOverrides → FetchPolicy F
  unfolding hedge_with
  with_overrides p o = record {
    attempts = max (unwrap_or o.attempts p.attempts) 1;
    backoff = unwrap_or o.backoff p.backoff;
    backoff_max = unwrap_or o.backoff_max p.backoff_max;
    first_byte = unwrap_or o.first_byte p.first_byte;
    attempt = unwrap_or o.attempt p.attempt;
    deadline = unwrap_or o.deadline p.deadline;
    hedge = hedge_with p.hedge o.hedge;
  }

module _ {F : Type 0} where
  -- The setters.
  unfoldable pub set_attempts : FetchPolicy F → ℕ → FetchPolicy F
  set_attempts p attempts = record p { attempts = max attempts 1 }

  unfoldable pub set_backoff : FetchPolicy F → ℕ → ℕ → FetchPolicy F
  set_backoff p base most = record p { backoff = base; backoff_max = most }

  unfoldable pub set_first_byte : FetchPolicy F → ℕ → FetchPolicy F
  set_first_byte p limit = record p { first_byte = limit }

  unfoldable pub set_attempt : FetchPolicy F → ℕ → FetchPolicy F
  set_attempt p limit = record p { attempt = limit }

  unfoldable pub set_deadline : FetchPolicy F → ℕ → FetchPolicy F
  set_deadline p limit = record p { deadline = limit }

  unfoldable pub set_hedge : FetchPolicy F → Option (HedgeConfig F) → FetchPolicy F
  set_hedge p hedge = record p { hedge = hedge }

  unfoldable pub backoff_for : FetchPolicy F → ℕ → ℕ
  backoff_for p attempt = min (min (p.backoff * 2 ^ min attempt 16) duration_max) p.backoff_max

pub record Retry (F : Type 0) : Type 0 where
  pub policy : FetchPolicy F
  pub attempt : ℕ
  pub deadline : ℕ

module _ {F : Type 0} where
  unfoldable pub new_retry : FetchPolicy F → ℕ → Retry F
  new_retry p now = record { policy = p; attempt = 0; deadline = now + p.deadline }

  unfoldable pub attempt_deadline : Retry F → ℕ → ℕ
  attempt_deadline r now = min (now + r.policy.attempt) r.deadline

  -- `failed`: the new counter, and the error that ends the fetch or the delay that is slept. `now`
  -- is the time at which the attempt failed.
  unfoldable pub failed : Retry F → OriginError → ℕ → Retry F × Result OriginError ℕ
  failed r error now =
      let attempt = (r.attempt + 1) % u32_mod in
      let delay = backoff_for r.policy (attempt - 1) in
      (
        record r { attempt = attempt },
        if not (is_retryable error) || leb r.policy.attempts attempt
            then err error
            else if leb r.deadline (now + delay)
            then err (timeout r.policy.deadline)
            else ok delay,
      )

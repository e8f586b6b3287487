-- ===== src/Policy/Retries.antt =====
-- nestor/src/policy.rs, `backoff_for` and `Retry::failed`.
use native.Mathlib.Nat.{mod-eq_of_lt}
use nestor.Common.{
  ℕ, suc, ◌+◌, ◌-◌, ◌*◌, ◌%◌, ◌^◌, ◌≤◌, ◌<◌, ◌≡◌, refl, ◌⊎◌, inl, inr, min, true, false, not, ◌||◌,
  leb, ok, err, OriginError, timeout, is_retryable, u32_mod, u32_max, pow_mono, arith, Bool-cases,
  leb→le,
}
use nestor.Policy.{FetchPolicy, Retry, backoff_for, failed, duration_max}

mul_mono : (b p q : ℕ) → p ≤ q → b * p ≤ b * q
mul_mono b p q h = grind arith

-- The backoff of a later attempt is no shorter, and never exceeds the maximum.
backoff_for_mono :
    {F : Type 0} (p : FetchPolicy F) (a b : ℕ)
    → a ≤ b
    → (backoff_for p a ≤ backoff_for p b) × (backoff_for p b ≤ p.backoff_max)
unfolding backoff_for
backoff_for_mono p a b h =
    let m = mul_mono p.backoff _ _ (pow_mono (min a 16) (min b 16) (omega arith)) in
    (omega arith, omega arith)

-- Up to the sixteenth retry, and while the doubled backoff is within the maximum, the backoff of
-- the next attempt is twice that of the one before.
backoff_for_double :
    {F : Type 0} (p : FetchPolicy F) (b : ℕ)
    → b < 16
    → p.backoff * 2 ^ suc b ≤ min p.backoff_max duration_max
    → backoff_for p (suc b) ≡ 2 * backoff_for p b
unfolding backoff_for
backoff_for_double p b small room =
    let e : min b 16 ≡ b = omega arith in
    let e' : min (suc b) 16 ≡ suc b = omega arith in
    let d : p.backoff * 2 ^ suc b ≡ 2 * (p.backoff * 2 ^ b) = double p.backoff b in
    rw (e, e') (omega arith)
  where
    double : (c b : ℕ) → c * 2 ^ suc b ≡ 2 * (c * 2 ^ b)
    double c b = let e = native.Mathlib.Nat.pow-suc 2 b in grind arith

-- With fewer than 2^32 - 1 failures so far, a failed attempt is tried again only if the error is
-- retryable, attempts are left, and the backoff for the attempt ends before the deadline.
-- Otherwise the error is the attempt's own, or a timeout where the backoff ends at the deadline or
-- later. The attempt counts.
pub failed_cases :
    {F : Type 0} (r : Retry F) (e : OriginError) (now : ℕ)
    → r.attempt < u32_max
    → let next = (failed r e now).0 in
      (next.attempt ≡ r.attempt + 1)
      × (next.policy ≡ r.policy)
      × (next.deadline ≡ r.deadline)
      × (((d : ℕ) × ((failed r e now).1 ≡ ok d)
            × (is_retryable e ≡ true)
            × (next.attempt < r.policy.attempts)
            × (now + d < r.deadline)
            × (d ≡ backoff_for r.policy r.attempt))
          ⊎ (((failed r e now).1 ≡ err e)
              × ((is_retryable e ≡ false) ⊎ (r.policy.attempts ≤ next.attempt)))
          ⊎ (((failed r e now).1 ≡ err (timeout r.policy.deadline))
              × (r.deadline ≤ now + backoff_for r.policy r.attempt)))
unfolding failed
failed_cases r e now h =
    let n : (r.attempt + 1) % u32_mod ≡ r.attempt + 1 =
      mod-eq_of_lt {n = r.attempt + 1} (omega arith) in
    let m : r.attempt + 1 - 1 ≡ r.attempt = omega arith in
    let d : ℕ = backoff_for r.policy r.attempt in
    (
      n,
      refl,
      refl,
      rw (n, m)
          (elim (Bool-cases (not (is_retryable e) || leb r.policy.attempts (r.attempt + 1))) [
            | inl stop ↦ inr (inl (rw stop refl, ground arith))
            | inr go ↦ elim (Bool-cases (leb r.deadline (now + d))) [
              | inl late ↦ inr (inr (rw (go, late) refl, leb→le r.deadline (now + d) late))
              | inr early ↦
                  inl (d, rw (go, early) refl, ground arith, ground arith, ground arith, refl)
            ]
          ]),
    )

-- ===== src/Common/Errors.antt =====
-- nestor/src/error.rs: what an origin reports, what callers see, and the results that carry them.
-- A boxed I/O error and a cache error are opaque; a number stands for each.
use Prim.Native.Nat.{ℕ}
use mathlib.Core.Bool.{Bool, true, false}
use mathlib.Core.Path.{◌≡◌, refl, ap, ◌∙◌}
use mathlib.Core.Logic.{◌↔◌, ◌⊎◌, inl, inr}
use mathlib.Core.Option.{Option, none, some}
use nestor.Common.Words.{Range}

pub data OriginError : Type 0 where
  not_found precondition_failed not_modified : OriginError
  short_read : (expected got : ℕ) → OriginError
  timeout io : ℕ → OriginError

unfoldable pub is_retryable : OriginError → Bool
is_retryable (OriginError.io e) = true
is_retryable (OriginError.short_read expected got) = true
is_retryable (OriginError.timeout d) = true
is_retryable e = false

pub data NestorError : Type 0 where
  not_found unknown_namespace stale cancelled closed : NestorError
  range : Range → ℕ → NestorError
  origin : OriginError → NestorError
  cache : ℕ → NestorError
  shared : NestorError → NestorError

unfoldable pub is_not_found : NestorError → Bool
is_not_found NestorError.not_found = true
is_not_found (shared inner) = is_not_found inner
is_not_found e = false

unfoldable pub is_stale : NestorError → Bool
is_stale stale = true
is_stale (shared inner) = is_stale inner
is_stale e = false

unfoldable pub is_cancelled : NestorError → Bool
is_cancelled cancelled = true
is_cancelled (shared inner) = is_cancelled inner
is_cancelled e = false

-- `impl From<OriginError> for NestorError`.
unfoldable pub from_origin : OriginError → NestorError
from_origin OriginError.not_found = NestorError.not_found
from_origin precondition_failed = stale
from_origin other = origin other

-- `Result<T, E>`.
pub data Result {ℓ κ} (E : Type κ) (A : Type ℓ) : Type (ℓ ⊔ κ) where
  ok : A → Result E A
  err : E → Result E A

pub Result-cases {ℓ κ} :
    {E : Type κ} {A : Type ℓ} (r : Result E A) → ((x : E) × (r ≡ err x)) ⊎ ((a : A) × (r ≡ ok a))
Result-cases (err x) = inl (x, refl)
Result-cases (ok a) = inr (a, refl)

infixl 5 ◌>>=◌
abbrev pub ◌>>=◌ {ℓ κ μ} :
    {E : Type μ} {A : Type ℓ} {B : Type κ} → Result E A → (A → Result E B) → Result E B
ok a >>= f = f a
err e >>= f = err e

-- `Option::ok_or`.
abbrev pub ok_or {ℓ κ} : {E : Type κ} {A : Type ℓ} → Option A → E → Result E A
ok_or none e = err e
ok_or (some a) e = ok a

-- A chain succeeds exactly if each of its steps does.
pub chain_iff {ℓ κ μ} :
    {E : Type μ} {A : Type ℓ} {B : Type κ} (r : Result E A) (step : A → Result E B) (y : B)
    → (r >>= step ≡ ok y) ↔ ((x : A) × (r ≡ ok x) × (step x ≡ ok y))
chain_iff (ok x) step y = (λ h. (x, refl, h), λ s. ap (λ z. z >>= step) s.1 ∙ s.2)
chain_iff (err e) step y = (λ h. cc, λ s. ap (λ z. z >>= step) s.1 ∙ s.2)

pub ok_injective {ℓ κ} :
    {E : Type κ} {A : Type ℓ} (a b : A) → ◌≡◌ {A = Result E A} (ok a) (ok b) → a ≡ b
ok_injective a b e = ap (λ r. elim r [ ok x ↦ x | err y ↦ a ]) e

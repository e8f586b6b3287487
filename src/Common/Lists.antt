-- ===== src/Common/Lists.antt =====
-- Lists measured, cut and indexed by native numbers, under the library's names.
use Prim.Native.Nat.{ℕ, zero, suc, ◌+◌, ◌-◌, ◌≤◌, ◌<◌, min}
use mathlib.Core.Path.{◌≡◌, refl, ap, ◌∙◌, sym}
use mathlib.Core.List.{List, [], ◌∷◌, ◌++◌}
use mathlib.Core.Option.{Option, none, some}
use mathlib.Core.Logic.{◌⊎◌, inl, inr}
use native.Mathlib.Omega.{arith}

module _ {ℓ} {A : Type ℓ} where
  abbrev pub length : List A → ℕ
  length [] = 0
  length (x ∷ xs) = suc (length xs)

  abbrev pub get_elem? : List A → ℕ → Option A
  get_elem? [] i = none
  get_elem? (x ∷ xs) zero = some x
  get_elem? (x ∷ xs) (suc i) = get_elem? xs i

  abbrev pub take : ℕ → List A → List A
  take zero xs = []
  take (suc n) [] = []
  take (suc n) (x ∷ xs) = x ∷ take n xs

  abbrev pub drop : ℕ → List A → List A
  drop zero xs = xs
  drop (suc n) [] = []
  drop (suc n) (x ∷ xs) = drop n xs

  abbrev pub replicate : ℕ → A → List A
  replicate zero a = []
  replicate (suc n) a = a ∷ replicate n a

  -- The part of a list from position `s` up to position `e`.
  unfoldable pub slice : ℕ → ℕ → List A → List A
  slice s e xs = take (e - s) (drop s xs)

  pub length-append : (xs ys : List A) → length (xs ++ ys) ≡ length xs + length ys
  length-append [] ys = omega arith
  length-append (x ∷ xs) ys = omega (arith, length-append xs ys)

  pub take-append-drop : (n : ℕ) (xs : List A) → take n xs ++ drop n xs ≡ xs
  take-append-drop zero xs = refl
  take-append-drop (suc n) [] = refl
  take-append-drop (suc n) (x ∷ xs) = ap (◌∷◌ x) (take-append-drop n xs)

  pub length-take : (n : ℕ) (xs : List A) → length (take n xs) ≡ min n (length xs)
  length-take zero xs = omega arith
  length-take (suc n) [] = omega arith
  length-take (suc n) (x ∷ xs) = omega (arith, length-take n xs)

  pub length-drop : (n : ℕ) (xs : List A) → length (drop n xs) ≡ length xs - n
  length-drop zero xs = omega arith
  length-drop (suc n) [] = omega arith
  length-drop (suc n) (x ∷ xs) = omega (arith, length-drop n xs)

  pub take-nil : (n : ℕ) → take n [] ≡ []
  take-nil zero = refl
  take-nil (suc n) = refl

  pub drop-nil : (n : ℕ) → drop n [] ≡ []
  drop-nil zero = refl
  drop-nil (suc n) = refl

  pub take_all : (n : ℕ) (xs : List A) → length xs ≤ n → take n xs ≡ xs
  take_all zero [] h = refl
  take_all zero (x ∷ xs) h = absurd (omega arith)
  take_all (suc n) [] h = refl
  take_all (suc n) (x ∷ xs) h = ap (◌∷◌ x) (take_all n xs (omega arith))

  pub drop_all : (n : ℕ) (xs : List A) → length xs ≤ n → drop n xs ≡ []
  drop_all zero [] h = refl
  drop_all zero (x ∷ xs) h = absurd (omega arith)
  drop_all (suc n) [] h = refl
  drop_all (suc n) (x ∷ xs) h = drop_all n xs (omega arith)

  pub take-append_left : (xs ys : List A) (n : ℕ) → n ≤ length xs → take n (xs ++ ys) ≡ take n xs
  take-append_left xs ys zero h = refl
  take-append_left [] ys (suc n) h = absurd (omega arith)
  take-append_left (x ∷ xs) ys (suc n) h = ap (◌∷◌ x) (take-append_left xs ys n (omega arith))

  pub drop-append_left :
      (xs ys : List A) (n : ℕ) → n ≤ length xs → drop n (xs ++ ys) ≡ drop n xs ++ ys
  drop-append_left xs ys zero h = refl
  drop-append_left [] ys (suc n) h = absurd (omega arith)
  drop-append_left (x ∷ xs) ys (suc n) h = drop-append_left xs ys n (omega arith)

  pub take-append_self : (xs ys : List A) → take (length xs) (xs ++ ys) ≡ xs
  take-append_self [] ys = refl
  take-append_self (x ∷ xs) ys = ap (◌∷◌ x) (take-append_self xs ys)

  pub drop-append_self : (xs ys : List A) → drop (length xs) (xs ++ ys) ≡ ys
  drop-append_self [] ys = refl
  drop-append_self (x ∷ xs) ys = drop-append_self xs ys

  -- The counts are variables with an equation, since `n + m` computes no further.
  pub drop-drop : (n m k : ℕ) (xs : List A) → n + m ≡ k → drop n (drop m xs) ≡ drop k xs
  drop-drop n zero zero xs e = let z : n ≡ 0 = omega arith in ap (λ j. drop j xs) z
  drop-drop n zero (suc k) xs e = ap (λ j. drop j xs) {x = n} {y = suc k} (omega arith)
  drop-drop n (suc m) zero xs e = absurd (omega arith)
  drop-drop n (suc m) (suc k) [] e = drop-nil n
  drop-drop n (suc m) (suc k) (x ∷ xs) e = drop-drop n m k xs (omega arith)

  pub take-take : (n m k : ℕ) (xs : List A) → min n m ≡ k → take n (take m xs) ≡ take k xs
  take-take n zero k xs e = let z : k ≡ 0 = omega arith in take-nil n ∙ ap (λ j. take j xs) (sym z)
  take-take zero (suc m) k xs e = let z : k ≡ 0 = omega arith in ap (λ j. take j xs) (sym z)
  take-take (suc n) (suc m) zero xs e = absurd (omega arith)
  take-take (suc n) (suc m) (suc k) [] e = refl
  take-take (suc n) (suc m) (suc k) (x ∷ xs) e = ap (◌∷◌ x) (take-take n m k xs (omega arith))

  pub drop-take : (n m k : ℕ) (xs : List A) → m - n ≡ k → drop n (take m xs) ≡ take k (drop n xs)
  drop-take zero m k xs e = ap (λ j. take j xs) {x = m} {y = k} (omega arith)
  drop-take (suc n) zero k xs e =
      let z : k ≡ 0 = omega arith in ap (λ j. take j (drop (suc n) xs)) (sym z)
  drop-take (suc n) (suc m) k [] e = sym (take-nil k)
  drop-take (suc n) (suc m) k (x ∷ xs) e = drop-take n m k xs (omega arith)

  pub take-append-take :
      (n m k : ℕ) (xs : List A) → n + m ≡ k → take n xs ++ take m (drop n xs) ≡ take k xs
  take-append-take zero m k xs e = ap (λ j. take j xs) {x = m} {y = k} (omega arith)
  take-append-take (suc n) m zero xs e = absurd (omega arith)
  take-append-take (suc n) m (suc k) [] e = take-nil m
  take-append-take (suc n) m (suc k) (x ∷ xs) e =
      ap (◌∷◌ x) (take-append-take n m k xs (omega arith))

  pub length-slice : (s e : ℕ) (xs : List A) → e ≤ length xs → length (slice s e xs) ≡ e - s
  unfolding slice
  length-slice s e xs h = omega (arith, length-take (e - s) (drop s xs), length-drop s xs)

  -- A slice of a slice is a slice.
  pub slice-slice :
      (s e s' e' t u : ℕ) (xs : List A)
      → s + s' ≡ t
      → min (s + e') e ≡ u
      → slice s' e' (slice s e xs) ≡ slice t u xs
  unfolding slice
  slice-slice s e s' e' t u xs h k =
      ap (take (e' - s')) (drop-take s' (e - s) (e - s - s') (drop s xs) refl)
      ∙ take-take (e' - s') (e - s - s') (u - t) (drop s' (drop s xs)) (omega arith)
      ∙ ap (take (u - t)) (drop-drop s' s t xs (omega arith))

  -- Two neighbouring slices join.
  pub slice-append :
      (a b c : ℕ) (xs : List A) → a ≤ b → b ≤ c → slice a b xs ++ slice b c xs ≡ slice a c xs
  unfolding slice
  slice-append a b c xs h k =
      ap (λ (ys : List A). take (b - a) (drop a xs) ++ take (c - b) ys)
        (sym (drop-drop (b - a) a b xs (omega arith)))
      ∙ take-append-take (b - a) (c - b) (c - a) (drop a xs) (omega arith)

  pub slice_empty : (a b : ℕ) (xs : List A) → b ≤ a → slice a b xs ≡ []
  unfolding slice
  slice_empty a b xs h = let z : b - a ≡ 0 = omega arith in ap (λ j. take j (drop a xs)) z

-- The numbers `s`, `s + 1`, …, `n` of them.
unfoldable pub range_from : ℕ → ℕ → List ℕ
range_from s zero = []
range_from s (suc n) = s ∷ range_from (s + 1) n

pub range_from-snoc : (s n t : ℕ) → s + n ≡ t → range_from s n ++ t ∷ [] ≡ range_from s (suc n)
unfolding range_from
range_from-snoc s zero t e = ap (λ (j : ℕ). j ∷ []) {x = t} {y = s} (omega arith)
range_from-snoc s (suc n) t e = ap (◌∷◌ s) (range_from-snoc (s + 1) n t (omega arith))

-- Every element satisfies the predicate.
abbrev pub All {ℓ κ} : {A : Type ℓ} → (A → Type κ) → List A → Type κ
All P [] = Unit
All P (x ∷ xs) = P x × All P xs

-- The element after the last one.
pub get_elem?-snoc {ℓ} :
    {A : Type ℓ} (xs : List A) (y : A) → get_elem? (xs ++ y ∷ []) (length xs) ≡ some y
get_elem?-snoc [] y = refl
get_elem?-snoc (x ∷ xs) y = get_elem?-snoc xs y

pub get_elem?-append {ℓ} :
    {A : Type ℓ} (xs ys : List A) (i : ℕ) (x : A)
    → get_elem? xs i ≡ some x
    → (get_elem? (xs ++ ys) i ≡ some x) × (i < length xs)
get_elem?-append [] ys i x e = absurd (ground arith)
get_elem?-append (z ∷ zs) ys zero x e = (e, omega arith)
get_elem?-append (z ∷ zs) ys (suc i) x e =
    let (f, lt) = get_elem?-append zs ys i x e in (f, omega (arith, lt))

pub get_elem?-snoc_cases {ℓ} :
    {A : Type ℓ} (xs : List A) (y : A) (i : ℕ) (x : A)
    → get_elem? (xs ++ y ∷ []) i ≡ some x
    → (get_elem? xs i ≡ some x) ⊎ ((i ≡ length xs) × (x ≡ y))
get_elem?-snoc_cases [] y zero x e = inr (refl, cc)
get_elem?-snoc_cases [] y (suc i) x e = absurd (ground arith)
get_elem?-snoc_cases (z ∷ zs) y zero x e = inl e
get_elem?-snoc_cases (z ∷ zs) y (suc i) x e = elim (get_elem?-snoc_cases zs y i x e) [
  | inl f ↦ inl f
  | inr (n, f) ↦ inr (omega (arith, n), f)
]

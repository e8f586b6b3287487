-- ===== src/Signing/Splits.antt =====
-- Texts without separators and white space: what splitting, trimming and stripping do with them.
use mathlib.Core.List.{reverse, reverse_aux, reverse-reverse}
use nestor.Common.{
  ℕ, ◌≡◌, ◌≢◌, inl, inr, refl, ap, ◌∙◌, List, [], ◌∷◌, ◌++◌, false, some, ◌==◌, ne→==, eq→==,
  Bool-cases, All,
}
use nestor.Gateway.Ranges.{strip_prefix}
use nestor.Origin.Text.{split_on, trim, trim_start, is_whitespace}
use nestor.Signing.{lower, lower_all, join}

-- A character that may stand in the name of a signed header.
abbrev pub PlainChar : ℕ → Type 0
PlainChar c = (is_whitespace c ≡ false) × (c ≢ b',') × (c ≢ b';') × (lower c ≡ c)

abbrev pub Without : ℕ → List ℕ → Type 0
Without sep text = All (λ c. c ≢ sep) text

split_on-cons :
    (sep : ℕ) (b : List ℕ)
    → (part : List ℕ) × (parts : List (List ℕ)) × (split_on sep b ≡ part ∷ parts)
unfolding split_on
split_on-cons sep [] = ([], [], refl)
split_on-cons sep (c ∷ b) =
    let (part, parts, e) = split_on-cons sep b in
    elim (Bool-cases (c == sep)) [
      | inl t ↦ ([], part ∷ parts, rw (e, t, split_on) refl)
      | inr t ↦ (c ∷ part, parts, rw (e, t, split_on) refl)
    ]

pub split_on-append :
    (sep : ℕ) (a b : List ℕ) → Without sep a → split_on sep (a ++ sep ∷ b) ≡ a ∷ split_on sep b
unfolding split_on
split_on-append sep [] b w =
    let (part, parts, e) = split_on-cons sep b in
    let self = eq→== sep sep refl in rw (e, self, split_on) refl
split_on-append sep (c ∷ a) b w =
    let n = ne→== c sep w.0 in rw (split_on-append sep a b w.1, n, split_on) refl

pub split_on-whole : (sep : ℕ) (a : List ℕ) → Without sep a → split_on sep a ≡ a ∷ []
unfolding split_on
split_on-whole sep [] w = refl
split_on-whole sep (c ∷ a) w =
    let n = ne→== c sep w.0 in rw (split_on-whole sep a w.1, n, split_on) refl

pub strip_prefix-append : (prefix text : List ℕ) → strip_prefix prefix (prefix ++ text) ≡ some text
unfolding strip_prefix
strip_prefix-append [] text = refl
strip_prefix-append (p ∷ prefix) text =
    let self = eq→== p p refl in rw (self, strip_prefix) (strip_prefix-append prefix text)

All-reverse_aux : (P : ℕ → Type 0) (xs r : List ℕ) → All P xs → All P r → All P (reverse_aux xs r)
All-reverse_aux P [] r h k = k
All-reverse_aux P (x ∷ xs) r h k = All-reverse_aux P xs (x ∷ r) h.1 (h.0, k)

-- A text without white space.
abbrev pub Solid : List ℕ → Type 0
Solid text = All (λ c. is_whitespace c ≡ false) text

trim_start-Solid : (text : List ℕ) → Solid text → trim_start text ≡ text
unfolding trim_start
trim_start-Solid [] s = refl
trim_start-Solid (c ∷ cs) s = rw (s.0, trim_start) refl

pub trim-Solid : (text : List ℕ) → Solid text → trim text ≡ text
unfolding trim
trim-Solid text s =
    ap (λ t. reverse (trim_start (reverse t))) (trim_start-Solid text s)
    ∙ ap reverse (trim_start-Solid (reverse text) (All-reverse_aux _ text [] s tt))
    ∙ reverse-reverse text

-- A space in front is dropped.
pub trim-spaced : (text : List ℕ) → Solid text → trim (32 ∷ text) ≡ text
unfolding trim trim_start is_whitespace
trim-spaced text s = trim-Solid text s

pub split_on-join :
    (name : List ℕ) (names : List (List ℕ))
    → All (Without b';') (name ∷ names)
    → split_on b';' (join (name ∷ names)) ≡ name ∷ names
unfolding join
split_on-join name [] w = split_on-whole b';' name w.0
split_on-join name (next ∷ names) w =
    split_on-append b';' name (join (next ∷ names)) w.0
    ∙ ap (◌∷◌ name) (split_on-join next names w.1)

pub lower_all-Lower : (text : List ℕ) → All (λ c. lower c ≡ c) text → lower_all text ≡ text
unfolding lower_all
lower_all-Lower [] h = refl
lower_all-Lower (c ∷ cs) h = ap (λ d. d ∷ lower_all cs) h.0 ∙ ap (◌∷◌ c) (lower_all-Lower cs h.1)

pub All-append : (P : ℕ → Type 0) (a b : List ℕ) → All P a → All P b → All P (a ++ b)
All-append P [] b h k = k
All-append P (x ∷ a) b h k = (h.0, All-append P a b h.1 k)

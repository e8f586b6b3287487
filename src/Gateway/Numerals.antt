-- ===== src/Gateway/Numerals.antt =====
-- nestor-s3/src/headers.rs, `parse_range`: what is read from range headers with decimal numbers.
use nestor.Block.{bounded, from, suffix}
use nestor.Common.{
  ℕ, ◌+◌, ◌-◌, ◌*◌, ◌≤◌, ◌<◌, ◌≡◌, ◌≢◌, ◌⊎◌, inl, inr, refl, ap, ◌∙◌, min, List, [], ◌∷◌, ◌++◌,
  true, false, ◌&&◌, none, some, ltb, leb, ◌==◌, Bool-cases, ne→==, eq→==, All, u64_mod, u64_max,
  arith,
}
use nestor.Gateway.Ranges.{
  digits_u64, parse_u64, strip_prefix, contains, text_bytes, closed_range, range_of, parse_spec,
  parse_range,
}
use nestor.Origin.Text.{is_whitespace, within}
use nestor.Policy.Overrides.{split_once}
use nestor.Signing.Splits.{Solid, Without, All-append, trim-Solid}

-- A text of decimal digits, read from the left behind `acc`.
abbrev Reads : ℕ → List ℕ → ℕ → Type 0
Reads acc [] n = acc ≡ n
Reads acc (c ∷ cs) n = (d : ℕ) × (d < 10) × (c ≡ 48 + d) × Reads (acc * 10 + d) cs n

-- A decimal number: a digit at least.
abbrev pub Decimal : List ℕ → ℕ → Type 0
Decimal [] n = ⊥
Decimal (c ∷ cs) n = Reads 0 (c ∷ cs) n

Reads-le : (cs : List ℕ) (acc n : ℕ) → Reads acc cs n → acc ≤ n
Reads-le [] acc n e = omega (arith, e)
Reads-le (c ∷ cs) acc n (d, small, e, r) =
    let h = Reads-le cs (acc * 10 + d) n r in omega (arith, h)

digits_u64-Reads :
    (cs : List ℕ) (acc n : ℕ) → n < u64_mod → Reads acc cs n → digits_u64 acc cs ≡ some n
unfolding digits_u64
digits_u64-Reads [] acc n h e = ap some e
digits_u64-Reads (c ∷ cs) acc n h (d, small, e, r) =
    let le = Reads-le cs (acc * 10 + d) n r in
    let same : c - 48 ≡ d = omega (arith, e) in
    let rest = digits_u64-Reads cs (acc * 10 + d) n h r in
    let t : (leb 48 c && leb c 57 && ltb (acc * 10 + d) u64_mod) ≡ true = ground arith in
    rw (same, t, rest) refl

parse_u64-Decimal : (cs : List ℕ) (n : ℕ) → n < u64_mod → Decimal cs n → parse_u64 cs ≡ some n
unfolding parse_u64
parse_u64-Decimal [] n h r = absurd r
parse_u64-Decimal (c ∷ []) n h r = digits_u64-Reads (c ∷ []) 0 n h r
parse_u64-Decimal (c ∷ d ∷ cs) n h r =
    let (k, small, e, _) = r in
    let plus : (c == b'+') ≡ false = ground arith in
    rw (plus, parse_u64) (digits_u64-Reads (c ∷ d ∷ cs) 0 n h r)

-- What the characters of a range are not.
abbrev Plain : ℕ → Type 0
Plain c = (is_whitespace c ≡ false) × (c ≢ b',')

digit-Plain : (c d : ℕ) → d < 10 → c ≡ 48 + d → Plain c × (c ≢ b'-')
unfolding is_whitespace within
digit-Plain c d small e = ((ground arith, λ f. absurd (omega arith)), λ f. absurd (omega arith))

Reads-Plain : (cs : List ℕ) (acc n : ℕ) → Reads acc cs n → All (λ c. Plain c × (c ≢ b'-')) cs
Reads-Plain [] acc n r = tt
Reads-Plain (c ∷ cs) acc n (d, small, e, r) =
    (digit-Plain c d small e, Reads-Plain cs (acc * 10 + d) n r)

Decimal-Plain : (cs : List ℕ) (n : ℕ) → Decimal cs n → All (λ c. Plain c × (c ≢ b'-')) cs
Decimal-Plain [] n r = absurd r
Decimal-Plain (c ∷ cs) n r = Reads-Plain (c ∷ cs) 0 n r

All-map : (P Q : ℕ → Type 0) → ((c : ℕ) → P c → Q c) → (cs : List ℕ) → All P cs → All Q cs
All-map P Q f [] h = tt
All-map P Q f (c ∷ cs) h = (f c h.0, All-map P Q f cs h.1)

contains-Plain : (cs : List ℕ) → All Plain cs → contains b',' cs ≡ false
unfolding contains
contains-Plain [] h = refl
contains-Plain (c ∷ cs) h = let n = ne→== c b',' h.0.1 in rw (n, contains-Plain cs h.1) refl

split_once-append :
    (sep : ℕ) (a b : List ℕ) → Without sep a → split_once sep (a ++ (sep ∷ b)) ≡ some (a, b)
unfolding split_once
split_once-append sep [] b w = let self = eq→== sep sep refl in rw (self, split_once) refl
split_once-append sep (c ∷ cs) b w =
    let n = ne→== c sep w.0 in rw (n, split_once-append sep cs b w.1) refl

-- A header with the unit and plain texts around a dash.
parse_range-append :
    (a b : List ℕ)
    → All (λ c. Plain c × (c ≢ b'-')) a
    → All (λ c. Plain c × (c ≢ b'-')) b
    → parse_range (some (text_bytes ++ (a ++ (b'-' ∷ b)))) ≡ range_of a b
unfolding parse_range parse_spec is_whitespace strip_prefix
parse_range-append a b pa pb =
    let dash : Plain b'-' = (refl, λ e. absurd (omega (arith, e))) in
    let plain = All-map _ Plain (λ c h. h.0) in
    let solid = All-map Plain (λ c. is_whitespace c ≡ false) (λ c h. h.0) in
    let spec : List ℕ = a ++ (b'-' ∷ b) in
    let all : All Plain spec = All-append Plain a (b'-' ∷ b) (plain a pa) (dash, plain b pb) in
    let unit : Solid (text_bytes ++ spec) =
      (refl, (refl, (refl, (refl, (refl, (refl, solid spec all)))))) in
    let t1 = trim-Solid (text_bytes ++ spec) unit in
    let t2 = trim-Solid spec (solid spec all) in
    let c = contains-Plain spec all in
    let o = split_once-append b'-' a b (All-map _ _ (λ c h. h.1) a pa) in
    let t3 = trim-Solid a (solid a (plain a pa)) in
    let t4 = trim-Solid b (solid b (plain b pb)) in
    rw (t1, parse_range) (rw (t2, c, o, parse_spec) (rw (t3, t4) refl))

-- Of decimal numbers that are words, in a header with the unit `bytes=`: a dash between two of them
-- is the closed range from the first one to the second one, whose end stops at 2^64 - 1, or no range
-- if the second one is smaller; a dash behind a number is the range from there on; and a dash in front
-- of a number is a suffix of that length.
pub parse_range-Decimal :
    (a b : List ℕ) (m n : ℕ)
    → Decimal a m
    → Decimal b n
    → m < u64_mod
    → n < u64_mod
    → let unit : List ℕ = b'b' ∷ b'y' ∷ b't' ∷ b'e' ∷ b's' ∷ b'=' ∷ [] in
      (((m ≤ n)
          × (parse_range (some (unit ++ (a ++ (b'-' ∷ b))))
              ≡ some (bounded (record { start = m; end = min (n + 1) u64_max }))))
        ⊎ ((n < m) × (parse_range (some (unit ++ (a ++ (b'-' ∷ b)))) ≡ none)))
      × (parse_range (some (unit ++ (a ++ (b'-' ∷ [])))) ≡ some (from m))
      × (parse_range (some (unit ++ (b'-' ∷ b))) ≡ some (suffix n))
unfolding range_of closed_range
parse_range-Decimal [] b m n ra rb hm hn = absurd ra
parse_range-Decimal (c ∷ cs) [] m n ra rb hm hn = absurd rb
parse_range-Decimal (c ∷ cs) (d ∷ ds) m n ra rb hm hn =
    let pa = Decimal-Plain (c ∷ cs) m ra in
    let pb = Decimal-Plain (d ∷ ds) n rb in
    let um = parse_u64-Decimal (c ∷ cs) m hm ra in
    let un = parse_u64-Decimal (d ∷ ds) n hn rb in
    let both = parse_range-append (c ∷ cs) (d ∷ ds) pa pb in
    (
      elim (Bool-cases (leb m n)) [
        | inl t ↦ inl (ground arith, both ∙ rw (um, un, t) refl)
        | inr f ↦ inr (ground arith, both ∙ rw (um, un, f) refl)
      ],
      parse_range-append (c ∷ cs) [] pa tt ∙ rw (um, range_of) refl,
      parse_range-append [] (d ∷ ds) tt pb ∙ rw (un, range_of) refl,
    )

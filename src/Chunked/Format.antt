-- ===== src/Chunked/Format.antt =====
-- The aws-chunked format, which nestor-s3/src/body.rs decodes, in its own terms.
use nestor.Chunked.{
  header, content, trailers, parse_header, find_crlf, first_part, from_hex, hex_digits, hex_digit,
}
use nestor.Chunked.Framing.{Remains, framed, filled, ended, trailing}
use nestor.Common.{
  ℕ, ◌+◌, ◌*◌, ◌≤◌, ◌<◌, ◌≡◌, ◌≢◌, ◌⊎◌, inl, inr, refl, sym, ap, ◌∙◌, subst, List, [], ◌∷◌, ◌++◌,
  true, false, ◌&&◌, some, ltb, ◌==◌, ne→==, if◌then◌else◌, Bool-cases, All, length, ok, u64_mod,
  arith,
}
use nestor.Origin.Text.{within, is_whitespace, from_utf8, utf8_loop, utf8_char, split_on}
use nestor.Signing.Splits.{Solid, Without, split_on-append, split_on-whole, trim-Solid}

-- A hexadecimal digit of either case.
abbrev pub HexDigit : ℕ → ℕ → Type 0
HexDigit c d = ((d < 10) × (c ≡ 48 + d)) ⊎ ((10 ≤ d) × (d < 16) × ((c ≡ 55 + d) ⊎ (c ≡ 87 + d)))

-- A text of hexadecimal digits, read from the left behind `acc`.
abbrev pub Reads : ℕ → List ℕ → ℕ → Type 0
Reads acc [] n = acc ≡ n
Reads acc (c ∷ cs) n = (d : ℕ) × HexDigit c d × Reads (acc * 16 + d) cs n

abbrev pub Hex : List ℕ → ℕ → Type 0
Hex [] n = ⊥
Hex (c ∷ cs) n = Reads 0 (c ∷ cs) n

-- No line break inside.
abbrev pub Unbroken : List ℕ → Type 0
Unbroken [] = Unit {0}
Unbroken (a ∷ []) = Unit {0}
Unbroken (a ∷ b ∷ cs) = ((a ≡ 13 → b ≡ 10 → ⊥)) × Unbroken (b ∷ cs)

-- The header line of a chunk: its size in hexadecimal digits, and extensions behind a semicolon if
-- there are any. The line has fewer than 1024 bytes and no line break inside.
pub record SizeLine (line : List ℕ) (n : ℕ) : Type 0 where
  pub digits : List ℕ
  pub extension : List ℕ
  pub size : Hex digits n
  pub form : (line ≡ digits) ⊎ (line ≡ digits ++ (59 ∷ extension))
  pub word : n < u64_mod
  pub short : length line < 1024
  pub unbroken : Unbroken line

-- A body and its content: chunks, each a header line, a line break, as many bytes as the line says,
-- and a line break; and a chunk of size 0, behind which trailers may follow.
pub data Encodes : List ℕ → List ℕ → Type 0 where
  chunk :
      {bs p : List ℕ} (line part rest q : List ℕ)
      → SizeLine line (length part)
      → 0 < length part
      → bs ≡ line ++ 13 ∷ 10 ∷ (part ++ 13 ∷ 10 ∷ rest)
      → p ≡ part ++ q
      → Encodes rest q
      → Encodes bs p
  last :
      {bs p : List ℕ} (line rest : List ℕ)
      → SizeLine line 0
      → bs ≡ line ++ 13 ∷ 10 ∷ rest
      → p ≡ []
      → Encodes bs p

Reads-le : (cs : List ℕ) (acc n : ℕ) → Reads acc cs n → acc ≤ n
Reads-le [] acc n e = omega (arith, e)
Reads-le (c ∷ cs) acc n (d, small, r) = let h = Reads-le cs (acc * 16 + d) n r in omega (arith, h)

hex_digit-HexDigit : (c d : ℕ) → HexDigit c d → hex_digit c ≡ some d
unfolding hex_digit within
hex_digit-HexDigit c d h = ground arith

hex_digits-Reads :
    (cs : List ℕ) (acc n : ℕ) → n < u64_mod → Reads acc cs n → hex_digits acc cs ≡ some n
unfolding hex_digits
hex_digits-Reads [] acc n h e = ap some e
hex_digits-Reads (c ∷ cs) acc n h (d, digit, r) =
    let le = Reads-le cs (acc * 16 + d) n r in
    let one = hex_digit-HexDigit c d digit in
    let rest = hex_digits-Reads cs (acc * 16 + d) n h r in
    let t : ltb (acc * 16 + d) u64_mod ≡ true = ground arith in
    rw (one, hex_digits) (rw (t, rest) refl)

from_hex-Hex : (cs : List ℕ) (n : ℕ) → n < u64_mod → Hex cs n → from_hex cs ≡ some n
unfolding from_hex
from_hex-Hex [] n h r = absurd r
from_hex-Hex (c ∷ []) n h r = hex_digits-Reads (c ∷ []) 0 n h r
from_hex-Hex (c ∷ d ∷ cs) n h r =
    let (k, digit, _) = r in
    let plus : (c == b'+') ≡ false = ground arith in
    rw (plus, from_hex) (hex_digits-Reads (c ∷ d ∷ cs) 0 n h r)

-- What the digits are for the text functions.
abbrev Ascii : ℕ → Type 0
Ascii c = (is_whitespace c ≡ false) × (c ≢ 59) × (c < 128)

digit-Ascii : (c d : ℕ) → HexDigit c d → Ascii c
unfolding is_whitespace within
digit-Ascii c d h = (ground arith, λ e. absurd (ground arith), ground arith)

Reads-Ascii : (cs : List ℕ) (acc n : ℕ) → Reads acc cs n → All Ascii cs
Reads-Ascii [] acc n r = tt
Reads-Ascii (c ∷ cs) acc n (d, digit, r) =
    (digit-Ascii c d digit, Reads-Ascii cs (acc * 16 + d) n r)

Hex-Ascii : (cs : List ℕ) (n : ℕ) → Hex cs n → All Ascii cs
Hex-Ascii [] n r = absurd r
Hex-Ascii (c ∷ cs) n r = Reads-Ascii (c ∷ cs) 0 n r

utf8_loop-Ascii : (cs : List ℕ) → All Ascii cs → utf8_loop (length cs) cs ≡ some cs
unfolding utf8_loop utf8_char
utf8_loop-Ascii [] h = refl
utf8_loop-Ascii (c ∷ cs) h =
    let t : ltb c 0x80 ≡ true = ground (arith, h.0.2) in
    let one : utf8_char c cs ≡ some (c, cs) = rw (t, utf8_char) refl in
    rw (one, utf8_loop) (rw (utf8_loop-Ascii cs h.1) refl)

from_utf8-Ascii : (cs : List ℕ) → All Ascii cs → from_utf8 cs ≡ some cs
unfolding from_utf8
from_utf8-Ascii cs h = utf8_loop-Ascii cs h

Ascii-Solid : (cs : List ℕ) → All Ascii cs → Solid cs
Ascii-Solid [] h = tt
Ascii-Solid (c ∷ cs) h = (h.0.0, Ascii-Solid cs h.1)

Ascii-Without : (cs : List ℕ) → All Ascii cs → Without 59 cs
Ascii-Without [] h = tt
Ascii-Without (c ∷ cs) h = (h.0.1, Ascii-Without cs h.1)

parse_header-SizeLine : (line : List ℕ) (n : ℕ) → SizeLine line n → parse_header line ≡ ok n
unfolding parse_header first_part
parse_header-SizeLine line n s =
    let ascii = Hex-Ascii s.digits n s.size in
    let whole = Ascii-Without s.digits ascii in
    let first : first_part line (split_on 59 line) ≡ s.digits = elim s.form [
      | inl e ↦
          ap (λ l. first_part l (split_on 59 l)) e
          ∙ ap (first_part s.digits) (split_on-whole 59 s.digits whole)
      | inr e ↦
          ap (λ l. first_part l (split_on 59 l)) e
          ∙ ap (first_part (s.digits ++ (59 ∷ s.extension)))
              (split_on-append 59 s.digits s.extension whole)
    ] in
    let u = from_utf8-Ascii s.digits ascii in
    let t = trim-Solid s.digits (Ascii-Solid s.digits ascii) in
    let h = from_hex-Hex s.digits n s.word s.size in
    rw (first, parse_header) (rw u (rw (t, h) refl))

find_crlf-Unbroken :
    (line rest : List ℕ) → Unbroken line → find_crlf (line ++ 13 ∷ 10 ∷ rest) ≡ some (length line)
unfolding find_crlf
find_crlf-Unbroken [] rest u = refl
find_crlf-Unbroken (a ∷ []) rest u = ground arith
find_crlf-Unbroken (a ∷ b ∷ cs) rest (n, u) =
    let h = find_crlf-Unbroken (b ∷ cs) rest u in
    elim (Bool-cases (a == 13 && b == 10)) [
      | inl t ↦ absurd (n (ground arith) (ground arith))
      | inr f ↦ rw (f, find_crlf) (rw h refl)
    ]

-- The decoder reads the format as it is meant.
pub Remains-Encodes : (bs p : List ℕ) → Encodes bs p → Remains header bs p
Remains-Encodes bs p (chunk line part rest q s some_bytes e f more) =
    framed line (part ++ 13 ∷ 10 ∷ rest) (length part) e
      (ap find_crlf e ∙ find_crlf-Unbroken line _ s.unbroken) s.short
      (parse_header-SizeLine line (length part) s)
      (subst
        (λ b. Remains (if b then trailers else content (length part)) (part ++ 13 ∷ 10 ∷ rest) p)
        (sym (ne→== (length part) 0 (λ z. absurd (omega (arith, z, some_bytes)))))
        (filled part (13 ∷ 10 ∷ rest) q refl f refl some_bytes
          (ended rest refl (Remains-Encodes rest q more))))
Remains-Encodes bs p (last line rest s e f) =
    framed line rest 0 e (ap find_crlf e ∙ find_crlf-Unbroken line rest s.unbroken) s.short
      (parse_header-SizeLine line 0 s) (trailing f)

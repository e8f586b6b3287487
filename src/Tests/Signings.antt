-- ===== src/Tests/Signings.antt =====
-- nestor-s3/src/sigv4.rs: runs and theorems.
use nestor.Common.{ℕ, ◌≤◌, ◌≡◌, ◌<◌, ◌≢◌, false, refl, List, [], ◌∷◌, ◌++◌, some, length, arith}
use nestor.Origin.Text.{is_whitespace, same}
use nestor.Signing.{
  Authorization, signing_key, get_key, signing_keys_kept, header_value, parse_header, lower,
}
use nestor.Signing.Derived.{Asked, after, get_key-after}
use nestor.Signing.Splits.{PlainChar}
use nestor.Signing.Header.{IsPlain, parse_header-header_value}

abbrev joined : List ℕ → List ℕ → List ℕ
joined key text = key ++ text

abbrev asked : Asked
asked = record { secret = b'a' ∷ []; day = b'1' ∷ []; region = b'r' ∷ [] }

again :
    (get_key joined (after joined [] (asked ∷ [])) (b'a' ∷ []) (b'1' ∷ []) (b'r' ∷ [])).0
    ≡ after joined [] (asked ∷ [])
unfolding get_key after same
again = refl

get_key-after_example :
    let r =
      get_key joined (after joined [] (asked ∷ asked ∷ [])) (b'a' ∷ []) (b'1' ∷ []) (b'q' ∷ []) in
    (r.1 ≡ signing_key joined (b'a' ∷ []) (b'1' ∷ []) (b'q' ∷ []))
    × (length r.0 ≤ signing_keys_kept)
get_key-after_example =
    get_key-after joined (asked ∷ asked ∷ []) (b'a' ∷ []) (b'1' ∷ []) (b'q' ∷ [])

abbrev signed : Authorization
signed = record {
  access_key = b'A' ∷ [];
  date = b'7' ∷ [];
  region = b'r' ∷ [];
  signed_headers = (b'h' ∷ []) ∷ (b'x' ∷ []) ∷ [];
  signature = b'f' ∷ [];
}

name_char : (c : ℕ) → is_whitespace c ≡ false → lower c ≡ c → 59 < c → PlainChar c
name_char c w l h = (w, λ e. absurd (omega (arith, h, e)), λ e. absurd (omega (arith, h, e)), l)

sliced_char :
    (c : ℕ)
    → is_whitespace c ≡ false
    → 47 < c
    → ((is_whitespace c ≡ false) × (c ≢ b',')) × (c ≢ b'/')
sliced_char c w h = ((w, λ e. absurd (omega (arith, h, e))), λ e. absurd (omega (arith, h, e)))

signed-IsPlain : IsPlain signed
unfolding is_whitespace lower
signed-IsPlain = record {
  access_key = (sliced_char b'A' refl (omega arith), tt);
  date = (sliced_char b'7' refl (omega arith), tt);
  region = (sliced_char b'r' refl (omega arith), tt);
  signature = ((sliced_char b'f' refl (omega arith)).0, tt);
  signed_headers = (
    (name_char b'h' refl refl (omega arith), tt),
    ((name_char b'x' refl refl (omega arith), tt), tt),
  );
  nonempty = λ e. absurd cc;
}

parse_header-header_value_example : parse_header (header_value signed) ≡ some signed
parse_header-header_value_example = parse_header-header_value signed signed-IsPlain

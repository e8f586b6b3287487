-- ===== src/Signing/Header.antt =====
-- nestor-s3/src/sigv4.rs, the `Authorization` header: reading what is written gives it back.
use nestor.Common.{
  ℕ, ◌≡◌, ◌≢◌, ◌==◌, ◌&&◌, not, refl, ap, ◌∙◌, List, [], ◌∷◌, ◌++◌, Bool, true, false, none, some,
  All, map, arith,
}
use nestor.Origin.Text.{same, split_on, trim_start, is_whitespace}
use nestor.Policy.Overrides.{split_once}
use nestor.Key.Bytes.{◌>>=◌}
use nestor.Signing.{
  Authorization, Fields, service, terminator, text_credential, text_signed_headers, text_signature,
  scope, join, header_value, parse_header, read_fields, assemble_fields, assemble, assembled,
  lower_all, set_field,
}
use nestor.Signing.Splits.{
  PlainChar, Without, Solid, split_on-append, split_on-whole, trim-Solid, trim-spaced,
  split_on-join, lower_all-Lower, All-append,
}

-- No white space and no comma.
abbrev Clean : ℕ → Type 0
Clean c = (is_whitespace c ≡ false) × (c ≢ b',')

abbrev Sliced : ℕ → Type 0
Sliced c = Clean c × (c ≢ b'/')

abbrev Plain : List ℕ → Type 0
Plain text = All PlainChar text

-- No text holds white space or a comma; the access key, the date and the region hold no slash; the
-- signed headers hold no semicolon and no capital letter of ASCII, and there is one at least.
pub record IsPlain (a : Authorization) : Type 0 where
  pub access_key : All Sliced a.access_key
  pub date : All Sliced a.date
  pub region : All Sliced a.region
  pub signature : All Clean a.signature
  pub signed_headers : All Plain a.signed_headers
  pub nonempty : a.signed_headers ≢ []

All-map : (P Q : ℕ → Type 0) (f : (c : ℕ) → P c → Q c) (text : List ℕ) → All P text → All Q text
All-map P Q f [] h = tt
All-map P Q f (c ∷ cs) h = (f c h.0, All-map P Q f cs h.1)

unfoldable clean_test : List ℕ → Bool
unfolding is_whitespace
clean_test [] = true
clean_test (c ∷ cs) = not (is_whitespace c) && not (c == b',') && clean_test cs

test-ne : (c : ℕ) → (c == b',') ≡ false → c ≢ b','
test-ne c h = ground arith

all_clean : (w s t : Bool) → (not w && not s && t) ≡ true → (w ≡ false) × ((s ≡ false) × (t ≡ true))
all_clean w s t h = ground arith

clean_test-Clean : (text : List ℕ) → clean_test text ≡ true → All Clean text
unfolding clean_test
clean_test-Clean [] h = tt
clean_test-Clean (c ∷ cs) h =
    let (w, (s, t)) = all_clean _ _ _ h in ((w, test-ne c s), clean_test-Clean cs t)

-- One of the three texts `key=value` of the header.
abbrev named : List ℕ → List ℕ → List ℕ
named k v = k ++ b'=' ∷ v

abbrev credential : Authorization → List ℕ
credential a = a.access_key ++ b'/' ∷ scope a.date a.region

named-Clean : (k v : List ℕ) → clean_test k ≡ true → All Clean v → All Clean (named k v)
unfolding is_whitespace
named-Clean k v h w =
    All-append Clean k (b'=' ∷ v) (clean_test-Clean k h) ((refl, λ e. absurd (omega arith)), w)

credential-Clean : (a : Authorization) → IsPlain a → All Clean (credential a)
unfolding scope is_whitespace clean_test
credential-Clean a p =
    let clean = All-map Sliced Clean (λ c h. h.0) in
    let slash : Clean b'/' = (refl, λ e. absurd (omega arith)) in
    let tail = clean_test-Clean (service ++ (b'/' ∷ terminator)) refl in
    let places =
      All-append Clean a.region (b'/' ∷ (service ++ (b'/' ∷ terminator))) (clean a.region p.region)
        (slash, tail) in
    let dated =
      All-append Clean a.date (b'/' ∷ (a.region ++ (b'/' ∷ (service ++ (b'/' ∷ terminator)))))
        (clean a.date p.date) (slash, places) in
    All-append Clean a.access_key (b'/' ∷ scope a.date a.region) (clean a.access_key p.access_key)
      (slash, dated)

join-Clean : (names : List (List ℕ)) → All Plain names → All Clean (join names)
unfolding join is_whitespace
join-Clean [] h = tt
join-Clean (name ∷ []) h = All-map PlainChar Clean (λ c k. (k.0, k.1)) name h.0
join-Clean (name ∷ next ∷ names) h =
    All-append Clean name (b';' ∷ join (next ∷ names))
      (All-map PlainChar Clean (λ c k. (k.0, k.1)) name h.0)
      ((refl, λ e. absurd (omega arith)), join-Clean (next ∷ names) h.1)

Clean-Solid : (text : List ℕ) → All Clean text → Solid text
Clean-Solid = All-map Clean _ (λ c h. h.0)

Clean-Without : (text : List ℕ) → All Clean text → Without b',' text
Clean-Without = All-map Clean _ (λ c h. h.1)

abbrev no_fields : Fields
no_fields = record { credential = none; signed_headers = none; signature = none }

abbrev fields_of : Authorization → Fields
fields_of a = record {
  credential = some (credential a);
  signed_headers = some (join a.signed_headers);
  signature = some a.signature;
}

read_fields_lem :
    (a : Authorization)
    → IsPlain a
    → read_fields no_fields (
        named text_credential (credential a)
        ∷ (32 ∷ named text_signed_headers (join a.signed_headers))
        ∷ (32 ∷ named text_signature a.signature)
        ∷ [])
      ≡ some (fields_of a)
unfolding read_fields split_once set_field clean_test same
read_fields_lem a p =
    let first = named text_credential (credential a) in
    let second = named text_signed_headers (join a.signed_headers) in
    let third = named text_signature a.signature in
    let one = named-Clean text_credential (credential a) refl (credential-Clean a p) in
    let two = named-Clean text_signed_headers _ refl (join-Clean _ p.signed_headers) in
    let three = named-Clean text_signature _ refl p.signature in
    let one' = trim-Solid first (Clean-Solid first one) in
    let two' = trim-spaced second (Clean-Solid second two) in
    let three' = trim-spaced third (Clean-Solid third three) in rw (one', two', three') refl

-- The parts between the commas of the header.
split_fields :
    (a : Authorization)
    → IsPlain a
    → split_on b',' (
        named text_credential (credential a)
        ++ (b','
            ∷ 32
            ∷ (named text_signed_headers (join a.signed_headers)
                ++ (b',' ∷ 32 ∷ named text_signature a.signature))))
      ≡ named text_credential (credential a)
        ∷ (32 ∷ named text_signed_headers (join a.signed_headers))
        ∷ (32 ∷ named text_signature a.signature)
        ∷ []
unfolding clean_test
split_fields a p =
    let first = named text_credential (credential a) in
    let second = 32 ∷ named text_signed_headers (join a.signed_headers) in
    let third = 32 ∷ named text_signature a.signature in
    let one = named-Clean text_credential (credential a) refl (credential-Clean a p) in
    let two = named-Clean text_signed_headers _ refl (join-Clean _ p.signed_headers) in
    let three = named-Clean text_signature _ refl p.signature in
    let space : 32 ≢ b',' = test-ne 32 refl in
    split_on-append b',' first (second ++ (b',' ∷ third)) (Clean-Without first one)
    ∙ ap (◌∷◌ first) (
        split_on-append b',' second third
          (space, Clean-Without (named text_signed_headers (join a.signed_headers)) two)
        ∙ ap (◌∷◌ second) (
            split_on-whole b',' third
              (space, Clean-Without (named text_signature a.signature) three)))

Sliced-Without : (text : List ℕ) → All Sliced text → Without b'/' text
Sliced-Without = All-map Sliced _ (λ c h. h.1)

split_credential :
    (a : Authorization)
    → IsPlain a
    → split_on b'/' (credential a) ≡ a.access_key ∷ a.date ∷ a.region ∷ service ∷ terminator ∷ []
unfolding scope split_on
split_credential a p =
    let last = service ++ (b'/' ∷ terminator) in
    split_on-append b'/' a.access_key (scope a.date a.region)
      (Sliced-Without a.access_key p.access_key)
    ∙ ap (◌∷◌ a.access_key) (
        split_on-append b'/' a.date (a.region ++ b'/' ∷ last) (Sliced-Without a.date p.date)
        ∙ ap (◌∷◌ a.date) (split_on-append b'/' a.region last (Sliced-Without a.region p.region)))

lowered : (names : List (List ℕ)) → All Plain names → map lower_all names ≡ names
lowered [] h = refl
lowered (name ∷ names) h =
    ap (λ n. n ∷ map lower_all names)
      (lower_all-Lower name (All-map PlainChar _ (λ c k. k.3) name h.0))
    ∙ ap (◌∷◌ name) (lowered names h.1)

All-map_names : (names : List (List ℕ)) → All Plain names → All (Without b';') names
All-map_names [] h = tt
All-map_names (name ∷ names) h =
    (All-map PlainChar _ (λ c k. k.2) name h.0, All-map_names names h.1)

split_names :
    (names : List (List ℕ))
    → All Plain names
    → names ≢ []
    → map lower_all (split_on b';' (join names)) ≡ names
split_names [] h n = absurd (n refl)
split_names (name ∷ names) h n =
    let apart = All-map_names (name ∷ names) h in
    ap (map lower_all) (split_on-join name names apart) ∙ lowered (name ∷ names) h

assemble_lem : (a : Authorization) → IsPlain a → assemble_fields (fields_of a) ≡ some a
unfolding assemble_fields assemble assembled same
assemble_lem a p =
    let c = split_credential a p in
    let h = split_names a.signed_headers p.signed_headers p.nonempty in rw (c, h) refl

-- An authorization with a signed header at least, whose texts hold no white space and no comma, whose
-- access key, date and region hold no slash, and whose signed headers hold no semicolon and no
-- capital letter of ASCII: the header that is written for it is read back as it.
pub parse_header-header_value :
    (a : Authorization) → IsPlain a → parse_header (header_value a) ≡ some a
unfolding parse_header header_value trim_start is_whitespace
parse_header-header_value a p =
    let s = split_fields a p in
    let r = read_fields_lem a p in
    let e = assemble_lem a p in
    ap (λ x. read_fields no_fields x >>= assemble_fields) s ∙ ap (λ x. x >>= assemble_fields) r ∙ e

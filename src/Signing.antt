-- ===== src/Signing.antt =====
-- nestor-s3/src/sigv4.rs: derived signing keys and the cache of them, and the `Authorization` header.
-- Texts are lists of code points, which HMAC takes as bytes; HMAC is a third party's and a parameter.
pub mod Derived
pub mod Splits
pub mod Header
use nestor.Common.{
  ℕ, zero, suc, ◌+◌, List, [], ◌∷◌, ◌++◌, Bool, true, false, ◌&&◌, Option, none, some, ◌==◌,
  if◌then◌else◌, length, drop, map,
}
use nestor.Gateway.Ranges.{strip_prefix}
use nestor.Key.Bytes.{◌>>=◌}
use nestor.Origin.Text.{same, within, split_on, trim, trim_start}
use nestor.Policy.Overrides.{split_once}

abbrev pub algorithm : List ℕ
algorithm =
    b'A' ∷ b'W' ∷ b'S' ∷ b'4' ∷ b'-' ∷ b'H' ∷ b'M' ∷ b'A' ∷ b'C' ∷ b'-' ∷ b'S' ∷ b'H' ∷ b'A' ∷ b'2'
    ∷ b'5' ∷ b'6' ∷ []

abbrev pub service : List ℕ
service = b's' ∷ b'3' ∷ []

abbrev pub terminator : List ℕ
terminator = b'a' ∷ b'w' ∷ b's' ∷ b'4' ∷ b'_' ∷ b'r' ∷ b'e' ∷ b'q' ∷ b'u' ∷ b'e' ∷ b's' ∷ b't' ∷ []

abbrev pub text_aws4 : List ℕ
text_aws4 = b'A' ∷ b'W' ∷ b'S' ∷ b'4' ∷ []

abbrev pub text_credential : List ℕ
text_credential = b'C' ∷ b'r' ∷ b'e' ∷ b'd' ∷ b'e' ∷ b'n' ∷ b't' ∷ b'i' ∷ b'a' ∷ b'l' ∷ []

abbrev pub text_signed_headers : List ℕ
text_signed_headers =
    b'S' ∷ b'i' ∷ b'g' ∷ b'n' ∷ b'e' ∷ b'd' ∷ b'H' ∷ b'e' ∷ b'a' ∷ b'd' ∷ b'e' ∷ b'r' ∷ b's' ∷ []

abbrev pub text_signature : List ℕ
text_signature = b'S' ∷ b'i' ∷ b'g' ∷ b'n' ∷ b'a' ∷ b't' ∷ b'u' ∷ b'r' ∷ b'e' ∷ []

-- `SIGNING_KEYS_KEPT`.
abbrev pub signing_keys_kept : ℕ
signing_keys_kept = 8

pub record SigningKey : Type 0 where
  pub secret : List ℕ
  pub day : List ℕ
  pub region : List ℕ
  pub key : List ℕ

module _ (hmac : List ℕ → List ℕ → List ℕ) where
  unfoldable pub signing_key : List ℕ → List ℕ → List ℕ → List ℕ
  signing_key secret date region =
      let k_date = hmac (text_aws4 ++ secret) date in
      let k_region = hmac k_date region in
      let k_service = hmac k_region service in hmac k_service terminator

  -- `entries.iter().find(..)`.
  unfoldable pub find_key : List SigningKey → List ℕ → List ℕ → List ℕ → Option (List ℕ)
  find_key [] secret day region = none
  find_key (e ∷ entries) secret day region =
      if same e.day day && same e.region region && same e.secret secret
      then some e.key
      else find_key entries secret day region

  -- The oldest entry gives way to a new one.
  unfoldable pub push_key : List SigningKey → SigningKey → List SigningKey
  push_key entries e =
      (if length entries == signing_keys_kept then drop 1 entries else entries) ++ e ∷ []

  -- `SigningKeys::get`.
  unfoldable pub get_key : List SigningKey → List ℕ → List ℕ → List ℕ → List SigningKey × List ℕ
  unfolding signing_key find_key push_key
  get_key entries secret day region = elim (find_key entries secret day region) [
    | some key ↦ (entries, key)
    | none ↦
        let key = signing_key secret day region in
        (push_key entries (record { secret = secret; day = day; region = region; key = key }), key)
  ]

pub record Authorization : Type 0 where
  pub access_key : List ℕ
  pub date : List ℕ
  pub region : List ℕ
  pub signed_headers : List (List ℕ)
  pub signature : List ℕ

-- The parts of the header that have been read.
pub record Fields : Type 0 where
  pub credential : Option (List ℕ)
  pub signed_headers : Option (List ℕ)
  pub signature : Option (List ℕ)

unfoldable pub set_field : Fields → List ℕ → List ℕ → Option Fields
set_field f k v =
    if same k text_credential
    then some (record f { credential = some v })
    else if same k text_signed_headers
    then some (record f { signed_headers = some v })
    else if same k text_signature
    then some (record f { signature = some v })
    else none

-- The loop over the parts.
unfoldable pub read_fields : Fields → List (List ℕ) → Option Fields
unfolding set_field split_once
read_fields f [] = some f
read_fields f (part ∷ parts) = do
  (k, v) ← split_once b'=' (trim part)
  f' ← set_field f k v
  read_fields f' parts

-- `char::to_ascii_lowercase`.
unfoldable pub lower : ℕ → ℕ
unfolding within
lower c = if within b'A' b'Z' c then c + 32 else c

unfoldable pub lower_all : List ℕ → List ℕ
unfolding lower
lower_all [] = []
lower_all (c ∷ cs) = lower c ∷ lower_all cs

-- The five parts of a credential, of which the last two are fixed.
unfoldable pub assembled : List (List ℕ) → List (List ℕ) → List ℕ → Option Authorization
assembled (access_key ∷ date ∷ region ∷ s ∷ t ∷ []) headers signature =
    if same s service && same t terminator
    then some (record {
      access_key = access_key;
      date = date;
      region = region;
      signed_headers = headers;
      signature = signature;
    })
    else none
assembled parts headers signature = none

unfoldable pub assemble : List ℕ → List ℕ → List ℕ → Option Authorization
unfolding assembled lower_all
assemble credential signed_headers signature =
    assembled (split_on b'/' credential) (map lower_all (split_on b';' signed_headers)) signature

-- `credential?`, `signed_headers?` and `signature?`.
unfoldable pub assemble_fields : Fields → Option Authorization
unfolding assemble
assemble_fields f = do
  credential ← f.credential
  signed_headers ← f.signed_headers
  signature ← f.signature
  assemble credential signed_headers signature

unfoldable pub parse_header : List ℕ → Option Authorization
unfolding strip_prefix read_fields assemble_fields
parse_header value = do
  rest ← strip_prefix algorithm value
  f ←
      read_fields (record { credential = none; signed_headers = none; signature = none })
        (split_on b',' (trim_start rest))
  assemble_fields f

unfoldable pub scope : List ℕ → List ℕ → List ℕ
scope date region = date ++ (b'/' ∷ (region ++ (b'/' ∷ (service ++ (b'/' ∷ terminator)))))

-- `join(";")`.
unfoldable pub join : List (List ℕ) → List ℕ
join [] = []
join (name ∷ []) = name
join (name ∷ next ∷ names) = name ++ b';' ∷ join (next ∷ names)

unfoldable pub header_value : Authorization → List ℕ
unfolding scope join
header_value a =
    let credential = a.access_key ++ (b'/' ∷ scope a.date a.region) in
    let signature = text_signature ++ (b'=' ∷ a.signature) in
    let signed =
      text_signed_headers ++ (b'=' ∷ (join a.signed_headers ++ (b',' ∷ 32 ∷ signature))) in
    algorithm ++ (32 ∷ (text_credential ++ (b'=' ∷ (credential ++ (b',' ∷ 32 ∷ signed)))))

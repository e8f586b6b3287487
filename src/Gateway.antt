-- ===== src/Gateway.antt =====
-- nestor-s3/src/addressing.rs and the routing of nestor-s3/src/routes.rs. Texts are lists of bytes,
-- which are cut at ASCII characters only. Percent decoding is a third party's and a parameter.
pub mod Ranges
pub mod Routing
pub mod Responses
pub mod Numerals
use nestor.Common.{
  ℕ, zero, suc, ◌+◌, ◌-◌, List, [], ◌∷◌, Bool, true, false, not, ◌&&◌, ◌||◌, Option, none, some,
  leb, ◌==◌, if◌then◌else◌, length, take, drop, Result, ok, err,
}
use nestor.Origin.Text.{same, within, split_on}
use nestor.Policy.Overrides.{split_once}

pub data Addressing : Type 0 where
  path : Addressing
  virtual_hosted : List ℕ → Addressing

pub record Target : Type 0 where
  pub bucket : Option (List ℕ)
  pub key : Option (List ℕ)

-- The one error of this part.
pub data S3Error : Type 0 where
  invalid_bucket_name : List ℕ → S3Error

unfoldable pub non_empty : List ℕ → Option (List ℕ)
non_empty [] = none
non_empty (c ∷ cs) = some (c ∷ cs)

abbrev pub is_lower : ℕ → Bool
unfolding within
is_lower c = within b'a' b'z' c

abbrev pub is_digit : ℕ → Bool
unfolding within
is_digit c = within b'0' b'9' c

-- A byte of a bucket name, and one that may stand at its ends.
unfoldable pub bucket_byte : ℕ → Bool
bucket_byte c = is_lower c || is_digit c || c == b'-' || c == b'.'

unfoldable pub is_alphanumeric : ℕ → Bool
unfolding within
is_alphanumeric c = is_digit c || within b'A' b'Z' c || is_lower c

unfoldable pub all_bytes : (ℕ → Bool) → List ℕ → Bool
all_bytes test [] = true
all_bytes test (c ∷ cs) = test c && all_bytes test cs

-- `first().is_some_and(..)` and `last().is_some_and(..)`.
unfoldable pub first_is : (ℕ → Bool) → List ℕ → Bool
first_is test [] = false
first_is test (c ∷ cs) = test c

unfoldable pub last_is : (ℕ → Bool) → List ℕ → Bool
last_is test [] = false
last_is test (c ∷ []) = test c
last_is test (c ∷ d ∷ cs) = last_is test (d ∷ cs)

-- `name.contains("..")`.
unfoldable pub two_dots : List ℕ → Bool
two_dots [] = false
two_dots (c ∷ []) = false
two_dots (c ∷ d ∷ cs) = (c == b'.' && d == b'.') || two_dots (d ∷ cs)

unfoldable pub well_formed : List ℕ → Bool
unfolding all_bytes first_is last_is two_dots bucket_byte is_alphanumeric
well_formed name =
    leb 3 (length name)
    && leb (length name) 63
    && all_bytes bucket_byte name
    && first_is is_alphanumeric name
    && last_is is_alphanumeric name
    && not (two_dots name)

unfoldable pub validated_bucket : List ℕ → Result S3Error (List ℕ)
unfolding well_formed
validated_bucket name = if well_formed name then ok name else err (invalid_bucket_name name)

-- `str::strip_prefix('/').unwrap_or(path)`.
unfoldable pub without_slash : List ℕ → List ℕ
without_slash [] = []
without_slash (c ∷ cs) = if c == b'/' then cs else c ∷ cs

unfoldable pub strip_suffix : List ℕ → List ℕ → Option (List ℕ)
strip_suffix suffix text =
    let n = length text - length suffix in
    if leb (length suffix) (length text) && same (drop n text) suffix
    then some (take n text)
    else none

-- `host.split(':').next().unwrap_or(host)`.
unfoldable pub host_name : List ℕ → List ℕ
host_name host = elim (split_on b':' host) [ [] ↦ host | part ∷ parts ↦ part ]

-- The bucket in front of the domain, if there is one.
unfoldable pub host_bucket : Addressing → List ℕ → Option (List ℕ)
unfolding strip_suffix non_empty
host_bucket path host = none
host_bucket (virtual_hosted domain) host = elim (strip_suffix domain host) [
  | none ↦ none
  | some front ↦ elim (strip_suffix (b'.' ∷ []) front) [
    | none ↦ none
    | some bucket ↦ non_empty bucket
  ]
]

-- `path.split_once('/')`, and the whole path as the bucket otherwise.
unfoldable pub path_parts : List ℕ → List ℕ × Option (List ℕ)
unfolding non_empty split_once
path_parts p = elim (split_once b'/' p) [
  | none ↦ (p, none)
  | some (bucket, key) ↦ (bucket, non_empty key)
]

unfoldable pub with_bucket : Result S3Error (List ℕ) → Option (List ℕ) → Result S3Error Target
with_bucket (err x) key = err x
with_bucket (ok bucket) key = ok (record { bucket = some bucket; key = key })

-- `option.map(validated_bucket).transpose()?`.
unfoldable pub path_target : Option (List ℕ) → Option (List ℕ) → Result S3Error Target
unfolding validated_bucket with_bucket
path_target none key = ok (record { bucket = none; key = key })
path_target (some bucket) key = with_bucket (validated_bucket bucket) key

-- What `dispatch` does with a request.
pub data Route : Type 0 where
  serve : (bucket key : List ℕ) → Route
  forward : Target → Route
  panics : Route

module _ (percent_decode : List ℕ → List ℕ) where
  unfoldable pub decoded : Option (List ℕ) → Option (List ℕ)
  decoded none = none
  decoded (some key) = some (percent_decode key)

  unfoldable pub resolve : Addressing → List ℕ → List ℕ → Result S3Error Target
  unfolding host_name without_slash host_bucket path_parts path_target with_bucket decoded non_empty
  resolve addressing host raw_path =
      let p = without_slash raw_path in
      let parts = path_parts p in
      elim (host_bucket addressing (host_name host)) [
        | some bucket ↦ with_bucket (validated_bucket bucket) (decoded (non_empty p))
        | none ↦ path_target (non_empty parts.0) (decoded parts.1)
      ]

-- The bucket that `serve` expects, for a request that can be cached.
unfoldable pub served : Target → List ℕ → Route
served t key = elim t.bucket [ none ↦ panics | some bucket ↦ serve bucket key ]

-- The end of `dispatch`: `reads` tells whether the method is GET or HEAD.
unfoldable pub dispatched : Bool → List ℕ → Target → Route
unfolding served
dispatched reads raw_query t = elim t.key [
  | none ↦ forward t
  | some key ↦ if reads && length raw_query == 0 then served t key else forward t
]

-- ===== src/Tests/Gateways.antt =====
-- nestor-s3/src/addressing.rs, nestor-s3/src/routes.rs and nestor-s3/src/headers.rs: runs and theorems.
use nestor.Block.{bounded, from, suffix}
use nestor.Block
use nestor.Common.{
  min, ◌++◌, ℕ, ◌+◌, ◌≤◌, ◌<◌, ◌≡◌, ◌⊎◌, ◌↔◌, u64_max, refl, List, [], ◌∷◌, none, some, true, ok,
  err, Range, arith,
}
use nestor.Gateway.{
  path, Target, invalid_bucket_name, panics, resolve, dispatched, validated_bucket,
}
use nestor.Gateway.Ranges.{content_headers, parse_range}
use nestor.Gateway.Responses.{content_headers-resolve}
use nestor.Gateway.Numerals.{parse_range-Decimal}
use nestor.Origin.Text.{trim}
use nestor.Gateway.Routing.{dispatched-panics}

abbrev same_bytes : List ℕ → List ℕ
same_bytes cs = cs

abbrev keyed : Target
keyed = record { bucket = none; key = some (b'k' ∷ []) }

in_bucket :
    resolve same_bytes path [] (b'/' ∷ b'l' ∷ b'o' ∷ b'g' ∷ b'/' ∷ b'k' ∷ [])
    ≡ ok (record { bucket = some (b'l' ∷ b'o' ∷ b'g' ∷ []); key = some (b'k' ∷ []) })
unfolding resolve
in_bucket = refl

short_name : validated_bucket (b'l' ∷ b'o' ∷ []) ≡ err (invalid_bucket_name (b'l' ∷ b'o' ∷ []))
unfolding validated_bucket
short_name = refl

dispatched-panics_example :
    (dispatched true [] keyed ≡ panics)
    ↔ ((c : ℕ) × (cs : List ℕ) × (◌≡◌ {A = List ℕ} (b'/' ∷ b'k' ∷ []) (b'/' ∷ c ∷ cs)))
unfolding resolve
dispatched-panics_example = dispatched-panics same_bytes [] (b'/' ∷ b'k' ∷ []) keyed refl

-- bytes=2-5
abbrev closed : List ℕ
closed = b'b' ∷ b'y' ∷ b't' ∷ b'e' ∷ b's' ∷ b'=' ∷ b'2' ∷ b'-' ∷ b'5' ∷ []

first_bytes : parse_range (some closed) ≡ some (bounded (record { start = 2; end = 6 }))
unfolding parse_range trim
first_bytes = refl

abbrev two : List ℕ
two = b'2' ∷ []

abbrev five : List ℕ
five = b'5' ∷ []

parse_range-Decimal_example :
    let unit : List ℕ = b'b' ∷ b'y' ∷ b't' ∷ b'e' ∷ b's' ∷ b'=' ∷ [] in
    (((2 ≤ 5)
        × (parse_range (some (unit ++ (two ++ (b'-' ∷ five))))
            ≡ some (bounded (record { start = 2; end = min (5 + 1) u64_max }))))
      ⊎ ((5 < 2) × (parse_range (some (unit ++ (two ++ (b'-' ∷ five)))) ≡ none)))
    × (parse_range (some (unit ++ (two ++ (b'-' ∷ [])))) ≡ some (from 2))
    × (parse_range (some (unit ++ (b'-' ∷ five))) ≡ some (suffix 5))
parse_range-Decimal_example =
    parse_range-Decimal two five 2 5 (2, omega arith, refl, refl) (5, omega arith, refl, refl)
      (omega arith) (omega arith)

abbrev nothing : Range
nothing = record { start = 0; end = 0 }

content_headers-resolve_example :
    let h = content_headers nothing 0 true in
    (h.content_length ≡ 0)
    × ((last : ℕ) × (h.content_range ≡ some (0, last, 0))
        × (((0 < 0) × (last + 1 ≡ 0) × (0 ≤ last) × (last < 0))
            ⊎ ((◌≡◌ {A = ℕ} 0 0) × (last ≡ u64_max))))
unfolding Block.resolve
content_headers-resolve_example = content_headers-resolve (suffix 5) 0 nothing (omega arith) refl

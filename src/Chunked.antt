-- ===== src/Chunked.antt =====
-- nestor-s3/src/body.rs, `AwsChunkedDecoder`: the framing of an aws-chunked body. The inner stream is
-- the list of what it yields; an error of it is opaque, and waiting for it changes nothing. Sizes are
-- usize, of 64 bits.
pub mod Polls
pub mod Framing
pub mod Format
pub mod Rounds
pub mod Decoding
use nestor.Common.{
  ℕ, zero, suc, ◌+◌, ◌-◌, ◌*◌, min, List, [], ◌∷◌, ◌++◌, Bool, true, false, ◌&&◌, Option, none,
  some, ltb, leb, ◌==◌, if◌then◌else◌, length, take, drop, u64_mod, Result, ok, err,
}
use nestor.Origin.Text.{within, from_utf8, split_on, trim, same}

abbrev pub max_header_line : ℕ
max_header_line = 1024

-- `content` is the source's `Data`.
pub data Phase : Type 0 where
  header : Phase
  content : ℕ → Phase
  data_crlf trailers done : Phase

pub data DecodeError : Type 0 where
  not_utf8 not_hex too_long no_terminator ended_early : DecodeError
  inner : ℕ → DecodeError

pub record Decoder : Type 0 where
  pub input : List (Result ℕ (List ℕ))
  pub buf : List ℕ
  pub phase : Phase
  pub eof : Bool

-- `AwsChunkedDecoder::new`.
unfoldable pub new_decoder : List (Result ℕ (List ℕ)) → Decoder
new_decoder input = record { input = input; buf = []; phase = header; eof = false }

-- `char::to_digit(16)`.
unfoldable pub hex_digit : ℕ → Option ℕ
unfolding within
hex_digit c =
    if within b'0' b'9' c
    then some (c - b'0')
    else if within b'a' b'f' c
    then some (c - b'a' + 10)
    else if within b'A' b'F' c
    then some (c - b'A' + 10)
    else none

-- The digits behind `acc`; too large a number is an error.
unfoldable pub hex_digits : ℕ → List ℕ → Option ℕ
unfolding hex_digit
hex_digits acc [] = some acc
hex_digits acc (c ∷ cs) = elim (hex_digit c) [
  | none ↦ none
  | some d ↦
      let acc' = acc * 16 + d in
      let rest = hex_digits acc' cs in if ltb acc' u64_mod then rest else none
]

-- `usize::from_str_radix(_, 16)`.
unfoldable pub from_hex : List ℕ → Option ℕ
unfolding hex_digits
from_hex [] = none
from_hex (c ∷ []) = hex_digits 0 (c ∷ [])
from_hex (c ∷ d ∷ cs) = if c == b'+' then hex_digits 0 (d ∷ cs) else hex_digits 0 (c ∷ d ∷ cs)

-- `line.split(|b| *b == b';').next().unwrap_or(line)`.
unfoldable pub first_part : List ℕ → List (List ℕ) → List ℕ
first_part line [] = line
first_part line (part ∷ parts) = part

unfoldable pub parse_header : List ℕ → Result DecodeError ℕ
unfolding from_hex first_part
parse_header line = elim (from_utf8 (first_part line (split_on b';' line))) [
  | none ↦ err not_utf8
  | some text ↦ elim (from_hex (trim text)) [ none ↦ err not_hex | some n ↦ ok n ]
]

unfoldable pub find_crlf : List ℕ → Option ℕ
find_crlf [] = none
find_crlf (a ∷ []) = none
find_crlf (a ∷ b ∷ cs) =
    let rest = find_crlf (b ∷ cs) in
    if a == 13 && b == 10 then some 0 else elim rest [ none ↦ none | some i ↦ some (suc i) ]

-- One item of the stream, or its end.
abbrev pub Item : Type 0
Item = Option (Result DecodeError (List ℕ))

-- The next chunk of the inner stream.
unfoldable pub pull : Decoder → List (Result ℕ (List ℕ)) → Decoder × Option Item
pull d [] = (record d { input = []; eof = true }, none)
pull d (ok chunk ∷ rest) = (record d { input = rest; buf = d.buf ++ chunk }, none)
pull d (err x ∷ rest) = (record d { input = rest }, some (some (err (inner x))))

-- The end of a round of the loop: nothing more can be done with the buffer.
unfoldable pub more : Decoder → Decoder × Option Item
unfolding pull
more d = if d.eof then (d, some (some (err ended_early))) else pull d d.input

-- The size of a chunk has been read.
unfoldable pub sized : Decoder → Result DecodeError ℕ → Decoder × Option Item
sized d (err x) = (d, some (some (err x)))
sized d (ok n) = (record d { phase = if n == 0 then trailers else content n }, none)

unfoldable pub header_step : Decoder → Decoder × Option Item
unfolding find_crlf parse_header sized more
header_step d = elim (find_crlf d.buf) [
  | some pos ↦ sized (record d { buf = drop (pos + 2) d.buf }) (parse_header (take pos d.buf))
  | none ↦ if ltb max_header_line (length d.buf) then (d, some (some (err too_long))) else more d
]

unfoldable pub data_step : Decoder → ℕ → Decoder × Option Item
unfolding more
data_step d remaining =
    let n = min remaining (length d.buf) in
    if length d.buf == 0 then more d else (
      record d {
        buf = drop n d.buf;
        phase = if n == remaining then data_crlf else content (remaining - n);
      },
      some (some (ok (take n d.buf))),
    )

unfoldable pub crlf_step : Decoder → Decoder × Option Item
unfolding more
crlf_step d =
    if leb 2 (length d.buf)
    then if same (take 2 d.buf) (13 ∷ 10 ∷ [])
      then (record d { buf = drop 2 d.buf; phase = header }, none)
      else (d, some (some (err no_terminator)))
    else more d

unfoldable pub trailers_step : Decoder → Decoder × Option Item
unfolding more
trailers_step d =
    let cleared = record d { buf = [] } in
    if d.eof then (record cleared { phase = done }, some none) else more cleared

-- The arms of the `match` on the state.
unfoldable pub phase_step : Phase → Decoder → Decoder × Option Item
unfolding header_step data_step crlf_step trailers_step
phase_step done d = (d, some none)
phase_step header d = header_step d
phase_step (content remaining) d = data_step d remaining
phase_step data_crlf d = crlf_step d
phase_step trailers d = trailers_step d

-- A round of the loop of `poll_next`; it returns if there is an item.
unfoldable pub step : Decoder → Decoder × Option Item
unfolding phase_step
step d = phase_step d.phase d

-- The loop, for a number of rounds; `none` if they do not suffice.
unfoldable pub poll_loop : ℕ → Decoder → Option (Decoder × Item)
unfolding step
poll_loop zero d = none
poll_loop (suc fuel) d =
    let out = step d in
    let rest = poll_loop fuel out.0 in elim out.1 [ none ↦ rest | some item ↦ some (out.0, item) ]

-- What the loop can still do: bytes and chunks that are left, and the end of the inner stream.
unfoldable pub left : List (Result ℕ (List ℕ)) → ℕ
left [] = 0
left (ok chunk ∷ rest) = suc (length chunk + left rest)
left (err x ∷ rest) = suc (left rest)

unfoldable pub measure : Decoder → ℕ
unfolding left
measure d = length d.buf + left d.input + (if d.eof then 0 else 1)

unfoldable pub poll_next : Decoder → Option (Decoder × Item)
unfolding poll_loop measure
poll_next d = poll_loop (suc (measure d)) d

-- ===== src/Tests/Chunks.antt =====
-- nestor-s3/src/body.rs: a framed body in three chunks.
use nestor.Chunked.{Decoder, Item, new_decoder, poll_next, measure}
use nestor.Chunked.Decoding.{collect_parts, collect_parts-Encodes}
use nestor.Chunked.Framing.{stream}
use nestor.Chunked.Format.{Encodes, Hex, SizeLine, chunk, last}
use nestor.Chunked.Polls.{poll_next-return}
use nestor.Common.{◌<◌, inl, inr, ℕ, ◌+◌, ◌≡◌, refl, List, [], ◌∷◌, some, Result, ok, err, arith}

-- `3;s=1`, the bytes `abc`, and the last chunk.
abbrev input : List (Result ℕ (List ℕ))
input =
    ok (b'3' ∷ b';' ∷ b's' ∷ [])
    ∷ ok (b'=' ∷ b'1' ∷ 13 ∷ 10 ∷ b'a' ∷ b'b' ∷ [])
    ∷ ok (b'c' ∷ 13 ∷ 10 ∷ b'0' ∷ 13 ∷ 10 ∷ 13 ∷ 10 ∷ [])
    ∷ []

abbrev abc : List ℕ
abc = b'a' ∷ b'b' ∷ b'c' ∷ []

apart : {a b : ℕ} → 13 < a → a ≡ 13 → b ≡ 10 → ⊥
apart h e f = omega (arith, h, e)

-- The two header lines, and one with an upper-case digit.
first_line : SizeLine (b'3' ∷ b';' ∷ b's' ∷ b'=' ∷ b'1' ∷ []) 3
first_line = record {
  digits = b'3' ∷ [];
  extension = b's' ∷ b'=' ∷ b'1' ∷ [];
  size = (3, inl (omega arith, refl), refl);
  form = inr refl;
  word = omega arith;
  short = omega arith;
  unbroken = (
    apart (omega arith),
    (apart (omega arith), (apart (omega arith), (apart (omega arith), tt))),
  );
}

last_line : SizeLine (b'0' ∷ []) 0
last_line = record {
  digits = b'0' ∷ [];
  extension = [];
  size = (0, inl (omega arith, refl), refl);
  form = inl refl;
  word = omega arith;
  short = omega arith;
  unbroken = tt;
}

upper_line : Hex (b'1' ∷ b'A' ∷ []) 26
upper_line = (1, inl (omega arith, refl), (10, inr (omega arith, omega arith, inl refl), refl))

body_Encodes : Encodes (stream input) abc
unfolding stream
body_Encodes =
    chunk (b'3' ∷ b';' ∷ b's' ∷ b'=' ∷ b'1' ∷ []) abc (b'0' ∷ 13 ∷ 10 ∷ 13 ∷ 10 ∷ []) [] first_line
      (omega arith) refl refl (last (b'0' ∷ []) (13 ∷ 10 ∷ []) last_line refl refl)

collect_parts-Encodes_example :
    collect_parts (measure (new_decoder input) + 1) (new_decoder input) ≡ some (ok abc)
collect_parts-Encodes_example = collect_parts-Encodes input abc tt body_Encodes

poll_next-return_example : (r : Decoder × Item) × (poll_next (new_decoder (err 7 ∷ [])) ≡ some r)
poll_next-return_example = poll_next-return (new_decoder (err 7 ∷ []))

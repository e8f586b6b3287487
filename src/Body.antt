-- ===== src/Body.antt =====
-- nestor/src/body.rs, `BlockStream`: the body of an origin response cut into blocks. The body is
-- the list of the chunks and errors that it will yield. Offsets on this platform fit a `usize`.
pub mod Reassembly
use nestor.Common.{
  ℕ, ◌+◌, ◌-◌, min, Bool, true, false, ◌&&◌, List, [], ◌∷◌, ◌++◌, length, take, drop, leb, ◌==◌,
  if◌then◌else◌, Result, ok, err, OriginError, short_read,
}

pub record BlockStream : Type 0 where
  pub body : List (Result OriginError (List ℕ))
  pub buf : List ℕ
  pub skip : ℕ

unfoldable pub new : List (Result OriginError (List ℕ)) → BlockStream
new body = record { body = body; buf = []; skip = 0 }

unfoldable pub skipping : BlockStream → ℕ → BlockStream
skipping s bytes = record s { skip = bytes }

-- `split_to(expected)`, with the rest kept in the buffer.
abbrev cut_block :
    List (Result OriginError (List ℕ)) → List ℕ → ℕ → ℕ → BlockStream × Result OriginError (List ℕ)
cut_block body buf skip expected =
    (record { body = body; buf = drop expected buf; skip = skip }, ok (take expected buf))

-- The loop of `next_block`.
unfoldable pub next_loop :
    List (Result OriginError (List ℕ)) → List ℕ → ℕ → ℕ → BlockStream × Result OriginError (List ℕ)
next_loop [] buf skip expected =
    if leb expected (length buf)
    then cut_block [] buf skip expected
    else (record { body = []; buf = buf; skip = skip }, err (short_read expected (length buf)))
next_loop (err e ∷ body) buf skip expected =
    if leb expected (length buf)
    then cut_block (err e ∷ body) buf skip expected
    else (record { body = body; buf = buf; skip = skip }, err e)
next_loop (ok chunk ∷ body) buf skip expected =
    let skipped = min (length chunk) skip in
    let rest = drop skipped chunk in
    let more = next_loop body (buf ++ rest) (skip - skipped) expected in
    if leb expected (length buf)
    then cut_block (ok chunk ∷ body) buf skip expected
    else if length buf == 0 && leb expected (length rest)
    then cut_block body rest (skip - skipped) expected
    else more

unfoldable pub next_block : BlockStream → ℕ → BlockStream × Result OriginError (List ℕ)
unfolding next_loop
next_block s expected = next_loop s.body s.buf s.skip expected

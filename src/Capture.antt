-- ===== src/Capture.antt =====
-- nestor-s3/src/body.rs, `Capture`: the bytes of a forwarded body, kept up to a limit. The lock
-- makes one call a step; lengths of bytes in memory fit a `usize`.
pub mod Limit
use nestor.Common.{
  ℕ, ◌+◌, List, [], ◌∷◌, ◌++◌, Option, none, some, Bool, true, false, length, ltb, if◌then◌else◌,
}

pub record Captured : Type 0 where
  pub chunks : List (List ℕ)
  pub len : ℕ
  pub overflow : Bool

pub record Capture : Type 0 where
  pub captured : Captured
  pub limit : ℕ

-- `Capture::new`.
unfoldable pub new_capture : ℕ → Capture
new_capture limit = record {
  captured = record { chunks = []; len = 0; overflow = false };
  limit = limit;
}

unfoldable pub push : Captured → ℕ → List ℕ → Captured
push c limit chunk =
    if c.overflow
    then c
    else if ltb limit (c.len + length chunk)
    then record c { overflow = true; chunks = [] }
    else record c { len = c.len + length chunk; chunks = c.chunks ++ (chunk ∷ []) }

-- The chunks in a row.
unfoldable pub joined : List (List ℕ) → List ℕ
joined [] = []
joined (chunk ∷ chunks) = chunk ++ joined chunks

-- The `match` on the number of chunks.
unfoldable pub assembled : List (List ℕ) → List ℕ
unfolding joined
assembled [] = []
assembled (chunk ∷ []) = chunk
assembled (a ∷ b ∷ chunks) = joined (a ∷ b ∷ chunks)

-- `Capture::take`.
unfoldable pub take_captured : Captured → Option (List ℕ)
unfolding assembled
take_captured c = if c.overflow then none else some (assembled c.chunks)

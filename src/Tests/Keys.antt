-- ===== src/Tests/Keys.antt =====
-- nestor/src/key.rs: a key and a block on disk.
use nestor.Common.{ℕ, ◌≡◌, ◌+◌, List, [], ◌∷◌, ◌++◌, some, arith}
use nestor.Origin.{since}
use nestor.Key.{Block, BlockKey, ObjectKey, block_key, encode_block, decode_block, Hasher}
use nestor.Key.Codec.{KeyFits, BlockFits, stored, decode_block-encode_block}

abbrev photo : ObjectKey
photo = record { namespace = 3; object = b'p' ∷ b'/' ∷ b'1' ∷ [] }

abbrev key : BlockKey
key = block_key photo 77 5

abbrev block : Block
block = record {
  meta = record { size = 3; etag = some []; last_modified = some (since 1_500_000_999) };
  content = 1 ∷ 2 ∷ 255 ∷ [];
}

key-KeyFits : KeyFits key
unfolding block_key
key-KeyFits = record {
  namespace = omega arith;
  tag = omega arith;
  index = omega arith;
  object = omega arith;
}

block-BlockFits : BlockFits block
block-BlockFits = record { size = omega arith; etag = omega arith; content = omega arith }

decode_block-encode_block_example :
    decode_block (encode_block block ++ (9 ∷ [])) ≡ some (stored block, 9 ∷ [])
decode_block-encode_block_example = decode_block-encode_block block (9 ∷ []) block-BlockFits

-- A hash that adds up its input.
abbrev adder : List ℕ → ℕ
adder [] = 0
adder (x ∷ xs) = x + adder xs

abbrev pub sums : Hasher
sums = record { write = adder; write_u64 = λ n. n }

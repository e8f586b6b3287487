-- ===== src/Key.antt =====
-- nestor/src/key.rs: keys, blocks, their encoding on disk, and content tags. Bytes are numbers
-- below 256; an I/O error is `none`. The hash functions of `ahash` are parameters.
pub mod Bytes
pub mod Codec
pub mod Tags
use nestor.Common.{
  ℕ, zero, suc, ◌+◌, ◌/◌, ◌%◌, ◌*◌, ◌≡◌, List, [], ◌∷◌, ◌++◌, Option, none, some, length, ltb,
  if◌then◌else◌, map_or, unwrap_or, u32_mod, u64_mod, max, Bool, true, false,
}
use nestor.Origin.{ObjectMeta, SystemTime, before, since}
use Bytes.{to_le, from_le, read_exact, get_le, ◌>>=◌}

pub record Block : Type 0 where
  pub meta : ObjectMeta
  pub content : List ℕ

-- `Block::empty`.
unfoldable pub empty : ObjectMeta → Block
empty m = record { meta = m; content = [] }

abbrev pub meta_header : ℕ
meta_header = 8 + 8 + 2

unfoldable pub unix_millis : SystemTime → ℕ
unix_millis (before n) = 0
unix_millis (since n) = n / 1_000_000 % u64_mod

unfoldable pub encode_block : Block → List ℕ
encode_block b =
    let etag = unwrap_or b.meta.etag [] in
    to_le 8 b.meta.size
    ++ (to_le 8 (map_or b.meta.last_modified 0 unix_millis)
        ++ (to_le 2 (length etag) ++ (etag ++ (to_le 4 (length b.content) ++ b.content))))

-- The entity tag behind the header; length 0 stands for no tag.
unfoldable pub read_etag : ℕ → List ℕ → Option (Option (List ℕ) × List ℕ)
read_etag n reader =
    if ltb 0 n
    then (do (etag, reader) ← read_exact n reader; some (some etag, reader))
    else some (none, reader)

-- `(modified > 0).then(|| UNIX_EPOCH + Duration::from_millis(modified))`.
unfoldable pub from_millis : ℕ → Option SystemTime
from_millis modified = if ltb 0 modified then some (since (modified * 1_000_000)) else none

unfoldable pub decode_block : List ℕ → Option (Block × List ℕ)
decode_block reader = do
  (header, reader) ← read_exact meta_header reader
  let (size, header) = get_le 8 header
  let (modified, header) = get_le 8 header
  let (etag_len, header) = get_le 2 header
  (etag, reader) ← read_etag etag_len reader
  (len, reader) ← read_exact 4 reader
  (content, reader) ← read_exact (from_le len) reader
  some (
    record {
      meta = record { size = size; etag = etag; last_modified = from_millis modified };
      content = content;
    },
    reader,
  )

unfoldable pub block_estimated_size : Block → ℕ
block_estimated_size b = meta_header + map_or b.meta.etag 0 length + 4 + length b.content

pub record ObjectKey : Type 0 where
  pub namespace : ℕ
  pub object : List ℕ

pub record BlockKey : Type 0 where
  pub namespace : ℕ
  pub tag : ℕ
  pub index : ℕ
  pub object : List ℕ

-- `BlockKey::new`.
unfoldable pub block_key : ObjectKey → ℕ → ℕ → BlockKey
block_key o tag index = record {
  namespace = o.namespace;
  tag = tag;
  index = index;
  object = o.object;
}

abbrev pub key_header : ℕ
key_header = 4 + 8 + 4 + 4

unfoldable pub encode_key : BlockKey → List ℕ
encode_key k =
    to_le 4 k.namespace
    ++ (to_le 8 k.tag ++ (to_le 4 k.index ++ (to_le 4 (length k.object) ++ k.object)))

unfoldable pub decode_key : List ℕ → Option (BlockKey × List ℕ)
decode_key reader = do
  (header, reader) ← read_exact key_header reader
  let (namespace, header) = get_le 4 header
  let (tag, header) = get_le 8 header
  let (index, header) = get_le 4 header
  let (len, header) = get_le 4 header
  (object, reader) ← read_exact len reader
  some (record { namespace = namespace; tag = tag; index = index; object = object }, reader)

unfoldable pub key_estimated_size : BlockKey → ℕ
key_estimated_size k = key_header + length k.object

pub data Consistency : Type 0 where
  immutable : Consistency
  etag : (ttl : ℕ) → Consistency

unfoldable pub is_immutable : Consistency → Bool
is_immutable immutable = true
is_immutable (etag ttl) = false

-- The two ways in which a hasher with the fixed seeds is used.
pub record Hasher : Type 0 where
  pub write : List ℕ → ℕ
  pub write_u64 : ℕ → ℕ

unfoldable pub content_tag : Hasher → Option (List ℕ) → ℕ → ℕ
content_tag h none size = max (h.write_u64 size) 1
content_tag h (some bytes) size = max (h.write bytes) 1

abbrev pub immutable_tag : ℕ
immutable_tag = 0

unfoldable pub block_tag : Hasher → Consistency → ObjectMeta → ℕ
unfolding is_immutable content_tag
block_tag h c m = if is_immutable c then immutable_tag else content_tag h m.etag m.size

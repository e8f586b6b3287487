-- ===== src/Key/Codec.antt =====
-- nestor/src/key.rs, the `Code` implementations: what is encoded is decoded again.
use nestor.Common.{
  ℕ, suc, ◌==◌, Bool-cases, inl, inr, true, false, ltb, ap, sym, ◌-◌, ◌*◌, ◌%◌, ◌/◌, if◌then◌else◌,
  ◌^◌, ◌<◌, ◌≡◌, refl, List, [], ◌∷◌, ◌++◌, append_assoc, Option, none, some, length, length-append,
  lt→ltb, map_or, unwrap_or, arith, u32_mod, u64_mod,
}
use nestor.Origin.{SystemTime, before, since}
use nestor.Key.Bytes.{
  to_le, length-to_le, from_le-to_le, read_exact-append, get_le-append, get_le_all,
}
use nestor.Key.{
  Block, BlockKey, encode_block, decode_block, encode_key, decode_key, read_etag, from_millis,
  unix_millis, block_estimated_size, key_estimated_size, key_header, meta_header,
}

-- The fields of a key fit their widths.
pub record KeyFits (k : BlockKey) : Type 0 where
  pub namespace : k.namespace < u32_mod
  pub tag : k.tag < u64_mod
  pub index : k.index < u32_mod
  pub object : length k.object < u32_mod

header_length :
    (k : BlockKey)
    → length
        (to_le 4 k.namespace ++ (to_le 8 k.tag ++ (to_le 4 k.index ++ to_le 4 (length k.object))))
      ≡ key_header
header_length k = simp (length-append, length-to_le) refl

-- A key whose fields fit their widths is read back from its encoding, whatever follows, and
-- nothing behind it is consumed.
decode_key-encode_key :
    (k : BlockKey) (rest : List ℕ) → KeyFits k → decode_key (encode_key k ++ rest) ≡ some (k, rest)
unfolding decode_key encode_key
decode_key-encode_key k rest f =
    let n = to_le 4 k.namespace in
    let t = to_le 8 k.tag in
    let i = to_le 4 k.index in
    let l = to_le 4 (length k.object) in
    let shape : encode_key k ++ rest ≡ (n ++ (t ++ (i ++ l))) ++ (k.object ++ rest) =
      simp append_assoc in
    let header =
      read_exact-append key_header (n ++ (t ++ (i ++ l))) (k.object ++ rest) (header_length k) in
    rw
      (
        shape,
        header,
        get_le-append 4 k.namespace _ f.namespace,
        get_le-append 8 k.tag _ f.tag,
        get_le-append 4 k.index _ f.index,
        get_le_all 4 (length k.object) f.object,
        read_exact-append (length k.object) k.object rest refl,
      )
      refl

-- The fields of a block fit their widths on disk.
pub record BlockFits (b : Block) : Type 0 where
  pub size : b.meta.size < u64_mod
  pub etag : length (unwrap_or b.meta.etag []) < 2 ^ 16
  pub content : length b.content < u32_mod

-- What the encoding keeps of a block: an empty entity tag counts as none, and of the modification
-- time, in nanoseconds, only the whole milliseconds since the epoch, modulo 2^64 of them; a time
-- before the epoch or in its first millisecond counts as unknown.
abbrev pub kept_time : Option SystemTime → Option SystemTime
kept_time none = none
kept_time (some (before n)) = none
kept_time (some (since n)) =
    let reachable = n % (u64_mod * 1_000_000) in
    let whole = reachable - reachable % 1_000_000 in if whole == 0 then none else some (since whole)

abbrev pub kept_etag : Option (List ℕ) → Option (List ℕ)
kept_etag none = none
kept_etag (some []) = none
kept_etag (some (x ∷ xs)) = some (x ∷ xs)

abbrev pub stored : Block → Block
stored b = record {
  meta = record {
    size = b.meta.size;
    etag = kept_etag b.meta.etag;
    last_modified = kept_time b.meta.last_modified;
  };
  content = b.content;
}

read_etag-kept :
    (etag : Option (List ℕ)) (rest : List ℕ)
    → read_etag (length (unwrap_or etag [])) (unwrap_or etag [] ++ rest)
      ≡ some (kept_etag etag, rest)
unfolding read_etag
read_etag-kept none rest = refl
read_etag-kept (some []) rest = refl
read_etag-kept (some (x ∷ xs)) rest =
    rw
      (
        lt→ltb 0 (suc (length xs)) (omega arith),
        read_exact-append (suc (length xs)) (x ∷ xs) rest refl,
      )
      refl

whole_millis :
    (n : ℕ)
    → let r = n % (u64_mod * 1_000_000) in r - r % 1_000_000 ≡ n / 1_000_000 % u64_mod * 1_000_000
whole_millis n = omega arith

from_millis_lem :
    (k w : ℕ) → w ≡ k * 1_000_000 → from_millis k ≡ (if w == 0 then none else some (since w))
unfolding from_millis
from_millis_lem k w e = elim (Bool-cases (ltb 0 k)) [
  | inl t ↦
      let z : (w == 0) ≡ false = ground arith in
      rw (z, t, from_millis) (ap (λ n. some (since n)) (sym e))
  | inr f ↦ let z : (w == 0) ≡ true = ground arith in rw (z, f, from_millis) refl
]

from_millis-kept_time : (m : Option SystemTime) → from_millis (map_or m 0 unix_millis) ≡ kept_time m
unfolding from_millis unix_millis
from_millis-kept_time none = refl
from_millis-kept_time (some (before n)) = refl
from_millis-kept_time (some (since n)) =
    let reachable = n % (u64_mod * 1_000_000) in
    from_millis_lem (n / 1_000_000 % u64_mod) (reachable - reachable % 1_000_000) (whole_millis n)

millis-lt : (m : Option SystemTime) → map_or m 0 unix_millis < u64_mod
unfolding unix_millis
millis-lt none = omega arith
millis-lt (some (before n)) = omega arith
millis-lt (some (since n)) = omega arith

-- A block whose fields fit their widths is read back from its encoding as what the encoding keeps
-- of it, whatever follows, and nothing behind it is consumed.
pub decode_block-encode_block :
    (b : Block) (rest : List ℕ)
    → BlockFits b
    → decode_block (encode_block b ++ rest) ≡ some (stored b, rest)
unfolding decode_block encode_block
decode_block-encode_block b rest f =
    let e = unwrap_or b.meta.etag [] in
    let millis = map_or b.meta.last_modified 0 unix_millis in
    let s = to_le 8 b.meta.size in
    let m = to_le 8 millis in
    let l = to_le 2 (length e) in
    let c = to_le 4 (length b.content) in
    let shape : encode_block b ++ rest ≡ (s ++ (m ++ l)) ++ (e ++ (c ++ (b.content ++ rest))) =
      simp append_assoc in
    rw
      (
        shape,
        read_exact-append meta_header (s ++ (m ++ l)) _ (simp (length-append, length-to_le) refl),
        get_le-append 8 b.meta.size _ f.size,
        get_le-append 8 millis _ (millis-lt b.meta.last_modified),
        from_millis-kept_time b.meta.last_modified,
        get_le_all 2 (length e) f.etag,
        read_etag-kept b.meta.etag (c ++ (b.content ++ rest)),
        read_exact-append 4 c (b.content ++ rest) (length-to_le 4 (length b.content)),
        from_le-to_le 4 (length b.content) f.content,
        read_exact-append (length b.content) b.content rest refl,
      )
      refl

-- The sizes that are announced are the sizes of the encodings.
estimated_size-eq :
    (k : BlockKey) (b : Block)
    → (key_estimated_size k ≡ length (encode_key k))
      × (block_estimated_size b ≡ length (encode_block b))
unfolding key_estimated_size block_estimated_size encode_key encode_block
estimated_size-eq k b =
    let e = etag_length b.meta.etag in
    (
      simp (length-append, length-to_le) (omega arith),
      simp (length-append, length-to_le) (omega arith),
    )
  where
    etag_length : (o : Option (List ℕ)) → map_or o 0 length ≡ length (unwrap_or o [])
    etag_length none = refl
    etag_length (some xs) = refl

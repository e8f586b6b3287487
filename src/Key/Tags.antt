-- ===== src/Key/Tags.antt =====
-- nestor/src/key.rs, `content_tag` and `block_tag`.
use nestor.Common.{ℕ, ◌<◌, ◌≡◌, ◌↔◌, Option, none, some, List, arith}
use nestor.Origin.{ObjectMeta}
use nestor.Key.{
  Hasher, Consistency, immutable, etag, content_tag, block_tag, immutable_tag, ObjectKey, block_key,
}

content_tag-pos : (h : Hasher) (e : Option (List ℕ)) (size : ℕ) → 0 < content_tag h e size
unfolding content_tag
content_tag-pos h none size = omega arith
content_tag-pos h (some bytes) size = omega arith

-- Whatever the hash functions, a block's key in a namespace equals an immutable one over the same
-- object exactly if the namespace is immutable and the indexes agree.
block_tag-immutable :
    (h : Hasher) (c : Consistency) (m : ObjectMeta) (o : ObjectKey) (i j : ℕ)
    → (block_key o (block_tag h c m) i ≡ block_key o immutable_tag j) ↔ ((c ≡ immutable) × (i ≡ j))
unfolding block_tag block_key
block_tag-immutable h immutable m o i j = ground arith
block_tag-immutable h (etag ttl) m o i j = ground (arith, content_tag-pos h m.etag m.size)

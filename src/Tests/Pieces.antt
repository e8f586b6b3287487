-- ===== src/Tests/Pieces.antt =====
-- nestor-client/src/read.rs: three blocks, each from a node that answers.
use nestor.Block.{BlockSize, bytes}
use nestor.Block.Size.{IsValid}
use nestor.Cluster.Pieces.{Answering, carried, cluster_get-carried}
use nestor.Cluster.Read.{Answers, cluster_get}
use nestor.Common.{
  ℕ, ◌≡◌, refl, ap, min, List, [], ◌∷◌, append-nil, none, some, length, slice, Range, Option,
  Result, OriginError, ok, err, io, arith,
}
use nestor.Fetch.{GetResponse}
use nestor.Origin.{ObjectMeta, GetOptions}

abbrev content : List ℕ
content = 7 ∷ 8 ∷ 9 ∷ []

abbrev kib64 : BlockSize
kib64 = record { shift = 16 }

kib64-IsValid : IsValid kib64
kib64-IsValid = (omega arith, omega arith)

abbrev meta : ObjectMeta
meta = record { size = 3; etag = none; last_modified = none }

abbrev part : Range → GetResponse
part r = record { meta = meta; range = r; body = ok (slice r.start (min r.end 3) content) ∷ [] }

abbrev nodes : Answers
nodes i options = elim options.range [ none ↦ err (io 0) | some r ↦ ok (part r) ]

abbrev answered : Option Range → Result OriginError GetResponse
answered range = elim range [ none ↦ err (io 0) | some r ↦ ok (part r) ]

part-carried : (r : Range) → carried (part r).body ≡ some (slice r.start (min r.end 3) content)
unfolding carried
part-carried r = ap some (append-nil (slice r.start (min r.end 3) content))

nodes-Answering : Answering nodes meta content
nodes-Answering i options r e h k = (part r, ap answered e, refl, part-carried r)

abbrev options : GetOptions
options = record {
  range = some (record { start = 1; end = 9 });
  if_match = none;
  if_none_match = none;
}

cluster_get-carried_example :
    (response : GetResponse) × (cluster_get kib64 nodes options ≡ ok response)
    × (response.meta ≡ meta)
    × (carried response.body ≡ some (slice 1 (min 9 (length content)) content))
unfolding bytes
cluster_get-carried_example =
    cluster_get-carried kib64 kib64-IsValid nodes meta content nodes-Answering options refl
      (omega arith) (omega arith) (omega arith)

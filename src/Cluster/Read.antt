-- ===== src/Cluster/Read.antt =====
-- nestor-client/src/read.rs, `Cluster::get`: a range is split into blocks, and their bodies are
-- chained. What the request for a block returns comes from outside; `buffered` keeps the order.
use nestor.Block.{BlockSize, index, offset, block_range}
use nestor.Common.{
  ℕ, ◌+◌, ◌-◌, ◌%◌, min, max, List, [], ◌∷◌, ◌++◌, Option, none, some, map_or, leb, if◌then◌else◌,
  range_from, Result, ok, err, OriginError, io, u32_mod, u64_max,
}
use nestor.Fetch.{GetResponse}
use nestor.Origin.{GetOptions}

-- The answers of the requests, by the block and the options.
abbrev pub Answers : Type 0
Answers = ℕ → GetOptions → Result OriginError GetResponse

unfoldable pub piece_options : BlockSize → Option (List ℕ) → ℕ → ℕ → GetOptions
piece_options b if_match end i = record {
  range = some (block_range b i (some end));
  if_match = if_match;
  if_none_match = none;
}

unfoldable pub piece : Result OriginError GetResponse → List (Result OriginError (List ℕ))
piece (err x) = err x ∷ []
piece (ok response) = response.body

-- The bodies of the blocks behind the first one.
unfoldable pub pieces :
    BlockSize → Answers → Option (List ℕ) → ℕ → List ℕ → List (Result OriginError (List ℕ))
unfolding piece piece_options
pieces b ask if_match end [] = []
pieces b ask if_match end (i ∷ is) =
    piece (ask i (piece_options b if_match end i)) ++ pieces b ask if_match end is

-- `Option::or_else`.
abbrev pub or_tag : Option (List ℕ) → Option (List ℕ) → Option (List ℕ)
or_tag none tag = tag
or_tag (some t) tag = some t

-- After the answer for the first block.
unfoldable pub chained : BlockSize → Answers → GetOptions → ℕ → ℕ → ℕ → GetResponse → GetResponse
unfolding pieces
chained b ask options start limit first_index first =
    let end = min limit first.meta.size in
    let last_index = max (index b (end - 1)) first_index in
    record {
      meta = first.meta;
      range = record { start = start; end = end };
      body =
          first.body
          ++ pieces b ask (or_tag options.if_match first.meta.etag) end
              (range_from (first_index + 1) (last_index - first_index));
    }

unfoldable pub first_options : BlockSize → GetOptions → ℕ → ℕ → GetOptions
first_options b options start limit = record {
  range =
      some (record { start = start; end = min limit (offset b ((index b start + 1) % u32_mod)) });
  if_match = options.if_match;
  if_none_match = options.if_none_match;
}

-- `Cluster::get`; 0 stands for the I/O error of an empty range.
unfoldable pub cluster_get : BlockSize → Answers → GetOptions → Result OriginError GetResponse
unfolding chained first_options
cluster_get b ask options =
    let start = map_or options.range 0 (λ r. r.start) in
    let limit = map_or options.range u64_max (λ r. r.end) in
    if leb limit start
    then err (io 0)
    else elim (ask (index b start) (first_options b options start limit)) [
      | err x ↦ err x
      | ok first ↦ ok (chained b ask options start limit (index b start) first)
    ]

-- ===== src/Lib.antt =====
-- Nestor, a read-through block cache in front of object stores: the core of the crate nestor,
-- and the parts of nestor-client and nestor-s3 that stand on their own.
--
-- A read resolves a request to a byte range of an object and the range to blocks. Blocks that are
-- missing are registered in the table of requests under way; their owners group them into fetch
-- groups, ask the origin, cut the body of the response into blocks, and resolve the slots that other
-- readers wait on. A failed attempt goes to the retry counter; a slow one is timed by the latency
-- histogram. Blocks are kept under keys whose tag stands for the object's content.
--
-- Which file models which part (paths from the repository's root):
--   * Common: words, ranges, lists over the native numbers, results; Common/Errors is
--     nestor/src/error.rs (`OriginError`, `NestorError`).
--   * Block: nestor/src/block.rs. `BlockSize` with `index`, `offset`, `count`, `blocks`, `span`,
--     `block_range`, `slice_within`, `first_group`; `ReadRange` with `resolve`; `group_misses` and
--     `aligned_take`. `push_miss` is the body of the loop of `group_misses`, `group_bounds` the match
--     of `first_group`. Proofs: Block/Size, Block/Groups, Block/Requests, Block/Cover.
--   * Origin: nestor/src/origin.rs. `ObjectMeta`, `Preconditions` and `evaluate`; Origin/Text has the
--     standard library's text functions that it uses. Proofs: Origin/Conditions and
--     Origin/Evaluation.
--   * Key: nestor/src/key.rs and `Consistency` of nestor/src/namespace.rs. The `Code` implementations
--     are `encode_key`, `decode_key`, `encode_block` and `decode_block`; a field `data` is named
--     `content`. Key/Bytes has the little-endian buffers. Proofs: Key/Codec, Key/Tags.
--   * Latency: nestor/src/latency.rs. `note` is `Generation::record`, `advance` the loop of `rotate`,
--     `find_slot` the search of `quantile_at`. Proofs: Latency/Buckets, Window, Samples, Quantile.
--   * Policy: nestor/src/policy.rs. `HedgeConfig`, `FetchPolicy`, `Retry`; Policy/Overrides is
--     `FetchOverrides::parse`. Proofs: Policy/Delay, Policy/Retries, Policy/Overrides/Laws.
--   * Inflight: nestor/src/inflight.rs. The table is a function from shard numbers to association
--     lists; a channel is a number on a heap. Proofs: Inflight/Table (the shards as one map),
--     Inflight/Sharing (one call) and Inflight/Interleaving (any sequence of calls).
--   * Body: nestor/src/body.rs, `BlockStream`. Proofs: Body/Reassembly.
--   * Lru: the interface of the third-party cache that the next module uses, with its laws: a map that
--     may lose entries and never invents one.
--   * Meta: nestor/src/meta.rs (`MetaCache`) and nestor/src/readahead.rs (`Readahead`). Proofs:
--     Meta/Freshness, Meta/Sequential.
--   * Namespace: nestor/src/namespace.rs, the configuration of a namespace; its setters have the prefix
--     `set_`.
--   * Store: the interfaces of the third-party caches that nestor/src/cache.rs stands on, for blocks
--     and for the counts of their reads, with the laws that the theorems assume of them: a cache may
--     lose entries and never invents one.
--   * Fetch: nestor/src/fetch.rs. `Fetcher` is the state: the table of requests, the block cache and the
--     metadata cache. Fetch/Consume is `consume` and `fill_trailing`: `lead`, `serve` and
--     `claim_trailing` are the three parts of `consume`. Fetch/Group is `accept` and `fetch_group`:
--     `round` is the body of its loop, `refused` and `accepted` are the arms of its match.
--     Fetch/Schedule is `schedule` and `adopt`: `enlist` and `land` are the parts of `schedule`
--     between its awaits. Fetch/Probe is `head` and `probe`, Fetch/Hedge `origin_get` and
--     `get_hedged`. Proofs: Fetch/Owed and Taking (no channel is forgotten), Rounds and Probed (the
--     loops end), Runs, Planned and Adopted (tasks and handles), Served and Answers (the bytes that
--     arrive), Hedged.
--   * Reader: nestor/src/reader.rs. `round` is the body of the loop of `next`, `pop`, `emit_block` and
--     `emit_error` its parts; the engine is an interface. Proofs: Reader/Rounds (the loop ends),
--     Reader/Handles (the window stays that of the blocks to come), Reader/Filled and
--     Reader/Collected (the bytes of a read).
--   * Node: nestor/src/nestor.rs. `Engine` is the state: the registry of namespaces, the parts of the
--     fetcher, and the detection of sequential reads. Node/Requests is `resolve_ctx` and `head`,
--     Node/Opening `get_opts` with its readahead, Node/Content `insert` and `invalidate`. Proofs:
--     Node/Registered, Resolved, Opened, Inserted, Invalidated.
--   * Admission: nestor/src/cache.rs, the settings of the caches and the counts of reads that admit a
--     block to disk; `count_read` is `Reads::record`. Proofs: Admission/Settings, Admission/Counting.
--   * Capture: nestor-s3/src/body.rs, `Capture`. Proofs: Capture/Limit.
--   * Chunked: nestor-s3/src/body.rs, `AwsChunkedDecoder`. `step` is the body of the loop of
--     `poll_next`, and there is one step for each phase; the inner stream is a list of what it yields.
--     Chunked/Format is the format in its own terms. Proofs: Chunked/Polls and Rounds (polls end),
--     Chunked/Framing and Decoding (the content).
--   * Cluster: nestor-client/src/node.rs and nestor-client/src/router.rs. `Ranked` is a list of
--     addresses; `sort_ranked` sorts as `sort_unstable_by` does, since no two nodes compare equal.
--     Proofs: Cluster/Choice. Cluster/Read is `Cluster::get` of nestor-client/src/read.rs over the
--     answers to the requests for its blocks; proofs: Cluster/Pieces.
--   * Gateway: nestor-s3/src/addressing.rs and the branches of nestor-s3/src/routes.rs that depend on
--     the target (`dispatched` is the end of `dispatch`, `panics` the expectation of a bucket in
--     `serve`); Gateway/Ranges is `parse_range` and `content_headers` of nestor-s3/src/headers.rs,
--     where a subtraction wraps as in a release build. Proofs: Gateway/Routing,
--     Gateway/Numerals (what is read of a range), Gateway/Responses (what is written of one).
--   * Signing: nestor-s3/src/sigv4.rs, the signing keys with their cache and the `Authorization`
--     header. Proofs: Signing/Derived (the cache), Signing/Splits and Signing/Header (the header).
--   * Tests: runs on concrete inputs, and the theorems applied to them.
--
-- Numbers are natural numbers with the wrap-around of u32 and u64 written out where the code can
-- reach it. Times are nanoseconds, passed in where the code reads a clock. Loops over lists are
-- structural. The loops over attempts take the list of what the origin does in each, and are shown to
-- return when it is as long as the policy's number of attempts. Fuel is used in these places:
-- `utf8_loop` takes the number of bytes, each round of which consumes at least one; `ilog2`,
-- `trailing_zeros` and `is_power_of_two` take the width of the word; `next_power_of_two` takes 64
-- doublings, enough for any usize; `fill_loop` takes one round more than the index of the read's last
-- block, and a round takes one block at least; `next_item` takes four rounds; `collect` takes one
-- item more than the read has blocks; `poll_loop` takes one round more than there are bytes, chunks and
-- an end left, and `collect_parts` one poll more than a body can have parts.
--
-- Parameters: the hash functions of ahash, floating-point numbers (`Floating`, and the product in
-- `rank`), humantime's parser of durations, the lru cache and the block cache, the answers of the
-- origin with their times, what other tasks do while `schedule` waits, for the reader the answers of
-- the engine, for `Cluster::get` the answers of the nodes, HMAC, and percent decoding.
--
-- Not modelled: threads inside one call (the table's lock and the histogram's atomics make a call one
-- step), serde and thiserror glue, `HedgedBody` (a body is read as a plain `BlockStream`), the waiting
-- on a channel that has no answer yet, the semaphores and metrics of the fetcher, the hedge between
-- nodes and the membership of nestor-client, the verification and canonical form of requests
-- and the HTTP handlers of nestor-s3, and the crates nestor-store, nestor-server, nestor-cli,
-- nestor-bench and nestor-e2e, which are glue, tools and tests.
pub mod Common
pub mod Block
pub mod Origin
pub mod Key
pub mod Lru
pub mod Meta
pub mod Namespace
pub mod Store
pub mod Fetch
pub mod Reader
pub mod Latency
pub mod Policy
pub mod Inflight
pub mod Body
pub mod Capture
pub mod Chunked
pub mod Cluster
pub mod Gateway
pub mod Signing
pub mod Admission
pub mod Node
mod Tests

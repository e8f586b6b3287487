-- ===== src/Tests/Fetches.antt =====
-- nestor/src/fetch.rs: a small object behind a block cache that keeps nothing.
use nestor.Block.{bytes}
use nestor.Block.Cover.{block_bytes}
use nestor.Block.Size.{IsValid}
use nestor.Body.{new}
use nestor.Common.{
  ℕ, ◌+◌, ◌≤◌, ◌≡◌, ◌⊎◌, refl, List, [], ◌∷◌, Option, none, some, true, false, All, slice, Result,
  ok, err, io, is_retryable, NestorError, Range, arith, max, ◌==◌, if◌then◌else◌,
}
use nestor.Fetch.{ReadCtx, GetResponse, Services, Fetcher}
use nestor.Fetch.Answers.{serve-answers}
use nestor.Fetch.Consume.{serve}
use nestor.Fetch.Group.{Attempt, fetch_group, headed}
use nestor.Fetch.Hedge.{Reply, retryable, ready, race, get_hedged}
use nestor.Fetch.Hedged.{get_hedged_lem}
use nestor.Fetch.Owed.{Covers, miss-Covers}
use nestor.Fetch.Planned.{Handled, schedule-Run, schedule-Covers}
use nestor.Fetch.Probe.{HeadAttempt, to_option, ProbeAttempt, Probed, head, probe}
use nestor.Fetch.Probed.{head-return, Ends, probe-return}
use nestor.Fetch.Rounds.{fetch_group-return}
use nestor.Fetch.Runs.{concat, Run}
use nestor.Fetch.Schedule.{keys, enlist, schedule}
use nestor.Fetch.Served.{Serves, publish, serve-publish}
use nestor.Inflight.{Inflight, Slot, wait, next_power_of_two}
use nestor.Inflight
use nestor.Inflight.Table.{added}
use nestor.Key.{Block, BlockKey, ObjectKey, block_key, etag}
use nestor.Meta.{MetaEntry}
use nestor.Namespace.{NamespaceConfig}
use nestor.Origin.{ObjectMeta}
use nestor.Tests.Caches.{single}
use nestor.Tests.Keys.{sums}
use nestor.Tests.Policies.{policy}

abbrev pub services : Services
services = record {
  hash = λ k. k.index;
  hasher = sums;
  store = record {
    Cache = Unit {0};
    get = λ c k. none;
    contains = λ c k. false;
    insert = λ c k b. c;
    remove = λ c k. c;
  };
  lru = single MetaEntry;
}

abbrev pub config : NamespaceConfig ℕ
config = record {
  block_size = record { shift = 16 };
  fetch_window = 8;
  read_window = 16;
  consistency = etag 60;
  readahead = 0;
  fetch = policy;
}

pub config-IsValid : IsValid config.block_size
config-IsValid = (omega arith, omega arith)

abbrev pub photo : ObjectKey
photo = record { namespace = 3; object = b'p' ∷ [] }

abbrev pub content : List ℕ
content = 7 ∷ 8 ∷ 9 ∷ []

abbrev pub meta : ObjectMeta
meta = record { size = 3; etag = none; last_modified = none }

abbrev pub ctx : ReadCtx ℕ
ctx = record {
  config = config;
  key = photo;
  tag = 5;
  if_match = none;
  meta = some meta;
  policy = policy;
}

abbrev pub idle : Fetcher services
idle = record { inflight = Inflight.new 4; blocks = tt; meta = none }

abbrev pub Nobody : ℕ → Type 0
Nobody id = ⊥

pub idle-Covers : Covers idle.inflight Nobody []
unfolding Inflight.new
idle-Covers = record { owed = λ id lt. absurd (omega arith); held = tt }

abbrev slot : ℕ → ℕ → Slot
slot i id = record { key = block_key photo 5 i; channel = id; resolved = false }

abbrev response : GetResponse
response = record {
  meta = meta;
  range = record { start = 0; end = 3 };
  body = ok (7 ∷ []) ∷ ok (8 ∷ 9 ∷ []) ∷ [];
}

abbrev fails : Attempt
fails = record { answer = err (io 1); head = none; now = 10 }

abbrev answers : Attempt
answers = record { answer = ok response; head = none; now = 70 }

abbrev asked : Fetcher services
asked = record idle { inflight = added services.hash idle.inflight (block_key photo 5 0) }

abbrev first_slot : Slot
first_slot = record { key = block_key photo 5 0; channel = idle.inflight.next; resolved = false }

fetch_group-return_example :
    (st' : Fetcher services) × (fetch_group services ctx asked
        (first_slot ∷ [])
        none
        0
        (fails ∷ answers ∷ answers ∷ [])
      ≡ some st')
    × Covers st'.inflight Nobody []
fetch_group-return_example =
    fetch_group-return services ctx asked (first_slot ∷ []) none 0 (fails ∷ answers ∷ answers ∷ [])
      (omega arith) (omega arith)
      (miss-Covers services.hash idle.inflight (block_key photo 5 0) [] idle-Covers)

abbrev pair : List Slot
pair = slot 0 0 ∷ slot 1 1 ∷ []

body_owes : Unit {0}
unfolding slice new block_key bytes
body_owes = tt

serve-publish_example :
    Serves services ctx config-IsValid content meta refl 2 3
      (serve services ctx meta pair 0 idle (new response.body))
      (publish services config.block_size meta content idle pair)
unfolding body_owes
serve-publish_example =
    serve-publish services ctx config-IsValid content meta refl pair 0 3 0 idle (new response.body)
      (omega arith) (omega arith) (omega arith) (refl, (refl, tt)) refl

serve-answers_example :
    let r = serve services ctx meta pair 0 idle (new response.body) in
    (r.4 ≡ none)
    × All
        (λ s.
          wait r.0.inflight s.channel
          ≡ some (
              ok (record {
                meta = meta;
                content = block_bytes config.block_size s.key.index content;
              })))
        pair
unfolding body_owes
serve-answers_example =
    serve-answers services ctx config-IsValid meta content refl pair 0 3 0 idle (new response.body)
      (omega arith) (omega arith) (omega arith) (refl, (refl, tt)) (refl, (refl, tt))
      ((λ h. omega (arith, h), tt), (tt, tt)) refl

-- The second of four blocks is in the cache; the last one lands while the others are registered.
abbrev found : BlockKey → Option Block
found k = if k.index == 1 then some (record { meta = meta; content = [] }) else none

abbrev landed : BlockKey → Option Block
landed k = if k.index == 3 then some (record { meta = meta; content = [] }) else none

abbrev four : Range
four = record { start = 0; end = 4 }

schedule-Run_example :
    let r = schedule services ctx four found (λ st. st) landed idle in
    Handled services.hash found
      (enlist services.hash found idle.inflight (keys ctx four)).0
      (keys ctx four)
      r.1
    × All (Run (max 8 1)) r.2
schedule-Run_example =
    schedule-Run services ctx four found (λ st. st) landed (omega arith) (omega arith) idle

schedule-Covers_example :
    let r = schedule services ctx four found (λ st. st) landed idle in
    Covers r.0.inflight Nobody (concat r.2)
schedule-Covers_example =
    schedule-Covers services ctx four found (λ st. st) landed (omega arith) (omega arith) idle
      (λ st slots c. c) idle-Covers

abbrev pub probes : List ProbeAttempt
probes =
    record { answer = err (io 1); head = none; now = 10 }
    ∷ record { answer = ok response; head = none; now = 70 }
    ∷ record { answer = ok response; head = none; now = 80 }
    ∷ []

probe-return_example :
    (r : Probed services ℕ) × (probe services config photo policy four none 0 idle probes ≡ some r)
    × Ends services config photo policy four Nobody r
probe-return_example =
    probe-return services config photo policy four Nobody none 0 idle probes (omega arith)
      (omega arith) idle-Covers

abbrev pub heads : List HeadAttempt
heads =
    record { started = 0; reply = record { result = err (io 1); at = 10 } }
    ∷ record { started = 60; reply = record { result = ok meta; at = 70 } }
    ∷ record { started = 80; reply = record { result = ok meta; at = 90 } }
    ∷ []

head-return_example :
    (st' : Fetcher services) × (r : Result NestorError ObjectMeta) × (now : ℕ) × (head services
        config photo 0 idle heads
      ≡ some (st', r))
    × (st' ≡ headed services photo idle (to_option r) now)
head-return_example = head-return services config photo 0 idle heads (omega arith) (omega arith)

-- The first request fails after the second one was sent.
abbrev first_reply : Reply ℕ
first_reply = record { result = err (io 1); at = 40 }

abbrev second_reply : Reply ℕ
second_reply = record { result = ok 7; at = 60 }

get_hedged_example :
    (get_hedged (some 20) true true true 0 first_reply second_reply).0 ≡ second_reply
unfolding get_hedged race ready retryable is_retryable
get_hedged_example = refl

get_hedged_lem_example :
    let r = (get_hedged (some 20) true true true 0 second_reply first_reply).0 in
    ((r ≡ second_reply)
      ⊎ ((r ≡ first_reply) × (true ≡ true) × ((d : ℕ) × (some 20 ≡ some d) × (0 + d ≤ 60))))
    × (retryable second_reply.result ≡ false → (retryable r.result ≡ false) × (r.at ≤ 60))
get_hedged_lem_example = get_hedged_lem (some 20) true true true 0 second_reply first_reply

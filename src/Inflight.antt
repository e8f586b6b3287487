-- ===== src/Inflight.antt =====
-- nestor/src/inflight.rs: request coalescing. The table is an array of shards, each a map from
-- block keys to receivers; a receiver is the number of its channel on a heap of `watch` channels,
-- where `none` means that nothing was sent yet. The hash of a key is a parameter.
pub mod Table
pub mod Sharing
pub mod Interleaving
use nestor.Common.{
  ℕ, zero, suc, ◌+◌, ◌-◌, ◌*◌, ◌%◌, ◌≤◌, Bool, true, false, ◌&&◌, List, [], ◌∷◌, Option, none, some,
  ltb, ◌==◌, if◌then◌else◌, length, Result, ok, err, NestorError, cancelled, max,
}
use nestor.Key.{Block, BlockKey}
use nestor.Origin.Text.{same}

abbrev pub BlockResult : Type 0
BlockResult = Result NestorError Block

-- `derive(PartialEq)` of `BlockKey`.
unfoldable pub key_eq : BlockKey → BlockKey → Bool
key_eq a b =
    a.namespace == b.namespace && a.tag == b.tag && a.index == b.index && same a.object b.object

abbrev pub Shard : Type 0
Shard = List (BlockKey × ℕ)

-- `HashMap::get`, `insert` and `remove`.
unfoldable pub find : Shard → BlockKey → Option ℕ
find [] k = none
find ((j, id) ∷ s) k = if key_eq j k then some id else find s k

unfoldable pub remove_key : Shard → BlockKey → Shard
remove_key [] k = []
remove_key ((j, id) ∷ s) k = if key_eq j k then remove_key s k else (j, id) ∷ remove_key s k

unfoldable pub insert_key : Shard → BlockKey → ℕ → Shard
unfolding remove_key
insert_key s k id = (k, id) ∷ remove_key s k

-- A function with one value changed.
unfoldable pub update {ℓ} : {A : Type ℓ} → (ℕ → A) → ℕ → A → ℕ → A
update f i a j = if j == i then a else f j

pub record Inflight : Type 0 where
  pub shards : ℕ
  pub table : ℕ → Shard
  pub channels : ℕ → Option BlockResult
  pub next : ℕ

pub record Slot : Type 0 where
  pub key : BlockKey
  pub channel : ℕ
  pub resolved : Bool

pub data Registration : Type 0 where
  owner : Slot → ℕ → Registration
  waiter : ℕ → Registration

-- `next_power_of_two`, by doubling from 1 until the number is reached.
unfoldable pub next_power_of_two : ℕ → ℕ → ℕ → ℕ
next_power_of_two zero p n = p
next_power_of_two (suc fuel) p n =
    let rest = next_power_of_two fuel (2 * p) n in if ltb p n then rest else p

unfoldable pub new : ℕ → Inflight
new shards = record {
  shards = next_power_of_two 64 1 (max shards 1);
  table = λ _. [];
  channels = λ _. none;
  next = 0;
}

module _ (hash : BlockKey → ℕ) where
  -- `(hash as usize) & (shards - 1)`: the number of shards is a power of two.
  unfoldable pub shard : Inflight → BlockKey → ℕ
  shard f k = hash k % f.shards

  unfoldable pub get : Inflight → BlockKey → Option ℕ
  unfolding shard
  get f k = find (f.table (shard f k)) k

  unfoldable pub register : Inflight → BlockKey → Inflight × Registration
  unfolding update insert_key
  register f k = elim (get f k) [
    | some rx ↦ (f, waiter rx)
    | none ↦ (
      record f {
        table = update f.table (shard f k) (insert_key (f.table (shard f k)) k f.next);
        channels = update f.channels f.next none;
        next = f.next + 1;
      },
      owner (record { key = k; channel = f.next; resolved = false }) f.next,
    )
  ]

  unfoldable pub remove : Inflight → BlockKey → Inflight
  unfolding update
  remove f k = record f { table = update f.table (shard f k) (remove_key (f.table (shard f k)) k) }

  -- `Slot::settle`: the slot and the table after it.
  unfoldable pub settle : Slot → BlockResult → Inflight → Slot × Inflight
  unfolding remove
  settle s result f = if s.resolved then (s, f) else (
    record s { resolved = true },
    record (remove f s.key) { channels = update (remove f s.key).channels s.channel (some result) },
  )

  -- `Drop for Slot`.
  unfoldable pub drop_slot : Slot → Inflight → Inflight
  unfolding settle
  drop_slot s f = (settle s (err cancelled) f).1

  -- `Slot::resolve`, which drops the slot at its end.
  unfoldable pub resolve : Slot → BlockResult → Inflight → Inflight
  unfolding drop_slot
  resolve s result f = let (s', f') = settle s result f in drop_slot s' f'

-- What `SlotHandle::wait` returns once its channel holds a value.
unfoldable pub wait : Inflight → ℕ → Option BlockResult
wait f handle = f.channels handle

-- `Inflight::len`.
unfoldable pub entries : ℕ → (ℕ → Shard) → ℕ
entries zero table = 0
entries (suc n) table = entries n table + length (table n)

unfoldable pub len : Inflight → ℕ
unfolding entries
len f = entries f.shards f.table

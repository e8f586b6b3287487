-- ===== src/Tests/Sharing.antt =====
-- nestor/src/inflight.rs: two callers ask for one block, and the first of them answers.
use nestor.Common.{ℕ, ◌≡◌, refl, [], ◌∷◌, some, none, ok, err, cancelled, arith}
use nestor.Key.{BlockKey}
use nestor.Origin.Text.{same}
use nestor.Inflight.{
  BlockResult, key_eq, find, remove_key, insert_key, update, Inflight, Slot, owner, waiter, new,
  next_power_of_two, shard, get, register, remove, settle, drop_slot, resolve, wait, len, entries,
}
use nestor.Inflight.Sharing.{resolve_lem}
use nestor.Inflight.Interleaving.{
  World, after, held, freed, Reach, registers, resolves, here, next, initial, one_owner,
  answer_owed,
}

program : Unit {0}
unfolding key_eq find remove_key insert_key update new next_power_of_two shard get register remove
    settle drop_slot resolve wait len entries initial same
program = tt

abbrev by_index : BlockKey → ℕ
by_index k = k.index

abbrev key : BlockKey
key = record { namespace = 1; tag = 0; index = 6; object = b'a' ∷ [] }

abbrev answer : BlockResult
answer =
    ok (record { meta = record { size = 1; etag = none; last_modified = none }; content = 7 ∷ [] })

abbrev table : Inflight
table = new 4

abbrev asked : Inflight
asked = (register by_index table key).0

abbrev slot : Slot
slot = held key 0

shared_run :
    ((register by_index table key).1 ≡ owner slot 0)
    × ((register by_index asked key).1 ≡ waiter 0)
    × (wait asked 0 ≡ none)
    × (len asked ≡ 1)
    × (wait (resolve by_index slot answer asked) 0 ≡ some answer)
    × (len (resolve by_index slot answer asked) ≡ 0)
unfolding program
shared_run = (refl, refl, refl, refl, refl, refl)

resolve_lem_example :
    (resolve by_index slot answer asked ≡ (settle by_index slot answer asked).1)
    × (wait (resolve by_index slot answer asked) 0 ≡ some answer)
    × (get by_index (resolve by_index slot answer asked) key ≡ none)
    × (wait (drop_slot by_index slot asked) 0 ≡ some (err cancelled))
    × (get by_index (drop_slot by_index slot asked) key ≡ none)
resolve_lem_example = resolve_lem by_index slot answer asked refl

abbrev waiting : World
waiting = after (initial 4) (register by_index (initial 4).inflight key)

waiting-Reach : Reach by_index (initial 4) waiting
waiting-Reach = next here (registers key)

held_by_first : waiting.live 0 ≡ some key
unfolding program
held_by_first = refl

one_owner_example : (◌≡◌ {A = ℕ} 0 0) × (get by_index waiting.inflight key ≡ some 0)
one_owner_example = one_owner by_index 4 waiting 0 0 key waiting-Reach held_by_first held_by_first

answer_owed_example : (k : BlockKey) × (waiting.live 0 ≡ some k)
unfolding program
answer_owed_example = answer_owed by_index 4 waiting 0 waiting-Reach (omega arith) refl

abbrev answered : World
answered = freed waiting 0 (resolve by_index (held key 0) answer waiting.inflight)

answered-Reach : Reach by_index (initial 4) answered
answered-Reach = next waiting-Reach (resolves key 0 answer held_by_first)

-- The block is asked for once more, and the first answer is still there.
abbrev again : World
again = after answered (register by_index answered.inflight key)

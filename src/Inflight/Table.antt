-- ===== src/Inflight/Table.antt =====
-- nestor/src/inflight.rs: the sharded table as one map from block keys to channels.
use nestor.Common.{
  ℕ, ◌+◌, ◌%◌, ◌≡◌, ◌↔◌, refl, ap, sym, ◌∙◌, ==→eq, eq→==, [], ◌∷◌, Option, none, some, true, false,
  ◌==◌, if◌then◌else◌, Bool-cases, inl, inr, arith,
}
use nestor.Key.{BlockKey}
use nestor.Origin.Text.{same_iff}
use nestor.Inflight.{
  key_eq, Shard, find, remove_key, insert_key, update, Inflight, shard, get, remove,
}

pub key_eq_iff : (a b : BlockKey) → (key_eq a b ≡ true) ↔ (a ≡ b)
unfolding key_eq
key_eq_iff a b = ground (arith, same_iff a.object b.object)

pub key_eq_self : (k : BlockKey) → key_eq k k ≡ true
key_eq_self k = (key_eq_iff k k).1 refl

find-remove :
    (s : Shard) (k j : BlockKey) → find (remove_key s k) j ≡ (if key_eq k j then none else find s j)
unfolding find remove_key
find-remove [] k j = ground arith
find-remove ((i, id) ∷ s) k j =
    ground (arith, key_eq_iff i k, key_eq_iff i j, key_eq_iff k j, find-remove s k j)

find-insert :
    (s : Shard) (k j : BlockKey) (id : ℕ)
    → find (insert_key s k id) j ≡ (if key_eq k j then some id else find s j)
unfolding find insert_key
find-insert s k j id = ground (arith, find-remove s k j)

-- A shard changed at one key, seen through the shard that another key hashes to.
spread :
    (table : ℕ → Shard) (k j : BlockKey) (a b : ℕ) (s : Shard) (r : Option ℕ)
    → (k ≡ j → a ≡ b)
    → find s j ≡ (if key_eq k j then r else find (table b) j)
    → find (if a == b then s else table a) j ≡ (if key_eq k j then r else find (table a) j)
spread table k j a b s r same_shard h = elim (Bool-cases (a == b)) [
  | inl t ↦ rw t (h ∙ ap (λ i. if key_eq k j then r else find (table i) j) (sym (==→eq a b t)))
  | inr n ↦ elim (Bool-cases (key_eq k j)) [
    | inl t ↦ absurd (clash n (eq→== a b (same_shard ((key_eq_iff k j).0 t))))
    | inr m ↦ rw (n, m) refl
  ]
]
  where
    clash : (a == b) ≡ false → (a == b) ≡ true → ⊥
    clash x y = cc

module _ (hash : BlockKey → ℕ) where
  -- The table after the owner's entry is made.
  abbrev pub added : Inflight → BlockKey → Inflight
  added f k = record f {
    table = update f.table (shard hash f k) (insert_key (f.table (shard hash f k)) k f.next);
    channels = update f.channels f.next none;
    next = f.next + 1;
  }

  pub get-added :
      (f : Inflight) (k j : BlockKey)
      → get hash (added f k) j ≡ (if key_eq k j then some f.next else get hash f j)
  unfolding get update
  get-added f k j =
      spread f.table k j (hash j % f.shards) (hash k % f.shards) _ (some f.next)
        (λ e. ap (λ i. hash i % f.shards) (sym e))
        (find-insert (f.table (hash k % f.shards)) k j f.next)

  -- After `remove` its key has no entry, and every other key, in the same shard or in another, has
  -- the entry that it had, whatever the hash function.
  pub get-remove :
      (f : Inflight) (k j : BlockKey)
      → get hash (remove hash f k) j ≡ (if key_eq k j then none else get hash f j)
  unfolding get remove
  get-remove f k j =
      spread f.table k j (hash j % f.shards) (hash k % f.shards) _ none
        (λ e. ap (λ i. hash i % f.shards) (sym e)) (find-remove (f.table (hash k % f.shards)) k j)

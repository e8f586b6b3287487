-- ===== src/Lru.antt =====
-- What nestor/src/meta.rs and nestor/src/readahead.rs rely on of `Lru`, the bounded cache of foyer:
-- a map from object keys that may lose an entry at any call, and never has one that was not
-- inserted.
use nestor.Common.{
  ◌≡◌, ◌⊎◌, ◌↔◌, Bool, ◌&&◌, Option, none, some, ◌==◌, if◌then◌else◌, arith, true, inl,
}
use nestor.Key.{ObjectKey}
use nestor.Origin.Text.{same, same_iff}

-- `derive(PartialEq)` of `ObjectKey`.
unfoldable pub object_key_eq : ObjectKey → ObjectKey → Bool
object_key_eq a b = a.namespace == b.namespace && same a.object b.object

pub object_key_eq_iff : (a b : ObjectKey) → (object_key_eq a b ≡ true) ↔ (a ≡ b)
unfolding object_key_eq
object_key_eq_iff a b = ground (arith, same_iff a.object b.object)

-- An unbounded map.
abbrev pub Ledger : Type 0 → Type 0
Ledger V = ObjectKey → Option V

unfoldable pub noted : {V : Type 0} → Ledger V → ObjectKey → Option V → Ledger V
noted l k v j = if object_key_eq k j then v else l j

-- A lookup that may miss, and otherwise tells the truth.
abbrev pub Honest : {V : Type 0} → Option V → Option V → Type 0
Honest found truth = (found ≡ none) ⊎ (found ≡ truth)

-- `touch` is what a call of `get` does to the order in which entries are lost.
pub record Lru (V : Type 0) : Type 1 where
  pub Cache : Type 0
  pub empty : Cache
  pub get : Cache → ObjectKey → Option V
  pub touch : Cache → ObjectKey → Cache
  pub insert : Cache → ObjectKey → V → Cache
  pub remove : Cache → ObjectKey → Cache
  pub get-empty : (k : ObjectKey) → get empty k ≡ none
  pub get-touch : (c : Cache) (k j : ObjectKey) → Honest (get (touch c k) j) (get c j)
  pub get-insert :
      (c : Cache) (k j : ObjectKey) (v : V)
      → Honest (get (insert c k v) j) (noted (get c) k (some v) j)
  pub get-remove :
      (c : Cache) (k j : ObjectKey) → Honest (get (remove c k) j) (noted (get c) k none j)

module _ {V : Type 0} (lru : Lru V) where
  -- The cache has nothing that the ledger does not have.
  abbrev pub Agrees : lru.Cache → Ledger V → Type 0
  Agrees c l = (k : ObjectKey) → Honest (lru.get c k) (l k)

  pub Agrees-empty : Agrees lru.empty (λ k. none)
  Agrees-empty k = inl (lru.get-empty k)

  pub Agrees-touch :
      (c : lru.Cache) (l : Ledger V) (k : ObjectKey) → Agrees c l → Agrees (lru.touch c k) l
  Agrees-touch c l k a j = let h = lru.get-touch c k j in let t = a j in ground arith

  pub Agrees-insert :
      (c : lru.Cache) (l : Ledger V) (k : ObjectKey) (v : V)
      → Agrees c l
      → Agrees (lru.insert c k v) (noted l k (some v))
  unfolding noted
  Agrees-insert c l k v a j = let h = lru.get-insert c k j v in let t = a j in ground arith

  pub Agrees-remove :
      (c : lru.Cache) (l : Ledger V) (k : ObjectKey)
      → Agrees c l
      → Agrees (lru.remove c k) (noted l k none)
  unfolding noted
  Agrees-remove c l k a j = let h = lru.get-remove c k j in let t = a j in ground arith

-- ===== src/Tests/Caches.antt =====
-- nestor/src/meta.rs and nestor/src/readahead.rs over a cache that keeps one entry.
use nestor.Common.{
  ℕ, ◌-◌, ◌≡◌, ◌⊎◌, inr, refl, List, [], ◌∷◌, Option, none, some, if◌then◌else◌, arith,
}
use nestor.Key.{ObjectKey}
use nestor.Lru.{Lru, object_key_eq, object_key_eq_iff, noted, Honest}
use nestor.Meta.{MetaEntry, fresh, stale, missing, judge, lookup, put, observe}
use nestor.Meta.Freshness.{Call, looks, puts, history, Young, Old, run, lookup-run}
use nestor.Meta.Sequential.{Read, reads, ends, run_reads, observe-run_reads}
use nestor.Origin.{ObjectMeta}
use nestor.Origin.Text.{same}

module _ (V : Type 0) where
  unfoldable pub peek : Option (ObjectKey × V) → ObjectKey → Option V
  peek none k = none
  peek (some (j, v)) k = if object_key_eq j k then some v else none

  unfoldable pub clear : Option (ObjectKey × V) → ObjectKey → Option (ObjectKey × V)
  clear none k = none
  clear (some (j, v)) k = if object_key_eq j k then none else some (j, v)

  pub peek-none : (k : ObjectKey) → peek none k ≡ none
  unfolding peek
  peek-none k = refl

  pub peek-clear :
      (c : Option (ObjectKey × V)) (k j : ObjectKey)
      → Honest (peek (clear c k) j) (noted (peek c) k none j)
  unfolding peek clear noted
  peek-clear none k j = ground arith
  peek-clear (some (i, v)) k j =
      ground (arith, object_key_eq_iff i k, object_key_eq_iff i j, object_key_eq_iff k j)

  pub peek-insert :
      (c : Option (ObjectKey × V)) (k j : ObjectKey) (v : V)
      → Honest (peek (some (k, v)) j) (noted (peek c) k (some v) j)
  unfolding peek noted
  peek-insert c k j v = ground arith

  abbrev pub single : Lru V
  single = record {
    Cache = Option (ObjectKey × V);
    empty = none;
    get = peek;
    touch = λ c k. c;
    insert = λ c k v. some (k, v);
    remove = clear;
    get-empty = peek-none;
    get-touch = λ c k j. inr refl;
    get-insert = peek-insert;
    get-remove = peek-clear;
  }

abbrev key : ObjectKey
key = record { namespace = 1; object = b'a' ∷ [] }

abbrev other : ObjectKey
other = record { namespace = 1; object = b'b' ∷ [] }

abbrev page : ObjectMeta
page = record { size = 9; etag = none; last_modified = none }

abbrev calls : List Call
calls = puts other page 5 ∷ puts key page 10 ∷ looks key ∷ []

lookups :
    (lookup (single MetaEntry) (run (single MetaEntry) none calls) key (some 60) 70 ≡ fresh page)
    × (lookup (single MetaEntry) (run (single MetaEntry) none calls) key (some 60) 71 ≡ stale page)
    × (lookup (single MetaEntry) (run (single MetaEntry) none calls) other (some 60) 70 ≡ missing)
unfolding lookup run put judge peek object_key_eq same
lookups = (refl, refl, refl)

lookup-run_example :
    let c = run (single MetaEntry) none calls in
    (lookup (single MetaEntry) c key (some 60) 70 ≡ missing)
    ⊎ ((e : MetaEntry) × (history (λ _. none) calls key ≡ some e)
        × (((lookup (single MetaEntry) c key (some 60) 70 ≡ fresh e.meta)
              × Young (some 60) (70 - e.at))
            ⊎ ((lookup (single MetaEntry) c key (some 60) 70 ≡ stale e.meta)
                × Old (some 60) (70 - e.at))))
lookup-run_example = lookup-run (single MetaEntry) calls key (some 60) 70

abbrev passes : List Read
passes = reads key (record { start = 0; end = 100 }) ∷ []

observe-run_reads_example : ends (λ _. none) passes key ≡ some 100
unfolding observe run_reads peek object_key_eq same
observe-run_reads_example =
    observe-run_reads (single ℕ) passes key (record { start = 100; end = 200 }) refl

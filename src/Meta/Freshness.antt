-- ===== src/Meta/Freshness.antt =====
-- nestor/src/meta.rs: lookups against the calls made so far.
use nestor.Common.{
  ℕ, ◌-◌, ◌≤◌, ◌<◌, ◌≡◌, ◌⊎◌, inl, inr, refl, List, [], ◌∷◌, Option, none, some, arith,
  Option-cases,
}
use nestor.Key.{ObjectKey}
use nestor.Lru.{
  Lru, Ledger, noted, Honest, Agrees, Agrees-empty, Agrees-touch, Agrees-insert, Agrees-remove,
}
use nestor.Meta.{MetaEntry, fresh, stale, missing, judge, lookup, put, remove_meta}
use nestor.Origin.{ObjectMeta}

-- The calls of the metadata cache; a lookup may change which entry is lost next.
pub data Call : Type 0 where
  looks removes : ObjectKey → Call
  puts : ObjectKey → ObjectMeta → ℕ → Call

-- What was put last and not removed.
pub history : Ledger MetaEntry → List Call → Ledger MetaEntry
history l [] = l
history l (looks k ∷ calls) = history l calls
history l (removes k ∷ calls) = history (noted l k none) calls
history l (puts k meta now ∷ calls) =
    history (noted l k (some (record { meta = meta; at = now }))) calls

-- The entry is not older than the time to live, if there is one.
abbrev pub Young : Option ℕ → ℕ → Type 0
Young none age = Unit {0}
Young (some ttl) age = age ≤ ttl

abbrev pub Old : Option ℕ → ℕ → Type 0
Old none age = ⊥
Old (some ttl) age = ttl < age

judge_lem :
    (e : MetaEntry) (ttl : Option ℕ) (now : ℕ)
    → ((judge e ttl now ≡ fresh e.meta) × Young ttl (now - e.at))
      ⊎ ((judge e ttl now ≡ stale e.meta) × Old ttl (now - e.at))
unfolding judge
judge_lem e none now = inl (refl, tt)
judge_lem e (some ttl) now = ground arith

module _ (lru : Lru MetaEntry) where
  unfoldable pub run : lru.Cache → List Call → lru.Cache
  unfolding put remove_meta
  run c [] = c
  run c (looks k ∷ calls) = run (lru.touch c k) calls
  run c (removes k ∷ calls) = run (remove_meta lru c k) calls
  run c (puts k meta now ∷ calls) = run (put lru c k meta now) calls

  run-Agrees :
      (c : lru.Cache) (l : Ledger MetaEntry) (calls : List Call)
      → Agrees lru c l
      → Agrees lru (run c calls) (history l calls)
  unfolding run put remove_meta history
  run-Agrees c l [] a = a
  run-Agrees c l (looks k ∷ calls) a = run-Agrees (lru.touch c k) l calls (Agrees-touch lru c l k a)
  run-Agrees c l (removes k ∷ calls) a =
      run-Agrees (remove_meta lru c k) (noted l k none) calls (Agrees-remove lru c l k a)
  run-Agrees c l (puts k meta now ∷ calls) a =
      let e : MetaEntry = record { meta = meta; at = now } in
      run-Agrees (put lru c k meta now) (noted l k (some e)) calls (Agrees-insert lru c l k e a)

  -- After any calls on an empty cache, a lookup misses, or it answers with the metadata that was
  -- put last for the key and not removed since: as fresh if it is not older than the time to live,
  -- or there is none, and as stale otherwise.
  pub lookup-run :
      (calls : List Call) (k : ObjectKey) (ttl : Option ℕ) (now : ℕ)
      → (lookup lru (run lru.empty calls) k ttl now ≡ missing)
        ⊎ ((e : MetaEntry) × (history (λ _. none) calls k ≡ some e)
            × (((lookup lru (run lru.empty calls) k ttl now ≡ fresh e.meta)
                  × Young ttl (now - e.at))
                ⊎ ((lookup lru (run lru.empty calls) k ttl now ≡ stale e.meta)
                    × Old ttl (now - e.at))))
  unfolding lookup
  lookup-run calls k ttl now = elim (Option-cases (lru.get (run lru.empty calls) k)) [
    | inl e ↦ inl (rw (e, lookup) refl)
    | inr (entry, e) ↦ inr (
      entry,
      truth (run-Agrees lru.empty (λ _. none) calls (Agrees-empty lru) k) e,
      rw (e, lookup) (judge_lem entry ttl now),
    )
  ]
    where
      truth : {o h : Option MetaEntry} {e : MetaEntry} → Honest o h → o ≡ some e → h ≡ some e
      truth a b = ground arith

-- ===== src/Meta/Sequential.antt =====
-- nestor/src/readahead.rs: what `observe` reports, against the reads made so far.
use nestor.Common.{
  ℕ, ◌≡◌, inl, inr, List, [], ◌∷◌, Option, none, some, true, false, Range, arith, Option-cases,
  ==→eq,
}
use nestor.Key.{ObjectKey}
use nestor.Lru.{
  Lru, Ledger, noted, Honest, Agrees, Agrees-empty, Agrees-touch, Agrees-insert, Agrees-remove,
}
use nestor.Meta.{observe, forget}

pub data Read : Type 0 where
  reads : ObjectKey → Range → Read
  forgets : ObjectKey → Read

-- Where the last read of each object ended.
pub ends : Ledger ℕ → List Read → Ledger ℕ
ends l [] = l
ends l (reads k r ∷ rs) = ends (noted l k (some r.end)) rs
ends l (forgets k ∷ rs) = ends (noted l k none) rs

module _ (lru : Lru ℕ) where
  unfoldable pub run_reads : lru.Cache → List Read → lru.Cache
  unfolding observe forget
  run_reads c [] = c
  run_reads c (reads k r ∷ rs) = run_reads (observe lru c k r).0 rs
  run_reads c (forgets k ∷ rs) = run_reads (forget lru c k) rs

  run_reads-Agrees :
      (c : lru.Cache) (l : Ledger ℕ) (rs : List Read)
      → Agrees lru c l
      → Agrees lru (run_reads c rs) (ends l rs)
  unfolding run_reads ends observe forget
  run_reads-Agrees c l [] a = a
  run_reads-Agrees c l (reads k r ∷ rs) a =
      run_reads-Agrees (observe lru c k r).0 (noted l k (some r.end)) rs
        (Agrees-insert lru (lru.touch c k) l k r.end (Agrees-touch lru c l k a))
  run_reads-Agrees c l (forgets k ∷ rs) a =
      run_reads-Agrees (forget lru c k) (noted l k none) rs (Agrees-remove lru c l k a)

  -- After any calls on an empty cache, a read is reported as sequential only if the last read of
  -- its object, not forgotten since, ended where this one starts.
  pub observe-run_reads :
      (rs : List Read) (k : ObjectKey) (r : Range)
      → (observe lru (run_reads lru.empty rs) k r).1 ≡ true
      → ends (λ _. none) rs k ≡ some r.start
  unfolding observe
  observe-run_reads rs k r h = elim (Option-cases (lru.get (run_reads lru.empty rs) k)) [
    | inl e ↦ absurd (missed (rw (e, observe) at h))
    | inr (end, e) ↦
        truth (run_reads-Agrees lru.empty (λ _. none) rs (Agrees-empty lru) k) e
          (==→eq end r.start (rw (e, observe) at h))
  ]
    where
      missed : false ≡ true → ⊥
      missed h = cc

      truth : {o t : Option ℕ} {a b : ℕ} → Honest o t → o ≡ some a → a ≡ b → t ≡ some b
      truth p q e = ground arith

-- ===== src/Cluster/Choice.antt =====
-- nestor-client/src/router.rs, `primary` and `secondary`: bounded load along the ranking.
use nestor.Common.{
  ℕ, ◌≤◌, ◌<◌, ◌≡◌, ◌⊎◌, refl, ap, inl, inr, List, [], ◌∷◌, ◌++◌, none, some, true, false, leb,
  leb→le, Bool-cases, arith, All,
}
use nestor.Cluster.{Nodes, is_up, acquire, try_acquire, first_free, first_up, or_first, primary}

-- The node cannot take a request within its limit now.
abbrev pub Busy : Nodes → ℕ → ℕ → Type 0
Busy nodes now a = (is_up (nodes a) now ≡ false) ⊎ ((nodes a).load_limit ≤ (nodes a).inflight)

abbrev pub Down : Nodes → ℕ → ℕ → Type 0
Down nodes now a = is_up (nodes a) now ≡ false

-- The first of the list that satisfies `Q`, where all before it satisfy `P`.
pub record First (P Q : ℕ → Type 0) (as' : List ℕ) (a : ℕ) : Type 0 where
  pub before : List ℕ
  pub after : List ℕ
  pub split : as' ≡ before ++ (a ∷ after)
  pub passed : All P before
  pub chosen : Q a

later : (P Q : ℕ → Type 0) (b a : ℕ) (as' : List ℕ) → P b → First P Q as' a → First P Q (b ∷ as') a
later P Q b a as' p f = record {
  before = b ∷ f.before;
  after = f.after;
  split = ap (λ l. b ∷ l) f.split;
  passed = (p, f.passed);
  chosen = f.chosen;
}

abbrev pub Free : Nodes → ℕ → ℕ → Type 0
Free nodes now a = (is_up (nodes a) now ≡ true) × ((nodes a).inflight < (nodes a).load_limit)

free_lem :
    (nodes : Nodes) (now : ℕ) (as' : List ℕ)
    → ((first_free nodes now as' ≡ none) × All (Busy nodes now) as')
      ⊎ ((a : ℕ) × (first_free nodes now as' ≡ some (acquire nodes a))
          × First (Busy nodes now) (Free nodes now) as' a)
unfolding first_free try_acquire
free_lem nodes now [] = inl (refl, tt)
free_lem nodes now (a ∷ as') = elim (Bool-cases (is_up (nodes a) now)) [
  | inl u ↦ elim (Bool-cases (leb (nodes a).load_limit (nodes a).inflight)) [
    | inl full ↦ elim (free_lem nodes now as') [
      | inl (e, busy) ↦ inl (rw (u, full, first_free) e, (inr (leb→le _ _ full), busy))
      | inr (b, e, f) ↦
          inr (b, rw (u, full, first_free) e, later _ _ a b as' (inr (leb→le _ _ full)) f)
    ]
    | inr room ↦ inr (
      a,
      rw (u, room, first_free) refl,
      record { before = []; after = as'; split = refl; passed = tt; chosen = (u, ground arith) },
    )
  ]
  | inr d ↦ elim (free_lem nodes now as') [
    | inl (e, busy) ↦ inl (rw (d, first_free) e, (inl d, busy))
    | inr (b, e, f) ↦ inr (b, rw (d, first_free) e, later _ _ a b as' (inl d) f)
  ]
]

up_lem :
    (nodes : Nodes) (now : ℕ) (as' : List ℕ)
    → ((first_up nodes now as' ≡ none) × All (Down nodes now) as')
      ⊎ ((a : ℕ) × (first_up nodes now as' ≡ some a)
          × First (Down nodes now) (λ b. is_up (nodes b) now ≡ true) as' a)
unfolding first_up
up_lem nodes now [] = inl (refl, tt)
up_lem nodes now (a ∷ as') = elim (Bool-cases (is_up (nodes a) now)) [
  | inl u ↦ inr (
    a,
    rw (u, first_up) refl,
    record { before = []; after = as'; split = refl; passed = tt; chosen = u },
  )
  | inr d ↦ elim (up_lem nodes now as') [
    | inl (e, down) ↦ inl (rw (d, first_up) e, (d, down))
    | inr (b, e, f) ↦ inr (b, rw (d, first_up) e, later _ _ a b as' d f)
  ]
]

-- A request goes to the first node of the ranking that is up and below its limit; if there is
-- none, to the first that is up; if none is up, to the first of all; and nowhere only if there are
-- no nodes.
pub primary_cases :
    (nodes : Nodes) (now : ℕ) (as' : List ℕ)
    → ((a : ℕ) × (primary nodes now as' ≡ some (acquire nodes a))
        × First (Busy nodes now) (Free nodes now) as' a)
      ⊎ (All (Busy nodes now) as'
          × ((a : ℕ) × (primary nodes now as' ≡ some (acquire nodes a))
              × First (Down nodes now) (λ b. is_up (nodes b) now ≡ true) as' a))
      ⊎ (All (Down nodes now) as'
          × ((a : ℕ) × (rest : List ℕ) × (as' ≡ a ∷ rest)
              × (primary nodes now as' ≡ some (acquire nodes a))))
      ⊎ ((as' ≡ []) × (primary nodes now as' ≡ none))
unfolding primary or_first
primary_cases nodes now as' = elim (free_lem nodes now as') [
  | inr (a, e, f) ↦ inl (a, rw (e, primary) refl, f)
  | inl (e, busy) ↦ elim (up_lem nodes now as') [
    | inr (a, u, f) ↦ inr (inl (busy, (a, rw (e, u, primary) refl, f)))
    | inl (u, down) ↦ inr (inr (none_up as' e u down))
  ]
]
  where
    none_up :
        (as' : List ℕ)
        → first_free nodes now as' ≡ none
        → first_up nodes now as' ≡ none
        → All (Down nodes now) as'
        → (All (Down nodes now) as'
            × ((a : ℕ) × (rest : List ℕ) × (as' ≡ a ∷ rest)
                × (primary nodes now as' ≡ some (acquire nodes a))))
          ⊎ ((as' ≡ []) × (primary nodes now as' ≡ none))
    none_up [] e u d = inr (refl, unfold primary first_free first_up or_first in refl)
    none_up (a ∷ rest) e u d = inl (d, (a, rest, refl, unfold primary in rw (e, u, primary) refl))

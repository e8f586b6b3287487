-- ===== src/Tests/Clusters.antt =====
-- nestor-client/src/router.rs: three nodes, the first of them down and the second full.
use nestor.Common.{ℕ, ◌≡◌, ◌⊎◌, refl, List, [], ◌∷◌, some, none, true, ◌==◌, if◌then◌else◌, All}
use nestor.Cluster.{
  Node, Nodes, is_up, acquire, try_acquire, first_free, first_up, or_first, primary, without,
  secondary, insert_ranked, sort_ranked, ranks_before,
}
use nestor.Cluster.Choice.{Busy, Down, First, Free, primary_cases}

abbrev ready : Node
ready = record { seed = 0; load_limit = 2; inflight = 1; down_until_nanos = 0 }

abbrev nodes : Nodes
nodes a =
    if a == 0
    then record ready { down_until_nanos = 100 }
    else if a == 1
    then record ready { inflight = 2 }
    else ready

abbrev order : List ℕ
order = 0 ∷ 1 ∷ 2 ∷ []

third : primary nodes 50 order ≡ some (acquire nodes 2)
unfolding primary first_free try_acquire is_up
third = refl

second : primary nodes 50 (0 ∷ 1 ∷ []) ≡ some (acquire nodes 1)
unfolding primary first_free try_acquire first_up or_first is_up
second = refl

no_backup : secondary nodes 50 order 2 ≡ none
unfolding secondary without first_free try_acquire is_up
no_backup = refl

by_score : sort_ranked ((3, 1) ∷ (9, 2) ∷ (9, 0) ∷ []) ≡ (9, 0) ∷ (9, 2) ∷ (3, 1) ∷ []
unfolding sort_ranked insert_ranked ranks_before
by_score = refl

primary_cases_example :
    ((a : ℕ) × (primary nodes 50 order ≡ some (acquire nodes a))
      × First (Busy nodes 50) (Free nodes 50) order a)
    ⊎ (All (Busy nodes 50) order
        × ((a : ℕ) × (primary nodes 50 order ≡ some (acquire nodes a))
            × First (Down nodes 50) (λ b. is_up (nodes b) 50 ≡ true) order a))
    ⊎ (All (Down nodes 50) order
        × ((a : ℕ) × (rest : List ℕ) × (order ≡ a ∷ rest)
            × (primary nodes 50 order ≡ some (acquire nodes a))))
    ⊎ ((order ≡ []) × (primary nodes 50 order ≡ none))
primary_cases_example = primary_cases nodes 50 order

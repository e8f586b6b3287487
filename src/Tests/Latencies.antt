-- ===== src/Tests/Latencies.antt =====
-- nestor/src/latency.rs: slots, rotation and the mean of two samples.
use nestor.Common.{
  ℕ, ◌+◌, ◌-◌, ◌*◌, ◌/◌, ◌%◌, ◌≤◌, ◌<◌, ◌≡◌, ◌⊎◌, refl, min, List, [], ◌∷◌, ◌++◌, length, some,
  none, u64_max, arith,
}
use nestor.Latency.{
  Latency, new_generation, default, bucket, upper_edge, ilog2, bump, note, generation, rotate,
  current_generation, previous_generation, quantile_at, rank, add_counts, total, find_slot,
  rotate_every,
}
use nestor.Latency.Window.{rotate_window}
use nestor.Latency.Samples.{Holds, new_generation-Holds, note-Holds}
use nestor.Latency.Quantile.{below, tally_below, quantile_at-Holds}

edges : (bucket 100_000 ≡ 4) × (upper_edge 4 ≡ 106_496)
unfolding bucket upper_edge ilog2
edges = (refl, refl)

-- A new histogram, and one minute later.
rotate_window_example :
    let age = min 61_000_000_000 u64_max - default.rotated_at_nanos in
    let r = rotate default 61_000_000_000 in
    ((age < rotate_every) × (r ≡ default))
    ⊎ ((rotate_every ≤ age)
        × (age < 2 * rotate_every)
        × (current_generation r ≡ new_generation)
        × (previous_generation r ≡ current_generation default)
        × (r.rotated_at_nanos ≡ min 61_000_000_000 u64_max))
    ⊎ ((2 * rotate_every ≤ age)
        × (current_generation r ≡ new_generation)
        × (previous_generation r ≡ new_generation)
        × (r.rotated_at_nanos ≡ min 61_000_000_000 u64_max))
unfolding default
rotate_window_example = rotate_window default 61_000_000_000 (omega arith)

-- Two samples in the current generation, none in the previous one.
abbrev samples : List ℕ
samples = 90_000 ∷ 70_000 ∷ []

abbrev two : Latency
two = record default { first = note (note new_generation 70_000) 90_000 }

two_held : Holds (current_generation (rotate two 0)) samples
unfolding default rotate current_generation generation
two_held =
    note-Holds (note new_generation 70_000) (70_000 ∷ []) 90_000
      (note-Holds new_generation [] 70_000 new_generation-Holds (omega arith) (omega arith))
      (omega arith) (omega arith)

none_before : Holds (previous_generation (rotate two 0)) []
unfolding default rotate previous_generation generation
none_before = new_generation-Holds

-- Half the number of samples, rounded up.
abbrev half : ℕ → ℕ
half n = n / 2 + n % 2

median : (quantile_at half two 0).1 ≡ some 73_728
unfolding quantile_at rank default rotate current_generation previous_generation generation note
    new_generation bump bucket ilog2 add_counts total find_slot upper_edge
median = refl

quantile_at-Holds_example :
    ((length (samples ++ []) ≡ 0) × ((quantile_at half two 0).1 ≡ none))
    ⊎ ((slot : ℕ) × ((quantile_at half two 0).1 ≡ some (upper_edge slot))
        × (rank half (length (samples ++ [])) ≤ below (upper_edge slot) (samples ++ []))
        × (tally_below slot (samples ++ []) < rank half (length (samples ++ []))))
quantile_at-Holds_example =
    quantile_at-Holds half two 0 samples [] two_held none_before (omega arith)
      (omega arith, (omega arith, tt))

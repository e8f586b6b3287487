-- ===== src/Latency.antt =====
-- nestor/src/latency.rs: the latency histogram of three generations that hedging is timed by. Times
-- are nanoseconds since the histogram's epoch. The atomics are read and written with no other
-- thread in between, so the compare-and-exchange of `rotate` succeeds. The floating-point product
-- of `rank`, rounded up, is a parameter.
pub mod Buckets
pub mod Window
pub mod Samples
pub mod Quantile
use nestor.Common.{
  ℕ, zero, suc, ◌+◌, ◌-◌, ◌*◌, ◌/◌, ◌%◌, ◌^◌, min, max, List, [], ◌∷◌, replicate, Bool, true, false,
  Option, none, some, ltb, leb, ◌==◌, if◌then◌else◌, u32_mod, u64_mod, u64_max,
}

abbrev pub min_shift : ℕ
min_shift = 16

abbrev pub sub_bits : ℕ
sub_bits = 3

abbrev pub sub_buckets : ℕ
sub_buckets = 8

abbrev pub octaves : ℕ
octaves = 24

abbrev pub buckets : ℕ
buckets = sub_buckets * octaves

abbrev pub generations_kept : ℕ
generations_kept = 3

abbrev pub rotate_every : ℕ
rotate_every = 60_000_000_000

pub record Generation : Type 0 where
  pub counts : List ℕ
  pub count : ℕ
  pub sum_nanos : ℕ

unfoldable pub new_generation : Generation
new_generation = record { counts = replicate buckets 0; count = 0; sum_nanos = 0 }

-- `u64::ilog2` over `k` bits.
unfoldable pub ilog2 : ℕ → ℕ → ℕ
ilog2 zero n = 0
ilog2 (suc k) n = if ltb n 2 then 0 else suc (ilog2 k (n / 2))

unfoldable pub bucket : ℕ → ℕ
bucket nanos =
    let value = max nanos (2 ^ min_shift) in
    let log = ilog2 64 value in
    let octave = log - min_shift in
    let sub = value / 2 ^ (log - sub_bits) % sub_buckets in
    min (octave * sub_buckets + sub) (buckets - 1)

unfoldable pub upper_edge : ℕ → ℕ
upper_edge index =
    let octave = index / sub_buckets in
    let sub = index % sub_buckets in (sub_buckets + sub + 1) * 2 ^ (octave + min_shift - sub_bits)

-- `counts[i].fetch_add(1)`.
unfoldable pub bump : List ℕ → ℕ → List ℕ
bump [] i = []
bump (c ∷ cs) zero = (c + 1) % u32_mod ∷ cs
bump (c ∷ cs) (suc i) = c ∷ bump cs i

-- `Generation::record`.
unfoldable pub note : Generation → ℕ → Generation
note g nanos = record {
  counts = bump g.counts (bucket nanos);
  count = (g.count + 1) % u64_mod;
  sum_nanos = (g.sum_nanos + nanos) % u64_mod;
}

-- `Generation::clear`.
unfoldable pub clear : Generation → Generation
clear g = record { counts = replicate buckets 0; count = 0; sum_nanos = 0 }

-- The array of generations, by position.
pub record Latency : Type 0 where
  pub first : Generation
  pub second : Generation
  pub third : Generation
  pub current : ℕ
  pub rotated_at_nanos : ℕ

unfoldable pub default : Latency
unfolding new_generation
default = record {
  first = new_generation;
  second = new_generation;
  third = new_generation;
  current = 0;
  rotated_at_nanos = 0;
}

unfoldable pub generation : Latency → ℕ → Generation
generation l i = if i == 0 then l.first else if i == 1 then l.second else l.third

-- `generations[i]` changed in place.
unfoldable pub change : Latency → ℕ → (Generation → Generation) → Latency
change l i f =
    if i == 0
    then record l { first = f l.first }
    else if i == 1
    then record l { second = f l.second }
    else record l { third = f l.third }

-- The loop of `rotate`: step to the next generation and clear it, `n` times.
unfoldable pub advance : ℕ → Latency → Latency
advance zero l = l
advance (suc n) l =
    let next = (l.current + 1) % generations_kept in
    advance n (record (change l next clear) { current = next })

unfoldable pub rotate : Latency → ℕ → Latency
rotate l now =
    let elapsed = min now u64_max in
    let periods = (elapsed - l.rotated_at_nanos) / rotate_every in
    if periods == 0
    then l
    else advance (min periods generations_kept) (record l { rotated_at_nanos = elapsed })

unfoldable pub observe_at : Latency → ℕ → ℕ → Latency
observe_at l sample now =
    let r = rotate l now in change r r.current (λ g. note g (min sample u64_max))

-- `window`: the current and the previous generation.
unfoldable pub current_generation : Latency → Generation
current_generation l = generation l l.current

unfoldable pub previous_generation : Latency → Generation
previous_generation l = generation l ((l.current + generations_kept - 1) % generations_kept)

unfoldable pub mean_at : Latency → ℕ → Latency × Option ℕ
mean_at l now =
    let r = rotate l now in
    let current = current_generation r in
    let previous = previous_generation r in
    let count = (current.count + previous.count) % u64_mod in
    let sum = (current.sum_nanos + previous.sum_nanos) % u64_mod in
    (r, if count == 0 then none else some (sum / count))

-- The counts of two generations, slot by slot.
unfoldable pub add_counts : List ℕ → List ℕ → List ℕ
add_counts (a ∷ as') (b ∷ bs) = (a + b) ∷ add_counts as' bs
add_counts _ _ = []

unfoldable pub total : List ℕ → ℕ
total [] = 0
total (c ∷ cs) = c + total cs

-- The first slot at which the samples seen reach the target, counted from `index`; the last slot if
-- there is none.
unfoldable pub find_slot : List ℕ → ℕ → ℕ → ℕ → ℕ
find_slot [] index seen target = buckets - 1
find_slot (c ∷ cs) index seen target =
    if leb target (seen + c) then index else find_slot cs (index + 1) (seen + c) target

-- `rank`, given the number of samples times the quantile, rounded up.
unfoldable pub rank : (ℕ → ℕ) → ℕ → ℕ
rank scaled total = max (scaled total) 1

unfoldable pub quantile_at : (ℕ → ℕ) → Latency → ℕ → Latency × Option ℕ
unfolding rank
quantile_at scaled l now =
    let r = rotate l now in
    let counts = add_counts (current_generation r).counts (previous_generation r).counts in
    let all = total counts in
    (r, if all == 0 then none else some (upper_edge (find_slot counts 0 0 (rank scaled all))))

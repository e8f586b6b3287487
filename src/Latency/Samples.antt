-- ===== src/Latency/Samples.antt =====
-- nestor/src/latency.rs: the counters against the list of samples that they summarise.
use native.Mathlib.Nat.{mod-eq_of_lt}
use nestor.Common.{
  ℕ, zero, suc, ◌+◌, ◌/◌, ◌%◌, ◌≤◌, ◌<◌, ◌≡◌, refl, ap, ◌∙◌, List, [], ◌∷◌, ◌++◌, length,
  length-append, replicate, none, some, arith, ◌==◌, if◌then◌else◌, u32_mod, u64_mod,
}
use nestor.Latency.{
  Latency, Generation, new_generation, bucket, bump, note, rotate, current_generation,
  previous_generation, mean_at, buckets,
}

abbrev pub get_or : List ℕ → ℕ → ℕ → ℕ
get_or [] i d = d
get_or (x ∷ xs) zero d = x
get_or (x ∷ xs) (suc i) d = get_or xs i d

abbrev pub sum : List ℕ → ℕ
sum [] = 0
sum (x ∷ xs) = x + sum xs

-- How many samples fall into the slot.
unfoldable pub tally : ℕ → List ℕ → ℕ
tally i [] = 0
tally i (x ∷ xs) = if bucket x == i then suc (tally i xs) else tally i xs

-- The generation summarises the samples, and none of its counters has wrapped.
pub record Holds (g : Generation) (xs : List ℕ) : Type 0 where
  pub slots : length g.counts ≡ buckets
  pub tallied : (i : ℕ) → i < buckets → get_or g.counts i 0 ≡ tally i xs
  pub counted : g.count ≡ length xs
  pub summed : g.sum_nanos ≡ sum xs

length-bump : (cs : List ℕ) (i : ℕ) → length (bump cs i) ≡ length cs
unfolding bump
length-bump [] i = refl
length-bump (c ∷ cs) zero = refl
length-bump (c ∷ cs) (suc i) = ap suc (length-bump cs i)

get_or-bump :
    (cs : List ℕ) (i j : ℕ)
    → i < length cs
    → get_or cs i 0 + 1 < u32_mod
    → get_or (bump cs i) j 0 ≡ (if i == j then get_or cs j 0 + 1 else get_or cs j 0)
unfolding bump
get_or-bump [] i j h k = absurd (omega arith)
get_or-bump (c ∷ cs) zero zero h k = mod-eq_of_lt k
get_or-bump (c ∷ cs) zero (suc j) h k = ground arith
get_or-bump (c ∷ cs) (suc i) zero h k = ground arith
get_or-bump (c ∷ cs) (suc i) (suc j) h k = ground (arith, get_or-bump cs i j)

pub bucket-lt : (x : ℕ) → bucket x < buckets
unfolding bucket
bucket-lt x = omega arith

tally-le : (i : ℕ) (xs : List ℕ) → tally i xs ≤ length xs
unfolding tally
tally-le i [] = omega arith
tally-le i (x ∷ xs) = ground (arith, tally-le i xs)

pub new_generation-Holds : Holds new_generation []
unfolding new_generation tally
new_generation-Holds = record {
  slots = refl;
  tallied = λ i _. zeros buckets i;
  counted = refl;
  summed = refl;
}
  where
    zeros : (n i : ℕ) → get_or (replicate n 0) i 0 ≡ 0
    zeros zero i = refl
    zeros (suc n) zero = refl
    zeros (suc n) (suc i) = zeros n i

-- Recording a sample adds it to the samples that the generation holds, slot by slot, while fewer
-- than 2^32 - 1 samples are held and their sum stays below 2^64 ns.
pub note-Holds :
    (g : Generation) (xs : List ℕ) (x : ℕ)
    → Holds g xs
    → length xs + 1 < u32_mod
    → x + sum xs < u64_mod
    → Holds (note g x) (x ∷ xs)
unfolding note tally
note-Holds g xs x h few small = record {
  slots = length-bump g.counts (bucket x) ∙ h.slots;
  tallied = slot;
  counted = mod-eq_of_lt {n = g.count + 1} (omega (arith, h.counted)) ∙ omega (arith, h.counted);
  summed = mod-eq_of_lt {n = g.sum_nanos + x} (omega (arith, h.summed)) ∙ omega (arith, h.summed);
}
  where
    slot : (i : ℕ) → i < buckets → get_or (bump g.counts (bucket x)) i 0 ≡ tally i (x ∷ xs)
    slot i lt =
        let t = h.tallied (bucket x) (bucket-lt x) in
        let b = bucket-lt x in
        get_or-bump g.counts (bucket x) i (omega (arith, h.slots))
          (omega (arith, tally-le (bucket x) xs))
        ∙ ground (arith, h.tallied i lt)

-- With no sample in the window there is no mean; otherwise it is the sum of the window's samples
-- divided by their number, the fraction cut off, while sum and number stay below 2^64. The samples
-- are those that the window holds after the rotation.
mean_at-Holds :
    (l : Latency) (now : ℕ) (xs ys : List ℕ)
    → Holds (current_generation (rotate l now)) xs
    → Holds (previous_generation (rotate l now)) ys
    → length (xs ++ ys) < u64_mod
    → sum xs + sum ys < u64_mod
    → (mean_at l now).1
      ≡ (if length (xs ++ ys) == 0 then none else some ((sum xs + sum ys) / length (xs ++ ys)))
unfolding mean_at
mean_at-Holds l now xs ys h k few small =
    let a = length-append xs ys in
    let c = current_generation (rotate l now) in
    let p = previous_generation (rotate l now) in
    let n : (c.count + p.count) % u64_mod ≡ length (xs ++ ys) =
      mod-eq_of_lt {n = c.count + p.count} (omega (arith, h.counted, k.counted))
      ∙ omega (arith, h.counted, k.counted) in
    let t : (c.sum_nanos + p.sum_nanos) % u64_mod ≡ sum xs + sum ys =
      mod-eq_of_lt {n = c.sum_nanos + p.sum_nanos} (omega (arith, h.summed, k.summed))
      ∙ omega (arith, h.summed, k.summed) in
    rw (n, t) refl

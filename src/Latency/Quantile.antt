-- ===== src/Latency/Quantile.antt =====
-- nestor/src/latency.rs, `quantile_at`, against the samples that the window holds.
use nestor.Common.{
  ℕ, zero, suc, ◌+◌, ◌-◌, ◌*◌, ◌/◌, ◌%◌, ◌^◌, ◌≤◌, ◌<◌, ◌≡◌, ◌⊎◌, refl, sym, ap, ◌∙◌, inl, inr,
  List, [], ◌∷◌, ◌++◌, length, take, take_all, none, some, Bool-cases, arith, ltb, ltb→lt, lt→ltb,
  leb, leb→le, ◌==◌, if◌then◌else◌, ==→eq, pow_double, All,
}
use nestor.Latency.Buckets.{upper_edge-bucket}
use nestor.Latency.{
  Latency, bucket, upper_edge, rotate, current_generation, previous_generation, quantile_at, rank,
  add_counts, total, find_slot, buckets,
}
use nestor.Latency.Samples.{Holds, get_or, tally, bucket-lt}

-- How many samples fall into a slot below `n`.
pub tally_below : ℕ → List ℕ → ℕ
tally_below n [] = 0
tally_below n (x ∷ xs) = if ltb (bucket x) n then suc (tally_below n xs) else tally_below n xs

-- How many samples are below the value.
pub below : ℕ → List ℕ → ℕ
below v [] = 0
below v (x ∷ xs) = if ltb x v then suc (below v xs) else below v xs

total-append-step :
    (cs : List ℕ) (n : ℕ) → total (take (suc n) cs) ≡ total (take n cs) + get_or cs n 0
unfolding total
total-append-step [] zero = omega arith
total-append-step [] (suc n) = omega arith
total-append-step (c ∷ cs) zero = omega arith
total-append-step (c ∷ cs) (suc n) = omega (arith, total-append-step cs n)

-- The slot found is the first one up to which the counts reach the target.
find_slot_lem :
    (cs : List ℕ) (index seen target : ℕ)
    → seen < target
    → target ≤ seen + total cs
    → (j : ℕ) × (find_slot cs index seen target ≡ index + j)
      × (j < length cs)
      × (target ≤ seen + total (take (suc j) cs))
      × (seen + total (take j cs) < target)
unfolding find_slot total
find_slot_lem [] index seen target h k = absurd (omega arith)
find_slot_lem (c ∷ cs) index seen target h k = elim (Bool-cases (leb target (seen + c))) [
  | inl t ↦
      let le = leb→le target (seen + c) t in
      (0, rw (t, find_slot) (omega arith), omega arith, omega arith, omega arith)
  | inr t ↦
      let lt : seen + c < target = ground arith in
      let (j, e, b, up, lo) = find_slot_lem cs (index + 1) (seen + c) target lt (omega arith) in
      (suc j, rw (t, find_slot) (e ∙ omega arith), omega arith, omega arith, omega arith)
]

get_or-add_counts :
    (as' bs : List ℕ) (i : ℕ)
    → length as' ≡ length bs
    → get_or (add_counts as' bs) i 0 ≡ get_or as' i 0 + get_or bs i 0
unfolding add_counts
get_or-add_counts [] [] i h = omega arith
get_or-add_counts [] (b ∷ bs) i h = absurd (omega arith)
get_or-add_counts (a ∷ as') [] i h = absurd (omega arith)
get_or-add_counts (a ∷ as') (b ∷ bs) zero h = refl
get_or-add_counts (a ∷ as') (b ∷ bs) (suc i) h = get_or-add_counts as' bs i (omega arith)

length-add_counts :
    (as' bs : List ℕ) → length as' ≡ length bs → length (add_counts as' bs) ≡ length as'
unfolding add_counts
length-add_counts [] bs h = refl
length-add_counts (a ∷ as') [] h = absurd (omega arith)
length-add_counts (a ∷ as') (b ∷ bs) h = ap suc (length-add_counts as' bs (omega arith))

tally-append : (i : ℕ) (xs ys : List ℕ) → tally i (xs ++ ys) ≡ tally i xs + tally i ys
unfolding tally
tally-append i [] ys = omega arith
tally-append i (x ∷ xs) ys = ground (arith, tally-append i xs ys)

tally_below-suc : (n : ℕ) (xs : List ℕ) → tally_below (suc n) xs ≡ tally_below n xs + tally n xs
unfolding tally_below tally
tally_below-suc n [] = omega arith
tally_below-suc n (x ∷ xs) = ground (arith, tally_below-suc n xs)

tally_below-zero : (xs : List ℕ) → tally_below 0 xs ≡ 0
unfolding tally_below
tally_below-zero [] = refl
tally_below-zero (x ∷ xs) = ground (arith, tally_below-zero xs)

tally_below-all : (xs : List ℕ) → tally_below buckets xs ≡ length xs
unfolding tally_below
tally_below-all [] = refl
tally_below-all (x ∷ xs) =
    rw (lt→ltb (bucket x) buckets (bucket-lt x)) (ap suc (tally_below-all xs))

-- The counts up to a slot number the samples below that slot.
total-take :
    (cs xs : List ℕ) (n : ℕ)
    → ((i : ℕ) → i < buckets → get_or cs i 0 ≡ tally i xs)
    → n ≤ buckets
    → total (take n cs) ≡ tally_below n xs
unfolding total
total-take cs xs zero h k = sym (tally_below-zero xs)
total-take cs xs (suc n) h k =
    total-append-step cs n
    ∙ omega (arith, total-take cs xs n h (omega arith), h n k, tally_below-suc n xs)

upper_edge-suc : (i : ℕ) → upper_edge i ≤ upper_edge (suc i)
unfolding upper_edge
upper_edge-suc i = elim (Bool-cases (i % 8 == 7)) [
  | inl t ↦
      let e = ==→eq (i % 8) 7 t in
      let o : suc i / 8 ≡ suc (i / 8) = omega arith in
      let r : suc i % 8 ≡ 0 = omega arith in
      let p : suc (i / 8) + 16 - 3 ≡ suc (i / 8 + 16 - 3) = omega arith in
      rw (e, o, r, p) (omega (arith, pow_double (i / 8 + 16 - 3)))
  | inr t ↦
      let n : i % 8 < 7 = ground arith in
      let o : suc i / 8 ≡ i / 8 = omega arith in
      let r : suc i % 8 ≡ suc (i % 8) = omega arith in
      rw (o, r) (grows (i % 8) (2 ^ (i / 8 + 16 - 3)))
]
  where
    grows : (a t : ℕ) → (8 + a + 1) * t ≤ (8 + suc a + 1) * t
    grows a t = grind arith

upper_edge_mono : (i n : ℕ) → upper_edge i ≤ upper_edge (i + n)
upper_edge_mono i zero = ap_le (omega arith)
  where
    ap_le : i ≡ i + 0 → upper_edge i ≤ upper_edge (i + 0)
    ap_le e = rw (← e) (omega arith)
upper_edge_mono i (suc n) =
    let e : i + suc n ≡ suc (i + n) = omega arith in
    rw e (omega (arith, upper_edge_mono i n, upper_edge-suc (i + n)))

-- Samples in the slots up to `n` are below the upper edge of slot `n`.
tally_below-below :
    (n : ℕ) (xs : List ℕ)
    → All (λ x. x < 2 ^ 40) xs
    → tally_below (suc n) xs ≤ below (upper_edge n) xs
unfolding tally_below below
tally_below-below n [] h = omega arith
tally_below-below n (x ∷ xs) h = elim (Bool-cases (ltb (bucket x) (suc n))) [
  | inl t ↦
      let lt = ltb→lt (bucket x) (suc n) t in
      let e : bucket x + (n - bucket x) ≡ n = omega arith in
      let m = upper_edge_mono (bucket x) (n - bucket x) in
      let m' : upper_edge (bucket x) ≤ upper_edge n = rw e at m in
      let u = upper_edge-bucket x h.0 in
      rw (t, lt→ltb x (upper_edge n) (omega arith)) (omega (arith, tally_below-below n xs h.1))
  | inr t ↦ rw t (ground (arith, tally_below-below n xs h.1))
]

-- With no sample in the window there is no quantile. Otherwise it is conservative and no more than
-- a slot too high: with the scaled number of samples at most their number, and every sample below
-- 2^40 ns, it is the upper edge of a slot such that at least the rank's number of samples lie below
-- that edge, and fewer than that lie in lower slots.
pub quantile_at-Holds :
    (scaled : ℕ → ℕ) (l : Latency) (now : ℕ) (xs ys : List ℕ)
    → Holds (current_generation (rotate l now)) xs
    → Holds (previous_generation (rotate l now)) ys
    → scaled (length (xs ++ ys)) ≤ length (xs ++ ys)
    → All (λ x. x < 2 ^ 40) (xs ++ ys)
    → ((length (xs ++ ys) ≡ 0) × ((quantile_at scaled l now).1 ≡ none))
      ⊎ ((slot : ℕ) × ((quantile_at scaled l now).1 ≡ some (upper_edge slot))
          × (rank scaled (length (xs ++ ys)) ≤ below (upper_edge slot) (xs ++ ys))
          × (tally_below slot (xs ++ ys) < rank scaled (length (xs ++ ys))))
unfolding quantile_at rank
quantile_at-Holds scaled l now xs ys h k ranked small = elim (Bool-cases (total cs == 0)) [
  | inl t ↦ inl (ground (arith, all_counted), rw (t, quantile_at) refl)
  | inr t ↦
      let zs = xs ++ ys in
      let n : total cs ≡ length zs = all_counted in
      let r : rank scaled (total cs) ≡ rank scaled (length zs) = ap (rank scaled) n in
      let some_sample : 0 < total cs = ground arith in
      let (j, e, lt, up, lo) =
        find_slot_lem cs 0 0 (rank scaled (total cs)) (omega arith) (omega (arith, r)) in
      let slot : find_slot cs 0 0 (rank scaled (total cs)) ≡ j = e ∙ omega arith in
      let inside : j < buckets = omega (arith, slots) in
      let upto = total-take cs zs (suc j) tallied inside in
      let before = total-take cs zs j tallied (omega arith) in
      inr (
        j,
        rw (t, quantile_at) (ap (λ i. some (upper_edge i)) slot),
        omega (arith, tally_below-below j zs small),
        omega arith,
      )
]
  where
    cs : List ℕ
    cs =
        add_counts (current_generation (rotate l now)).counts
          (previous_generation (rotate l now)).counts

    same_length :
        length (current_generation (rotate l now)).counts
        ≡ length (previous_generation (rotate l now)).counts
    same_length = h.slots ∙ sym k.slots

    slots : length cs ≡ buckets
    slots = length-add_counts _ _ same_length ∙ h.slots

    tallied : (i : ℕ) → i < buckets → get_or cs i 0 ≡ tally i (xs ++ ys)
    tallied i lt =
        get_or-add_counts _ _ i same_length
        ∙ omega (arith, h.tallied i lt, k.tallied i lt, tally-append i xs ys)

    all_counted : total cs ≡ length (xs ++ ys)
    all_counted =
        ap total (sym (take_all buckets cs (omega (arith, slots))))
        ∙ total-take cs (xs ++ ys) buckets tallied (omega arith)
        ∙ tally_below-all (xs ++ ys)

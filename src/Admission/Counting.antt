-- ===== src/Admission/Counting.antt =====
-- nestor/src/cache.rs, `Reads`: the counts against the calls made so far.
use nestor.Admission.{reused_reads, new_reads, fit, count_read, keep, forget_reads, record_read}
use nestor.Common.{
  ℕ, ◌+◌, ◌≤◌, ◌≡◌, ◌⊎◌, inl, inr, sym, min, max, List, [], ◌∷◌, Option, none, some, true, false,
  ◌==◌, ltb, if◌then◌else◌, Option-cases, Bool-cases, arith,
}
use nestor.Store.{Counts, CountsLaws}

pub data CountCall : Type 0 where
  reads keeps forgets fits : ℕ → CountCall

-- For each hash, how often blocks with this hash were read since one of them was last forgotten; one
-- that came from disk counts as read twice. The counts stop at 255.
unfoldable pub tally : (ℕ → ℕ) → List CountCall → ℕ → ℕ
tally l [] = l
tally l (reads h ∷ calls) = tally (λ j. if h == j then min 255 (l j + 1) else l j) calls
tally l (keeps h ∷ calls) = tally (λ j. if h == j then max (l j) reused_reads else l j) calls
tally l (forgets h ∷ calls) = tally (λ j. if h == j then 0 else l j) calls
tally l (fits n ∷ calls) = tally l calls

-- A counter is at most what it stands for.
abbrev Below : Option ℕ → ℕ → Type 0
Below none truth = Unit {0}
Below (some v) truth = (1 ≤ v) × (v ≤ truth)

module _ (counts : Counts) where
  unfoldable pub run_counts : counts.Cache → List CountCall → counts.Cache
  unfolding count_read keep forget_reads fit
  run_counts c [] = c
  run_counts c (reads h ∷ calls) = run_counts (count_read counts c h).0 calls
  run_counts c (keeps h ∷ calls) = run_counts (keep counts c h) calls
  run_counts c (forgets h ∷ calls) = run_counts (forget_reads counts c h) calls
  run_counts c (fits n ∷ calls) = run_counts (fit counts c n) calls

module _ (counts : Counts) (laws : CountsLaws counts) where
  abbrev Bounded : counts.Cache → (ℕ → ℕ) → Type 0
  Bounded c l = (h : ℕ) → Below (counts.get c h) (l h)

  lost : (o p : Option ℕ) (n : ℕ) → (o ≡ none) ⊎ (o ≡ p) → Below p n → Below o n
  lost o p n (inl e) b = rw e tt
  lost o p n (inr e) b = rw e b

  touch-Bounded :
      (c : counts.Cache) (h : ℕ) (l : ℕ → ℕ) → Bounded c l → Bounded (counts.touch c h) l
  touch-Bounded c h l b j = lost _ _ (l j) (laws.get-touch c h j) (b j)

  Below-mono : (o : Option ℕ) {n m : ℕ} → n ≤ m → Below o n → Below o m
  Below-mono none h b = tt
  Below-mono (some v) h b = (b.0, omega (arith, b.1))

  -- The value for one key is replaced.
  set-Below :
      (c : counts.Cache) (h v j : ℕ) (l l' : ℕ → ℕ)
      → Bounded c l
      → (1 ≤ v) × (v ≤ l' h)
      → ((h == j) ≡ false → l j ≤ l' j)
      → Below (if h == j then some v else counts.get c j) (l' j)
  set-Below c h v j l l' b ok other = elim (Bool-cases (h == j)) [
    | inl t ↦ let e : h ≡ j = ground arith in rw (t, sym e) ok
    | inr n ↦ rw n (Below-mono (counts.get c j) (other n) (b j))
  ]

  insert-Bounded :
      (c : counts.Cache) (h v : ℕ) (l l' : ℕ → ℕ)
      → Bounded c l
      → (1 ≤ v) × (v ≤ l' h)
      → ((j : ℕ) → (h == j) ≡ false → l j ≤ l' j)
      → Bounded (counts.insert c h v) l'
  insert-Bounded c h v l l' b ok other j =
      lost _ _ (l' j) (laws.get-insert c h v j) (set-Below c h v j l l' b ok (other j))

  write-Bounded :
      (c : counts.Cache) (h v : ℕ) (l l' : ℕ → ℕ)
      → Bounded c l
      → (1 ≤ v) × (v ≤ l' h)
      → ((j : ℕ) → (h == j) ≡ false → l j ≤ l' j)
      → Bounded (counts.write c h v) l'
  write-Bounded c h v l l' b ok other j =
      lost _ _ (l' j) (laws.get-write c h v j) (set-Below c h v j l l' b ok (other j))

  found : (o : Option ℕ) (v n : ℕ) → o ≡ some v → Below o n → (1 ≤ v) × (v ≤ n)
  found o v n e b = rw e at b

  count_read-Bounded :
      (c : counts.Cache) (h : ℕ) (l : ℕ → ℕ)
      → Bounded c l
      → (l h ≤ 255)
      → Bounded (count_read counts c h).0 (λ j. if h == j then min 255 (l j + 1) else l j)
        × ((count_read counts c h).1 ≤ l h + 1)
  unfolding count_read
  count_read-Bounded c h l b small =
      let t = touch-Bounded c h l b in
      elim (Option-cases (counts.get c h)) [
        | inl e ↦
            rw (e, count_read)
              (
                insert-Bounded (counts.touch c h) h 1 l _ t (ground arith)
                    (λ j n. rw n (omega arith)),
                omega arith,
              )
        | inr (v, e) ↦
            let (some_read, most) = found (counts.get c h) v (l h) e (b h) in
            elim (Bool-cases (v == 255)) [
              | inl q ↦
                  rw (e, q, count_read)
                    (
                      (λ j. Below-mono (counts.get (counts.touch c h) j) (ground arith) (t j)),
                      ground arith,
                    )
              | inr q ↦
                  rw (e, q, count_read)
                    (
                      write-Bounded (counts.touch c h) h (v + 1) l _ t (ground arith)
                          (λ j n. rw n (omega arith)),
                      ground arith,
                    )
            ]
      ]

  keep-Bounded :
      (c : counts.Cache) (h : ℕ) (l : ℕ → ℕ)
      → Bounded c l
      → Bounded (keep counts c h) (λ j. if h == j then max (l j) reused_reads else l j)
  unfolding keep
  keep-Bounded c h l b =
      let t = touch-Bounded c h l b in
      elim (Option-cases (counts.get c h)) [
        | inl e ↦
            rw (e, keep)
              (insert-Bounded (counts.touch c h) h 2 l _ t (ground arith)
                (λ j n. rw n (omega arith)))
        | inr (v, e) ↦
            let (some_read, most) = found (counts.get c h) v (l h) e (b h) in
            rw (e, keep)
              (write-Bounded (counts.touch c h) h (max v 2) l _ t (ground arith)
                (λ j n. rw n (omega arith)))
      ]

  forget_reads-Bounded :
      (c : counts.Cache) (h : ℕ) (l : ℕ → ℕ)
      → Bounded c l
      → Bounded (forget_reads counts c h) (λ j. if h == j then 0 else l j)
  unfolding forget_reads
  forget_reads-Bounded c h l b j =
      lost _ _ _ (laws.get-remove c h j)
        (elim (Bool-cases (h == j)) [ inl t ↦ rw t tt | inr n ↦ rw n (b j) ])

  fit-Bounded : (c : counts.Cache) (n : ℕ) (l : ℕ → ℕ) → Bounded c l → Bounded (fit counts c n) l
  unfolding fit
  fit-Bounded c n l b = elim (Bool-cases (ltb (counts.capacity c) n)) [
    | inl t ↦ rw (t, fit) (λ j. lost _ _ (l j) (laws.get-resize c n j) (b j))
    | inr f ↦ rw (f, fit) b
  ]

  run_counts-Bounded :
      (calls : List CountCall) (c : counts.Cache) (l : ℕ → ℕ)
      → Bounded c l
      → ((h : ℕ) → l h ≤ 255)
      → Bounded (run_counts counts c calls) (tally l calls) × ((h : ℕ) → tally l calls h ≤ 255)
  unfolding run_counts tally
  run_counts-Bounded [] c l b small = (b, small)
  run_counts-Bounded (reads h ∷ calls) c l b small =
      run_counts-Bounded calls _ _ (count_read-Bounded c h l b (small h)).0
        (λ j. ground (arith, small j))
  run_counts-Bounded (keeps h ∷ calls) c l b small =
      run_counts-Bounded calls _ _ (keep-Bounded c h l b) (λ j. ground (arith, small j))
  run_counts-Bounded (forgets h ∷ calls) c l b small =
      run_counts-Bounded calls _ _ (forget_reads-Bounded c h l b) (λ j. ground (arith, small j))
  run_counts-Bounded (fits n ∷ calls) c l b small =
      run_counts-Bounded calls _ _ (fit-Bounded c n l b) small

  -- The counts know blocks by their hashes only. After any calls on new counts, a read sends a block
  -- to disk only if a block with its hash was read or kept before, since a block with that hash was
  -- last forgotten, and the bytes in memory are those that were read.
  pub record_read-run_counts :
      (calls : List CountCall) (capacity h address : ℕ) (resident : Option ℕ)
      → (record_read counts
          (some (run_counts counts (new_reads counts capacity) calls))
          h
          resident
          address).1
        ≡ true
      → (1 ≤ tally (λ _. 0) calls h) × (resident ≡ some address)
  unfolding record_read new_reads
  record_read-run_counts calls capacity h address none e = ground arith
  record_read-run_counts calls capacity h address (some a) e =
      let c = run_counts counts (new_reads counts capacity) calls in
      let (b, small) =
        run_counts-Bounded calls (new_reads counts capacity) (λ _. 0)
          (λ j. rw (laws.get-create _ j) tt) (λ j. omega arith) in
      let (kept, most) = count_read-Bounded c h _ b (small h) in ground arith

-- ===== src/Latency/Window.antt =====
-- nestor/src/latency.rs, `rotate` and `window`: how long an observation counts.
use nestor.Common.{
  ℕ, zero, suc, ◌+◌, ◌-◌, ◌*◌, ◌/◌, ◌%◌, ◌≤◌, ◌<◌, ◌≡◌, refl, ◌∙◌, ◌⊎◌, inl, inr, min, arith, ◌==◌,
  u64_max, false, ne→==,
}
use nestor.Latency.{
  Latency, new_generation, clear, generation, change, advance, rotate, current_generation,
  previous_generation, generations_kept, rotate_every,
}

-- One round of the loop of `rotate`.
abbrev step : Latency → Latency
step l =
    let next = (l.current + 1) % generations_kept in record (change l next clear) { current = next }

three_cases : (c : ℕ) → c < 3 → (c ≡ 0) ⊎ (c ≡ 1) ⊎ (c ≡ 2)
three_cases c h = ground arith

step_lem :
    (l : Latency)
    → l.current < 3
    → (current_generation (step l) ≡ new_generation)
      × (previous_generation (step l) ≡ current_generation l)
      × ((step l).current < 3)
unfolding current_generation previous_generation generation change clear new_generation
step_lem l h = elim (three_cases l.current h) [
  | inl e ↦
      rw (e, current_generation, previous_generation, generation, change) (refl, refl, omega arith)
  | inr (inl e) ↦
      rw (e, current_generation, previous_generation, generation, change) (refl, refl, omega arith)
  | inr (inr e) ↦
      rw (e, current_generation, previous_generation, generation, change) (refl, refl, omega arith)
]

advance_many :
    (n : ℕ) (l : Latency)
    → l.current < 3
    → (current_generation (advance (suc (suc n)) l) ≡ new_generation)
      × (previous_generation (advance (suc (suc n)) l) ≡ new_generation)
unfolding advance
advance_many zero l h =
    let (c, p, lt) = step_lem l h in let (c', p', lt') = step_lem (step l) lt in (c', p' ∙ c)
advance_many (suc n) l h = let (c, p, lt) = step_lem l h in advance_many n (step l) lt

step_time : (l : Latency) → (step l).rotated_at_nanos ≡ l.rotated_at_nanos
unfolding change
step_time l = ground arith

advance_time : (n : ℕ) (l : Latency) → (advance n l).rotated_at_nanos ≡ l.rotated_at_nanos
unfolding advance
advance_time zero l = refl
advance_time (suc n) l = advance_time n (step l) ∙ step_time l

once :
    (l : Latency)
    → l.current < 3
    → (current_generation (advance 1 l) ≡ new_generation)
      × (previous_generation (advance 1 l) ≡ current_generation l)
unfolding advance
once l h = let (c, p, lt) = step_lem l h in (c, p)

-- Of a histogram whose current position is below 3: with less than a period since the last
-- rotation `rotate` changes nothing; with one period but not two the window starts an empty
-- generation and keeps the one that was current; after two periods or more nothing observed before
-- is left in it. If it changes anything, it notes the time as that of the last rotation.
pub rotate_window :
    (l : Latency) (now : ℕ)
    → l.current < 3
    → let age = min now u64_max - l.rotated_at_nanos in
      let r = rotate l now in
      ((age < rotate_every) × (r ≡ l))
      ⊎ ((rotate_every ≤ age)
          × (age < 2 * rotate_every)
          × (current_generation r ≡ new_generation)
          × (previous_generation r ≡ current_generation l)
          × (r.rotated_at_nanos ≡ min now u64_max))
      ⊎ ((2 * rotate_every ≤ age)
          × (current_generation r ≡ new_generation)
          × (previous_generation r ≡ new_generation)
          × (r.rotated_at_nanos ≡ min now u64_max))
unfolding rotate
rotate_window l now h =
    let age : ℕ = min now u64_max - l.rotated_at_nanos in
    let at : Latency = record l { rotated_at_nanos = min now u64_max } in
    let same_current : current_generation at ≡ current_generation l =
      unfold current_generation generation in refl in
    elim (three_ages age) [
      | inl young ↦ let p : age / rotate_every ≡ 0 = omega arith in inl (young, rw (p, rotate))
      | inr (inl (one, two)) ↦
          let p : age / rotate_every ≡ 1 = omega arith in
          inr (
            inl rw (p, rotate)
              (one, two, (once at h).0, (once at h).1 ∙ same_current, advance_time 1 at))
      | inr (inr old) ↦
          let p : min (age / rotate_every) 3 ≡ suc (suc (min (age / rotate_every) 3 - 2)) =
            omega arith in
          let n : ((age / rotate_every) == 0) ≡ false = ne→== _ _ (omega arith) in
          inr (
            inr
              let (c, q) = advance_many (min (age / rotate_every) 3 - 2) at h in
                let k = advance_time (suc (suc (min (age / rotate_every) 3 - 2))) at in
                rw (n, rotate) (rw p (old, c, q, k)))
    ]
  where
    three_ages :
        (a : ℕ)
        → (a < rotate_every)
          ⊎ ((rotate_every ≤ a) × (a < 2 * rotate_every))
          ⊎ (2 * rotate_every ≤ a)
    three_ages a = ground arith

-- ===== src/Block/Groups.antt =====
-- nestor/src/block.rs, `group_misses` and `aligned_take`: what is fetched in one request.
use mathlib.Core.List.{foldl}
use native.Mathlib.Nat.{div-add-mod', mod-lt, mod-eq_of_lt, mod-eq-sub-mod}
use nestor.Block.Size.{div_unique, div_bounds}
use nestor.Common.{
  ℕ, suc, ◌+◌, ◌-◌, ◌*◌, ◌/◌, ◌%◌, ◌≤◌, ◌<◌, ◌≡◌, ◌≢◌, refl, sym, ap, ◌∙◌, ◌⊎◌, inl, inr, List, [],
  ◌∷◌, ◌++◌, append-nil, append_assoc, arith, ◌==◌, not, true, Bool-cases, ◌&&◌, u32_mod, u32_max,
  All, range_from, range_from-snoc, min, max, ==→eq, eq→==,
}
use nestor.Block.{FetchGroup, push_miss, group_misses, aligned_take}

-- The blocks of a group, and of a list of groups.
abbrev pub members : FetchGroup → List ℕ
members g = range_from g.first g.count

abbrev pub flat : List FetchGroup → List ℕ
flat [] = []
flat (g ∷ gs) = members g ++ flat gs

-- A group of consecutive blocks of one window.
pub record InWindow (window : ℕ) (g : FetchGroup) : Type 0 where
  pub some_block : 0 < g.count
  pub fits : g.first + g.count ≤ u32_mod
  pub one_window : (g.first + g.count - 1) / window ≡ g.first / window

same_window : (x w : ℕ) → 0 < w → x % w ≢ 0 → (x - 1) / w ≡ x / w
same_window x w h k =
    let d = div-add-mod' x w in
    let m = mod-lt x h in div_unique (x - 1) w (x / w) (omega arith) (omega arith)

joins :
    (w idx : ℕ) (g : FetchGroup)
    → InWindow w g
    → idx < u32_mod
    → 0 < w
    → ((g.first + g.count) % u32_mod == idx && not (idx % w == 0)) ≡ true
    → (g.first + g.count ≡ idx) × InWindow w (record g { count = g.count + 1 })
joins w idx g v h pos t =
    let modded : (g.first + g.count) % u32_mod ≡ idx = ground arith in
    let off : idx % w ≢ 0 = ground arith in
    let e : g.first + g.count ≡ idx = inside (g.first + g.count) idx w v.fits modded off pos in
    let before : (idx - 1) / w ≡ idx / w = same_window idx w pos off in
    (
      e,
      record {
        some_block = omega arith;
        fits = omega arith;
        one_window =
            ap (λ j. j / w) {x = g.first + (g.count + 1) - 1} {y = idx} (omega arith)
            ∙ sym before
            ∙ ap (λ j. (j - 1) / w) (sym e)
            ∙ v.one_window;
      },
    )
  where
    inside : (s idx w : ℕ) → s ≤ u32_mod → s % u32_mod ≡ idx → idx % w ≢ 0 → 0 < w → s ≡ idx
    inside s idx w f m o pos = elim (Bool-cases (s == u32_mod)) [
      | inl full ↦
          let z : idx ≡ 0 = omega (arith, ==→eq s u32_mod full) in
          absurd (o (ap (λ j. j % w) z ∙ native.Mathlib.Nat.zero-mod w))
      | inr part ↦ omega (arith, eq→== s u32_mod)
    ]

single : (w idx : ℕ) → idx < u32_mod → InWindow w (record { first = idx; count = 1 })
single w idx h = record {
  some_block = omega arith;
  fits = omega arith;
  one_window = ap (λ j. j / w) {x = idx + 1 - 1} {y = idx} (omega arith);
}

members-single : (idx : ℕ) → members (record { first = idx; count = 1 }) ≡ idx ∷ []
unfolding range_from
members-single idx = refl

members-grow :
    (idx : ℕ) (g : FetchGroup)
    → g.first + g.count ≡ idx
    → members (record g { count = g.count + 1 }) ≡ members g ++ idx ∷ []
members-grow idx g e =
    ap (range_from g.first) {x = g.count + 1} {y = suc g.count} (omega arith)
    ∙ sym (range_from-snoc g.first g.count idx e)

push_miss_lem :
    (w : ℕ) (gs : List FetchGroup) (idx : ℕ)
    → 0 < w
    → idx < u32_mod
    → All (InWindow w) gs
    → (flat (push_miss w gs idx) ≡ flat gs ++ idx ∷ []) × All (InWindow w) (push_miss w gs idx)
unfolding push_miss
push_miss_lem w [] idx pos h v = (
  append-nil (members (record { first = idx; count = 1 })) ∙ members-single idx,
  (single w idx h, tt),
)
push_miss_lem w (g ∷ []) idx pos h v =
    elim (Bool-cases ((g.first + g.count) % u32_mod == idx && not (idx % w == 0))) [
      | inl t ↦
          let (e, v') = joins w idx g v.0 h pos t in
          rw (t, push_miss)
            (
              append-nil (members (record g { count = g.count + 1 }))
                  ∙ members-grow idx g e
                  ∙ ap (λ l. l ++ idx ∷ []) (sym (append-nil (members g))),
              (v', tt),
            )
      | inr t ↦
          rw (t, push_miss)
            (
              ap (◌++◌ (members g))
                    (append-nil (members (record { first = idx; count = 1 })) ∙ members-single idx)
                  ∙ ap (λ l. l ++ idx ∷ []) (sym (append-nil (members g))),
              (v.0, (single w idx h, tt)),
            )
    ]
push_miss_lem w (g ∷ h ∷ gs) idx pos lt v =
    let (e, v') = push_miss_lem w (h ∷ gs) idx pos lt v.1 in
    (ap (◌++◌ (members g)) e ∙ sym (append_assoc (members g) (flat (h ∷ gs)) (idx ∷ [])), (v.0, v'))

fold_lem :
    (w : ℕ) (gs : List FetchGroup) (misses : List ℕ)
    → 0 < w
    → All (λ i. i < u32_mod) misses
    → All (InWindow w) gs
    → (flat (foldl (push_miss w) gs misses) ≡ flat gs ++ misses)
      × All (InWindow w) (foldl (push_miss w) gs misses)
fold_lem w gs [] pos h v = (sym (append-nil (flat gs)), v)
fold_lem w gs (i ∷ is) pos h v =
    let (e, v') = push_miss_lem w gs i pos h.0 v in
    let (e', v'') = fold_lem w (push_miss w gs i) is pos h.1 v' in
    (e' ∙ ap (λ l. l ++ is) e ∙ append_assoc (flat gs) (i ∷ []) is, v'')

-- Of missing blocks whose indexes are u32, the groups hold all of them in their order; each group
-- is a nonempty run of consecutive blocks that does not cross a multiple of the fetch window, a
-- window of 0 counting as 1.
pub group_misses_partition :
    (misses : List ℕ) (window : ℕ)
    → All (λ i. i < u32_mod) misses
    → (flat (group_misses misses window) ≡ misses)
      × All (InWindow (max window 1)) (group_misses misses window)
unfolding group_misses
group_misses_partition misses window h = fold_lem (max window 1) [] misses (omega arith) h tt

-- With the next block below the end and the end a u32, `aligned_take` takes at
-- least one block, stays below the end and within the window of the next block, and stops only at
-- the end or at the window's boundary.
pub aligned_take_lem :
    (next end window : ℕ)
    → next < end
    → end ≤ u32_max
    → (0 < aligned_take next end window)
      × (next + aligned_take next end window ≤ end)
      × ((next + aligned_take next end window - 1) / max window 1 ≡ next / max window 1)
      × ((next + aligned_take next end window ≡ end)
          ⊎ (next + aligned_take next end window ≡ (next / max window 1 + 1) * max window 1))
unfolding aligned_take
aligned_take_lem next end window h k =
    let w = max window 1 in
    let pos : 0 < w = omega arith in
    let (lo, hi) = div_bounds next w (next / w) pos refl in
    let q : next / w ≤ next = native.Mathlib.Nat.div-le_self next w in
    let unwrapped : (next / w + 1) % u32_mod ≡ next / w + 1 = mod-eq_of_lt (omega arith) in
    let stop : ℕ = min (min ((next / w + 1) * w) u32_max) end in
    let step : (next / w + 1) * w ≡ next / w * w + w = grind arith in
    let taken : aligned_take next end window ≡ stop - next =
      rw (unwrapped, aligned_take) (omega arith) in
    let bound : next / w * w ≤ next = lo in
    rw taken (
      omega arith,
      omega arith,
      div_unique (next + (stop - next) - 1) w (next / w) (omega arith) (omega arith),
      ground arith,
    )

-- ===== src/Fetch/Runs.antt =====
-- nestor/src/fetch.rs, the end of `schedule`: the slots of the tasks.
use nestor.Block.{FetchGroup, group_misses}
use nestor.Block.Groups.{members, flat, InWindow, group_misses_partition}
use nestor.Common.{
  ℕ, zero, suc, ◌+◌, ◌<◌, ◌≡◌, refl, sym, ap, ◌∙◌, List, [], ◌∷◌, ◌++◌, map, take, drop,
  take-append-drop, take-append_self, drop-append_self, length, range_from, All, arith, u32_mod,
  max,
}
use nestor.Fetch.Schedule.{slot_index, split_groups}
use nestor.Inflight.{Slot}

abbrev pub concat : List (List Slot) → List Slot
concat [] = []
concat (l ∷ ls) = l ++ concat ls

-- A task whose slots are for the blocks of one group.
abbrev pub Run : ℕ → List Slot → Type 0
Run window task = (g : FetchGroup) × InWindow window g × (map slot_index task ≡ members g)

length-range_from : (s n : ℕ) → length (range_from s n) ≡ n
unfolding range_from
length-range_from s zero = refl
length-range_from s (suc n) = ap suc (length-range_from (s + 1) n)

map-take : (n : ℕ) (l : List Slot) → map slot_index (take n l) ≡ take n (map slot_index l)
map-take zero l = refl
map-take (suc n) [] = refl
map-take (suc n) (s ∷ l) = ap (◌∷◌ s.key.index) (map-take n l)

map-drop : (n : ℕ) (l : List Slot) → map slot_index (drop n l) ≡ drop n (map slot_index l)
map-drop zero l = refl
map-drop (suc n) [] = refl
map-drop (suc n) (s ∷ l) = map-drop n l

split_groups_lem :
    (w : ℕ) (gs : List FetchGroup) (slots : List Slot)
    → All (InWindow w) gs
    → flat gs ≡ map slot_index slots
    → (concat (split_groups gs slots) ≡ slots) × All (Run w) (split_groups gs slots)
unfolding split_groups
split_groups_lem w [] [] v h = (refl, tt)
split_groups_lem w [] (s ∷ slots) v h = absurd (omega (arith, ap length h))
split_groups_lem w (g ∷ gs) slots v h =
    let n = length-range_from g.first g.count in
    let first : take g.count (map slot_index slots) ≡ members g =
      ap (take g.count) (sym h)
      ∙ ap (λ j. take j (members g ++ flat gs)) (sym n)
      ∙ take-append_self (members g) (flat gs) in
    let rest : drop g.count (map slot_index slots) ≡ flat gs =
      ap (drop g.count) (sym h)
      ∙ ap (λ j. drop j (members g ++ flat gs)) (sym n)
      ∙ drop-append_self (members g) (flat gs) in
    let (joined, runs) =
      split_groups_lem w gs (drop g.count slots) v.1 (sym (map-drop g.count slots ∙ rest)) in
    (
      ap (◌++◌ (take g.count slots)) joined ∙ take-append-drop g.count slots,
      ((g, v.0, map-take g.count slots ∙ first), runs),
    )

-- The slots that are left once the blocks have landed, for blocks whose indexes are u32, are split
-- into tasks in their order; each task is a nonempty run of consecutive blocks within one fetch
-- window.
pub tasks_lem :
    (slots : List Slot) (window : ℕ)
    → All (λ i. i < u32_mod) (map slot_index slots)
    → let tasks = split_groups (group_misses (map slot_index slots) window) slots in
      (concat tasks ≡ slots) × All (Run (max window 1)) tasks
tasks_lem slots window h =
    let (e, v) = group_misses_partition (map slot_index slots) window h in
    split_groups_lem (max window 1) (group_misses (map slot_index slots) window) slots v e

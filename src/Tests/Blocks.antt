-- ===== src/Tests/Blocks.antt =====
-- nestor/src/block.rs on blocks of 64 KiB.
use nestor.Common.{
  ℕ, zero, suc, ap, ◌-◌, ◌≡◌, ◌<◌, ◌≤◌, ◌↔◌, refl, List, [], ◌∷◌, replicate, length, slice,
  range_from, arith, some, none, Range, max, ok, All, div_ceil, trailing_zeros, is_power_of_two,
}
use nestor.Block.{
  BlockSize, new, bytes, index, offset, count, blocks, span, block_range, slice_within, bounded,
  suffix, resolve, push_miss, group_misses, aligned_take, group_bounds, first_group,
}
use nestor.Block.Size.{IsValid}
use nestor.Block.Groups.{flat, InWindow, group_misses_partition}
use nestor.Block.Requests.{Wanted, resolve-Wanted}
use nestor.Block.Cover.{read_blocks, read_blocks-blocks}

program : Unit {0}
unfolding new bytes index offset count blocks span block_range slice_within resolve push_miss
    group_misses aligned_take group_bounds first_group div_ceil trailing_zeros is_power_of_two
program = tt

abbrev kib64 : BlockSize
kib64 = record { shift = 16 }

kib64-IsValid : IsValid kib64
kib64-IsValid = (omega arith, omega arith)

-- Misses 2, 3, 4, 5 and 9 with a window of 4 blocks.
abbrev misses : List ℕ
misses = 2 ∷ 3 ∷ 4 ∷ 5 ∷ 9 ∷ []

groups :
    group_misses misses 4
    ≡ record { first = 2; count = 2 }
      ∷ record { first = 4; count = 2 }
      ∷ record { first = 9; count = 1 }
      ∷ []
unfolding program
groups = refl

sizes : (new 65_536 ≡ some kib64) × (new 65_535 ≡ none) × (new 196_608 ≡ none)
unfolding program
sizes = (refl, refl, refl)

last_bytes : resolve (suffix 10) 100 ≡ ok (record { start = 90; end = 100 })
unfolding program
last_bytes = refl

group_misses_partition_example :
    (flat (group_misses misses 4) ≡ misses) × All (InWindow (max 4 1)) (group_misses misses 4)
group_misses_partition_example =
    group_misses_partition misses 4
      (omega arith, (omega arith, (omega arith, (omega arith, (omega arith, tt)))))

abbrev first_ten : Range
first_ten = record { start = 0; end = 10 }

abbrev first_five : Range
first_five = record { start = 0; end = 5 }

resolve-Wanted_example :
    (first_five.start ≤ first_five.end)
    × (first_five.end ≤ 5)
    × (((first_five.start ≤ 3) × (3 < first_five.end)) ↔ Wanted (bounded first_ten) 5 3)
unfolding program
resolve-Wanted_example = resolve-Wanted (bounded first_ten) 5 first_five 3 refl

abbrev group : Range
group = record { start = 1; end = 4 }

abbrev tail : Range
tail = record { start = 70_000; end = 900_000 }

length-replicate : (n x : ℕ) → length (replicate n x) ≡ n
length-replicate zero x = refl
length-replicate (suc n) x = ap suc (length-replicate n x)

-- An object of two blocks, and a range that begins in the first and ends in the second.
abbrev object : List ℕ
object = replicate 70_000 7

abbrev across : Range
across = record { start = 65_000; end = 66_000 }

length-object : length object ≡ 70_000
length-object = length-replicate 70_000 7

read_blocks-blocks_example :
    let is = blocks kib64 across in
    read_blocks kib64 across object (range_from is.start (is.end - is.start))
    ≡ slice across.start across.end object
unfolding bytes
read_blocks-blocks_example =
    read_blocks-blocks kib64 kib64-IsValid across object (omega arith)
      (omega (arith, length-object)) (omega (arith, length-object))

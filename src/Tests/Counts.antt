-- ===== src/Tests/Counts.antt =====
-- nestor/src/cache.rs: counts that lose nothing.
use nestor.Admission.{DiskConfig, new_disk, buffer_pool, mib, new_reads, record_read}
use nestor.Admission.Counting.{
  CountCall, reads, forgets, fits, tally, run_counts, record_read-run_counts,
}
use nestor.Admission.Settings.{buffer_pool_iff}
use nestor.Common.{
  ℕ, ◌*◌, ◌≤◌, ◌<◌, ◌≡◌, u64_mod, ◌⊎◌, ◌↔◌, inr, refl, List, [], ◌∷◌, Option, none, some, true,
  ◌==◌, if◌then◌else◌, arith,
}
use nestor.Store.{Counts, CountsLaws}

abbrev pub table : Counts
table = record {
  Cache = ℕ → Option ℕ;
  create = λ n h. none;
  get = λ c h. c h;
  touch = λ c h. c;
  insert = λ c h v j. if h == j then some v else c j;
  write = λ c h v j. if h == j then some v else c j;
  remove = λ c h j. if h == j then none else c j;
  capacity = λ c. 8;
  resize = λ c n. c;
}

table-laws : CountsLaws table
table-laws = record {
  get-create = λ n h. refl;
  get-touch = λ c h j. inr refl;
  get-insert = λ c h v j. inr refl;
  get-write = λ c h v j. inr refl;
  get-remove = λ c h j. inr refl;
  get-resize = λ c n j. inr refl;
}

abbrev resident : Option ℕ
resident = some 77

abbrev calls : List CountCall
calls = reads 4 ∷ forgets 4 ∷ fits 9 ∷ reads 5 ∷ reads 4 ∷ []

admitted :
    (record_read table (some (run_counts table (new_reads table 8) calls)) 4 resident 77).1 ≡ true
unfolding record_read run_counts new_reads
admitted = refl

record_read-run_counts_example : (1 ≤ tally (λ _. 0) calls 4) × (resident ≡ some 77)
record_read-run_counts_example =
    record_read-run_counts table table-laws calls 8 4 77 resident admitted

abbrev disk : DiskConfig
unfolding new_disk
disk = new_disk [] (4096 * mib)

unset : disk.buffer_pool_size ≡ none
unfolding disk
unset = refl

small : disk.flushers * disk.region_size < u64_mod
unfolding disk
small = omega arith

buffer_pool_iff_example : (300_000_000 ≤ buffer_pool disk) ↔ (
    (300_000_000 ≤ disk.flushers * disk.region_size)
    ⊎ ((300_000_000 * 16 ≤ disk.capacity) × (300_000_000 ≤ 268_435_456)))
buffer_pool_iff_example = buffer_pool_iff disk 300_000_000 unset small

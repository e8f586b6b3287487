-- ===== src/Tests/Reads.antt =====
-- nestor/src/reader.rs: a read of two bytes, and one whose first handle is cancelled.
use nestor.Block.{bytes, bounded, blocks, index, count}
use nestor.Common.{
  ℕ, zero, suc, ◌+◌, ◌⊎◌, inl, inr, List, Result, NestorError, ◌-◌, ◌≡◌, refl, [], ◌∷◌, none, some,
  true, Range, ok, err, slice, arith, cancelled, div_ceil,
}
use nestor.Reader.{Engine, Reader, Item, new_reader, next_item, collect}
use nestor.Reader.Collected.{collect-reads}
use nestor.Reader.Filled.{answer, answers}
use nestor.Reader.Handles.{Handles, Schedules, Resolves, Windowed, next_item-Windowed}
use nestor.Fetch.{ReadCtx}
use nestor.Inflight.{BlockResult}
use nestor.Tests.Fetches.{config, config-IsValid, content, meta, ctx}

abbrev engine : Engine ℕ
engine = record {
  schedule = λ c x r. answers config.block_size meta content r.start (r.end - r.start);
  any = λ c. none;
  resolve_ctx = λ c. err cancelled;
  alone = λ c. true;
}

abbrev two : Range
two = record { start = 1; end = 3 }

collect-reads_example :
    collect engine
      (suc ((blocks config.block_size two).end - (blocks config.block_size two).start))
      (new_reader
        (bounded two)
        ctx
        two
        (answers config.block_size meta content (blocks config.block_size two).start 1))
    ≡ some (ok (slice 1 3 content))
unfolding bytes blocks index count div_ceil
collect-reads_example =
    collect-reads ctx meta content (bounded two) two engine 1 config-IsValid refl (omega arith)
      (omega arith) (omega arith) (omega arith) (λ c r. refl) (omega arith)

-- A handle on a block returns it, or was cancelled.
abbrev On : ReadCtx ℕ → ℕ → BlockResult → Type 0
On x i h = (h ≡ answer config.block_size meta content i) ⊎ (h ≡ err cancelled)

answers-Handles :
    (x : ReadCtx ℕ) (n i j : ℕ)
    → i + n ≡ j
    → Handles On x i (answers config.block_size meta content i n) j
answers-Handles x zero i j e = omega (arith, e)
answers-Handles x (suc n) i j e = (inl refl, answers-Handles x n (i + 1) j (omega (arith, e)))

engine-Schedules : Schedules On engine
engine-Schedules c x r h = answers-Handles x (r.end - r.start) r.start r.end (omega (arith, h))

engine-Resolves : Resolves On engine (bounded two)
engine-Resolves c x fetched m range e = absurd (refused e)
  where
    refused :
        ◌≡◌ {A = Result NestorError (ReadCtx ℕ × List BlockResult)}
          (err cancelled)
          (ok (x, fetched))
        → ⊥
    refused h = cc

abbrev cut_short : Reader ℕ
cut_short = new_reader (bounded two) ctx two (err cancelled ∷ [])

cut_short-Windowed : Windowed On (bounded two) cut_short
unfolding new_reader
cut_short-Windowed = (refl, inr (inr refl, refl))

next_item-Windowed_example :
    (out : Reader ℕ × Item) × (next_item engine 4 cut_short ≡ some out)
    × Windowed On (bounded two) out.0
next_item-Windowed_example =
    next_item-Windowed On engine engine-Schedules (bounded two) engine-Resolves cut_short
      cut_short-Windowed

-- ===== src/Chunked/Decoding.antt =====
-- nestor-s3/src/body.rs: what all polls of a decoder return.
use nestor.Chunked.{
  Decoder, DecodeError, new_decoder, Item, phase_step, step, poll_loop, measure, poll_next,
}
use nestor.Chunked.Format.{Encodes, Remains-Encodes}
use nestor.Chunked.Framing.{stream, Clean, Owes, Progress}
use nestor.Chunked.Polls.{Decreases, phase_step-Decreases}
use nestor.Chunked.Rounds.{phase_step-Progress}
use nestor.Common.{
  ℕ, zero, suc, ◌+◌, ◌≤◌, ◌<◌, ◌≡◌, refl, sym, ap, ◌∙◌, List, [], ◌++◌, Option, none, some, Result,
  ok, err, arith,
}

-- The parts in a row, up to the end or an error.
unfoldable pub followed :
    List ℕ → Option (Result DecodeError (List ℕ)) → Option (Result DecodeError (List ℕ))
followed part none = none
followed part (some (err x)) = some (err x)
followed part (some (ok rest)) = some (ok (part ++ rest))

-- What a reader of the stream collects with as many polls.
unfoldable pub collect_parts : ℕ → Decoder → Option (Result DecodeError (List ℕ))
unfolding poll_next followed
collect_parts zero d = none
collect_parts (suc n) d = elim (poll_next d) [
  | none ↦ none
  | some out ↦
      let rest = collect_parts n out.0 in
      elim out.1 [
        | none ↦ some (ok [])
        | some item ↦ elim item [ err x ↦ some (err x) | ok part ↦ followed part rest ]
      ]
]

-- What a poll returns: a part of the content, or the end.
abbrev Delivers : ℕ → List ℕ → Option (Decoder × Item) → Type 0
Delivers bound p out =
    (d' : Decoder) × (item : Item) × (out ≡ some (d', item)) × Progress bound p (d', some item)

Progress_mono :
    (bound more : ℕ) (p : List ℕ) (d : Decoder) (item : Item)
    → bound ≤ more
    → Progress bound p (d, some item)
    → Progress more p (d, some item)
Progress_mono bound more p d none h w = w
Progress_mono bound more p d (some (err x)) h w = w
Progress_mono bound more p d (some (ok part)) h (q, e, o, less) = (q, e, o, omega (arith, h, less))

poll_loop-Delivers :
    (fuel : ℕ) (d : Decoder) (p : List ℕ)
    → Owes d p
    → measure d < fuel
    → Delivers (measure d) p (poll_loop fuel d)
unfolding poll_loop step
poll_loop-Delivers zero d p o h = absurd (omega arith)
poll_loop-Delivers (suc fuel) d p o h =
    go (poll_loop-Delivers fuel) (phase_step d.phase d) (phase_step-Decreases d.phase d)
      (phase_step-Progress d p d.phase o refl)
  where
    go :
        ((d' : Decoder) (p : List ℕ)
          → Owes d' p
          → measure d' < fuel
          → Delivers (measure d') p (poll_loop fuel d'))
        → (out : Decoder × Option Item) → Decreases (measure d) out
        → Progress (measure d) p out
        → Delivers
            (measure d)
            p
            (elim out.1 [ none ↦ poll_loop fuel out.0 | some item ↦ some (out.0, item) ])
    go again (d', none) less w =
        let (d'', item, e, v) = again d' p w (omega (arith, h, less)) in
        (d'', item, e, Progress_mono (measure d') (measure d) p d'' item (omega (arith, less)) v)
    go again (d', some item) less w = (d', item, refl, w)

collect_parts-Owes :
    (n : ℕ) (d : Decoder) (p : List ℕ) → Owes d p → measure d < n → collect_parts n d ≡ some (ok p)
unfolding collect_parts poll_next followed
collect_parts-Owes zero d p o h = absurd (omega arith)
collect_parts-Owes (suc n) d p o h =
    let (d', item, e, w) = poll_loop-Delivers (suc (measure d)) d p o (omega arith) in
    rw (e, collect_parts) (go (collect_parts-Owes n) d' item w)
  where
    go :
        ((d' : Decoder) (q : List ℕ)
          → Owes d' q
          → measure d' < n
          → collect_parts n d' ≡ some (ok q))
        → (d' : Decoder) (item : Item) → Progress (measure d) p (d', some item)
        → elim item [
          | none ↦ some (ok [])
          | some item ↦ elim item [
            | err x ↦ some (err x)
            | ok part ↦ followed part (collect_parts n d')
          ]
        ]
          ≡ some (ok p)
    go again d' none w = ap (λ l. some (ok l)) (sym w)
    go again d' (some (err x)) w = absurd w
    go again d' (some (ok part)) (q, e, o, less) =
        ap (followed part) (again d' q o (omega (arith, h, less))) ∙ ap (λ l. some (ok l)) (sym e)

-- However a body in the aws-chunked format, whose header lines have fewer than 1024 bytes, is cut into
-- the chunks of the inner stream, a decoder returns its content: as many polls as the body has bytes
-- and chunks, and two more, give the parts of the content and then the end, and no error.
pub collect_parts-Encodes :
    (input : List (Result ℕ (List ℕ))) (p : List ℕ)
    → Clean input
    → Encodes (stream input) p
    → collect_parts (measure (new_decoder input) + 1) (new_decoder input) ≡ some (ok p)
unfolding new_decoder
collect_parts-Encodes input p c w =
    let framing = Remains-Encodes (stream input) p w in
    collect_parts-Owes (measure (new_decoder input) + 1) (new_decoder input) p
      (record { framing = framing; clean = c; last = λ t. absurd (ground arith) }) (omega arith)

-- ===== src/Chunked/Polls.antt =====
-- nestor-s3/src/body.rs, `poll_next`: the loop ends.
use nestor.Chunked.{
  DecodeError, Phase, header, content, data_crlf, trailers, done, Decoder, parse_header, find_crlf,
  Item, pull, more, sized, header_step, data_step, crlf_step, trailers_step, phase_step, step,
  poll_loop, left, measure, poll_next, max_header_line,
}
use nestor.Common.{
  ℕ, zero, suc, ◌+◌, ◌≤◌, ◌<◌, ◌≡◌, inl, inr, refl, List, [], ◌∷◌, ◌++◌, true, false, Option, none,
  some, ltb, leb, ◌==◌, if◌then◌else◌, Bool-cases, Option-cases, length, length-append, length-drop,
  take, drop, Result, ok, err, arith, leb→le,
}
use nestor.Origin.Text.{same}

-- The first line break lies in the bytes.
pub find_crlf_bound : (bs : List ℕ) (i : ℕ) → find_crlf bs ≡ some i → i + 2 ≤ length bs
unfolding find_crlf
find_crlf_bound [] i e = absurd (ground arith)
find_crlf_bound (a ∷ []) i e = absurd (ground arith)
find_crlf_bound (a ∷ b ∷ cs) i e = elim (Option-cases (find_crlf (b ∷ cs))) [
  | inl n ↦ ground arith
  | inr (j, n) ↦ let h = find_crlf_bound (b ∷ cs) j n in ground arith
]

-- A round that returns nothing leaves less to do.
abbrev pub Decreases : ℕ → Decoder × Option Item → Type 0
Decreases bound (d, none) = measure d < bound
Decreases bound (d, some item) = Unit {0}

pull-Decreases :
    (d : Decoder) (input : List (Result ℕ (List ℕ))) (bound : ℕ)
    → d.eof ≡ false
    → length d.buf + left input + 1 ≤ bound
    → Decreases bound (pull d input)
unfolding pull measure left
pull-Decreases d [] bound e h = let r : length d.buf + 0 + 0 < bound = omega (arith, h) in r
pull-Decreases d (ok chunk ∷ rest) bound e h =
    let r : length (d.buf ++ chunk) + left rest + 1 < bound =
      omega (arith, length-append d.buf chunk, h) in
    simp e r
pull-Decreases d (err x ∷ rest) bound e h = tt

more-Decreases : (d : Decoder) (bound : ℕ) → measure d ≤ bound → Decreases bound (more d)
unfolding more measure
more-Decreases d bound h = elim (Bool-cases d.eof) [
  | inl t ↦ simp (t, more) tt
  | inr t ↦
      let h' : length d.buf + left d.input + (if d.eof then 0 else 1) ≤ bound = h in
      simp (t, more) (pull-Decreases d d.input bound t (rw t at h'))
]

sized-Decreases :
    (d : Decoder) (r : Result DecodeError ℕ) (bound : ℕ)
    → measure d < bound
    → Decreases bound (sized d r)
unfolding sized measure
sized-Decreases d (err x) bound h = tt
sized-Decreases d (ok n) bound h = h

pub shorter :
    (d : Decoder) (buf : List ℕ)
    → length buf < length d.buf
    → measure (record d { buf = buf }) < measure d
unfolding measure
shorter d buf h =
    let k : ℕ = if d.eof then 0 else 1 in
    let r : length buf + left d.input + k < length d.buf + left d.input + k = omega (arith, h) in r

header_step-Decreases : (d : Decoder) → Decreases (measure d) (header_step d)
unfolding header_step measure
header_step-Decreases d = elim (Option-cases (find_crlf d.buf)) [
  | inl n ↦ elim (Bool-cases (ltb max_header_line (length d.buf))) [
    | inl t ↦ rw (n, t, header_step) tt
    | inr t ↦ rw (n, t, header_step) (more-Decreases d (measure d) (omega arith))
  ]
  | inr (i, n) ↦
      let b = find_crlf_bound d.buf i n in
      let l = length-drop (i + 2) d.buf in
      rw (n, header_step)
        (sized-Decreases _ (parse_header (take i d.buf)) (measure d)
          (shorter d (drop (i + 2) d.buf) (omega (arith, b, l))))
]

data_step-Decreases : (d : Decoder) (n : ℕ) → Decreases (measure d) (data_step d n)
unfolding data_step measure
data_step-Decreases d n = elim (Bool-cases (length d.buf == 0)) [
  | inl t ↦ rw (t, data_step) (more-Decreases d (measure d) (omega arith))
  | inr t ↦ rw (t, data_step) tt
]

crlf_step-Decreases : (d : Decoder) → Decreases (measure d) (crlf_step d)
unfolding crlf_step measure
crlf_step-Decreases d = elim (Bool-cases (leb 2 (length d.buf))) [
  | inr t ↦ rw (t, crlf_step) (more-Decreases d (measure d) (omega arith))
  | inl t ↦ elim (Bool-cases (same (take 2 d.buf) (13 ∷ 10 ∷ []))) [
    | inr s ↦ rw (t, s, crlf_step) tt
    | inl s ↦
        rw (t, s, crlf_step)
          (shorter d (drop 2 d.buf) (ground (arith, length-drop 2 d.buf, leb→le _ _ t)))
  ]
]

trailers_step-Decreases : (d : Decoder) → Decreases (measure d) (trailers_step d)
unfolding trailers_step measure
trailers_step-Decreases d =
    let cleared = record d { buf = [] } in
    let k : ℕ = if d.eof then 0 else 1 in
    let r : 0 + left d.input + k ≤ length d.buf + left d.input + k = omega arith in
    elim d.eof
      as (λ b.
        Decreases (measure d)
          (if b then (record cleared { phase = done }, some none) else more cleared)) [
            | true ↦ tt
            | false ↦ more-Decreases cleared (measure d) r
          ]

pub phase_step-Decreases :
    (phase : Phase) (d : Decoder) → Decreases (measure d) (phase_step phase d)
unfolding phase_step
phase_step-Decreases done d = tt
phase_step-Decreases header d = header_step-Decreases d
phase_step-Decreases (content n) d = data_step-Decreases d n
phase_step-Decreases data_crlf d = crlf_step-Decreases d
phase_step-Decreases trailers d = trailers_step-Decreases d

poll_loop-return :
    (fuel : ℕ) (d : Decoder) → measure d < fuel → (r : Decoder × Item) × (poll_loop fuel d ≡ some r)
unfolding poll_loop step
poll_loop-return zero d h = absurd (omega arith)
poll_loop-return (suc fuel) d h =
    go (poll_loop-return fuel) (phase_step d.phase d) (phase_step-Decreases d.phase d)
  where
    go :
        ((d' : Decoder) → measure d' < fuel → (r : Decoder × Item) × (poll_loop fuel d' ≡ some r))
        → (out : Decoder × Option Item) → Decreases (measure d) out
        → (r : Decoder × Item) × ((elim out.1 [
          | none ↦ poll_loop fuel out.0
          | some item ↦ some (out.0, item)
        ])
            ≡ some r)
    go again (d', none) less = again d' (omega (arith, h, less))
    go again (d', some item) less = ((d', item), refl)

-- Every poll returns: each round but the last one uses up bytes of the buffer, a chunk of the inner
-- stream, or its end.
pub poll_next-return : (d : Decoder) → (r : Decoder × Item) × (poll_next d ≡ some r)
unfolding poll_next
poll_next-return d = poll_loop-return (suc (measure d)) d (omega arith)

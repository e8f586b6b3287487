-- ===== src/Chunked/Framing.antt =====
-- nestor-s3/src/body.rs: the aws-chunked format, and what one round of the loop does with it.
use nestor.Chunked.{
  Phase, header, content, data_crlf, trailers, done, max_header_line, Decoder, parse_header,
  find_crlf, Item, pull, more, measure,
}
use nestor.Common.{
  ℕ, ◌+◌, ◌≤◌, ◌<◌, ◌≡◌, inl, inr, refl, sym, ap, ◌∙◌, subst, List, [], ◌∷◌, ◌++◌, append-nil,
  append_assoc, true, false, Option, none, some, ◌==◌, if◌then◌else◌, Bool-cases, Option-cases,
  length, Result, ok, err, arith,
}

-- The bytes that are left in a phase of the decoder, as its tests read them, and the content that
-- they stand for.
pub data Remains : Phase → List ℕ → List ℕ → Type 0 where
  framed :
      {bs p : List ℕ} (line rest : List ℕ) (n : ℕ)
      → bs ≡ line ++ 13 ∷ 10 ∷ rest
      → find_crlf bs ≡ some (length line)
      → length line < max_header_line
      → parse_header line ≡ ok n
      → Remains (if n == 0 then trailers else content n) rest p
      → Remains header bs p
  filled :
      {bs p : List ℕ} {n : ℕ} (part rest q : List ℕ)
      → bs ≡ part ++ rest
      → p ≡ part ++ q
      → length part ≡ n
      → 0 < n
      → Remains data_crlf rest q
      → Remains (content n) bs p
  ended :
      {bs p : List ℕ} (rest : List ℕ)
      → bs ≡ 13 ∷ 10 ∷ rest
      → Remains header rest p
      → Remains data_crlf bs p
  trailing : {bs p : List ℕ} → p ≡ [] → Remains trailers bs p
  over : {bs p : List ℕ} → p ≡ [] → Remains done bs p

-- The bytes of an inner stream without errors.
unfoldable pub stream : List (Result ℕ (List ℕ)) → List ℕ
stream [] = []
stream (ok chunk ∷ rest) = chunk ++ stream rest
stream (err x ∷ rest) = []

abbrev pub Clean : List (Result ℕ (List ℕ)) → Type 0
Clean [] = Unit {0}
Clean (ok chunk ∷ rest) = Clean rest
Clean (err x ∷ rest) = ⊥

-- What a decoder still has to return.
pub record Owes (d : Decoder) (p : List ℕ) : Type 0 where
  pub framing : Remains d.phase (d.buf ++ stream d.input) p
  pub clean : Clean d.input
  pub last : d.eof ≡ true → d.input ≡ []

-- A round goes on, returns a part, or ends the stream.
abbrev pub Progress : ℕ → List ℕ → Decoder × Option Item → Type 0
Progress bound p (d, none) = Owes d p
Progress bound p (d, some none) = p ≡ []
Progress bound p (d, some (some (ok part))) =
    (q : List ℕ) × (p ≡ part ++ q) × Owes d q × (measure d < bound)
Progress bound p (d, some (some (err x))) = ⊥

pub find_crlf-append :
    (xs ys : List ℕ) (i : ℕ) → find_crlf xs ≡ some i → find_crlf (xs ++ ys) ≡ some i
unfolding find_crlf
find_crlf-append [] ys i e = absurd (ground arith)
find_crlf-append (a ∷ []) ys i e = absurd (ground arith)
find_crlf-append (a ∷ b ∷ cs) ys i e = elim (Option-cases (find_crlf (b ∷ cs))) [
  | inl n ↦ ground arith
  | inr (j, n) ↦ let h = find_crlf-append (b ∷ cs) ys j n in ground arith
]

pub find_crlf-none :
    (xs ys : List ℕ) (i : ℕ)
    → find_crlf xs ≡ none
    → find_crlf (xs ++ ys) ≡ some i
    → length xs ≤ i + 1
unfolding find_crlf
find_crlf-none [] ys i n e = omega arith
find_crlf-none (a ∷ []) ys i n e = omega arith
find_crlf-none (a ∷ b ∷ cs) ys i n e = elim (Option-cases (find_crlf ((b ∷ cs) ++ ys))) [
  | inl m ↦ ground arith
  | inr (j, m) ↦ elim (Option-cases (find_crlf (b ∷ cs))) [
    | inl o ↦ let h = find_crlf-none (b ∷ cs) ys j o m in ground arith
    | inr (l, o) ↦ ground arith
  ]
]

module _ (d : Decoder) (p : List ℕ) where
  pub pull-Progress :
      (input : List (Result ℕ (List ℕ))) (bound : ℕ)
      → Clean input
      → d.eof ≡ false
      → Remains d.phase (d.buf ++ stream input) p
      → Progress bound p (pull d input)
  unfolding pull stream
  pull-Progress [] bound c e f = record { framing = f; clean = tt; last = λ t. refl }
  pull-Progress (ok chunk ∷ rest) bound c e f = record {
    framing = subst (λ bs. Remains d.phase bs p) (sym (append_assoc d.buf chunk (stream rest))) f;
    clean = c;
    last = λ t. absurd cc;
  }
  pull-Progress (err x ∷ rest) bound c e f = c

  -- Bytes are missing: the buffer alone is not framed.
  pub more-Progress :
      (bound : ℕ) → Owes d p → (Remains d.phase d.buf p → ⊥) → Progress bound p (more d)
  unfolding more stream
  more-Progress bound o short = elim (Bool-cases d.eof) [
    | inl t ↦
        let z : d.buf ++ stream d.input ≡ d.buf =
          ap (λ l. d.buf ++ stream l) (o.last t) ∙ append-nil d.buf in
        absurd (short (subst (λ bs. Remains d.phase bs p) z o.framing))
    | inr t ↦ simp (t, more) (pull-Progress d.input bound o.clean t o.framing)
  ]

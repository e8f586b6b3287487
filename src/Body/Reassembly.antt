-- ===== src/Body/Reassembly.antt =====
-- nestor/src/body.rs: `next_block` against the bytes that the response still owes.
use nestor.Common.{
  ℕ, zero, suc, ◌-◌, ◌≤◌, ◌<◌, ◌≡◌, refl, sym, ap, ◌∙◌, min, true, false, List, [], ◌∷◌, ◌++◌,
  append-nil, append_assoc, length, length-append, take, drop, take-append_left, drop-append_left,
  drop-nil, drop_all, leb, leb→le, ne→==, ◌⊎◌, Bool-cases, inl, inr, Result, ok, err, OriginError,
  short_read, arith, Option, none, some,
}
use nestor.Body.{BlockStream, next_loop, next_block}

-- The bytes of the chunks in front of the first error, and that error.
abbrev pub delivered : List (Result OriginError (List ℕ)) → List ℕ
delivered [] = []
delivered (err e ∷ body) = []
delivered (ok chunk ∷ body) = chunk ++ delivered body

abbrev pub broken : List (Result OriginError (List ℕ)) → Option OriginError
broken [] = none
broken (err e ∷ body) = some e
broken (ok chunk ∷ body) = broken body

-- What the stream still owes: the buffer, and what comes without the bytes to skip.
abbrev pub owed : BlockStream → List ℕ
owed s = s.buf ++ drop s.skip (delivered s.body)

-- The error of a stream that ends too early.
abbrev pub shortage : Option OriginError → ℕ → ℕ → OriginError
shortage none expected got = short_read expected got
shortage (some e) expected got = e

-- The outcome of one call: the next bytes, which are then no longer owed, or the error.
abbrev pub Delivers :
    BlockStream × Result OriginError (List ℕ) → ℕ → List ℕ → Option OriginError → Type 0
Delivers r n bytes e =
    ((n ≤ length bytes)
      × (r.1 ≡ ok (take n bytes))
      × (owed r.0 ≡ drop n bytes)
      × (broken r.0.body ≡ e))
    ⊎ ((length bytes < n) × (r.1 ≡ err (shortage e n (length bytes))))

drop-append : (n : ℕ) (xs ys : List ℕ) → drop n (xs ++ ys) ≡ drop n xs ++ drop (n - length xs) ys
drop-append zero xs ys = ap (λ j. xs ++ drop j ys) {x = 0} {y = 0 - length xs} (omega arith)
drop-append (suc n) [] ys = ap (λ j. drop j ys) {x = suc n} {y = suc n - 0} (omega arith)
drop-append (suc n) (x ∷ xs) ys =
    drop-append n xs ys ∙ ap (λ j. drop n xs ++ drop j ys) {x = n - length xs} (omega arith)

-- A chunk without its skipped part stands in front of what comes after it.
skipped_chunk :
    (skip : ℕ) (chunk rest : List ℕ)
    → drop skip (chunk ++ rest)
      ≡ drop (min (length chunk) skip) chunk ++ drop (skip - min (length chunk) skip) rest
skipped_chunk skip chunk rest =
    drop-append skip chunk rest
    ∙ ap (λ j. drop skip chunk ++ drop j rest) {x = skip - length chunk}
        {y = skip - min (length chunk) skip} (omega arith)
    ∙ ap (λ l. l ++ drop (skip - min (length chunk) skip) rest) same
  where
    same : drop skip chunk ≡ drop (min (length chunk) skip) chunk
    same = elim (Bool-cases (leb skip (length chunk))) [
      | inl t ↦ ap (λ j. drop j chunk) {x = skip} {y = min (length chunk) skip} (ground arith)
      | inr n ↦
          drop_all skip chunk (ground arith)
          ∙ sym (drop_all (min (length chunk) skip) chunk (ground arith))
    ]

buffered :
    (body : List (Result OriginError (List ℕ))) (buf : List ℕ) (skip n : ℕ)
    → n ≤ length buf
    → Delivers
        (record { body = body; buf = drop n buf; skip = skip }, ok (take n buf))
        n
        (buf ++ drop skip (delivered body))
        (broken body)
buffered body buf skip n h = inl (
  omega (arith, length-append buf (drop skip (delivered body))),
  ap ok (sym (take-append_left buf (drop skip (delivered body)) n h)),
  sym (drop-append_left buf (drop skip (delivered body)) n h),
  refl,
)

at_hand :
    (body : List (Result OriginError (List ℕ))) (buf : List ℕ) (skip n : ℕ)
    → leb n (length buf) ≡ true
    → next_loop body buf skip n
      ≡ (record { body = body; buf = drop n buf; skip = skip }, ok (take n buf))
unfolding next_loop
at_hand [] buf skip n t = rw (t, next_loop) refl
at_hand (err e ∷ body) buf skip n t = rw (t, next_loop) refl
at_hand (ok chunk ∷ body) buf skip n t = rw (t, next_loop) refl

-- A stream that has ended, or failed, with less than the block in the buffer.
starved :
    (r : BlockStream × Result OriginError (List ℕ)) (buf : List ℕ) (skip n : ℕ)
    (e : Option OriginError)
    → leb n (length buf) ≡ false
    → r.1 ≡ err (shortage e n (length buf))
    → Delivers r n (buf ++ drop skip []) e
starved r buf skip n e f h = inr (too_short, h ∙ ap (λ l. err (shortage e n (length l))) (sym same))
  where
    same : buf ++ drop skip [] ≡ buf
    same = ap (λ l. buf ++ l) (drop-nil skip) ∙ append-nil buf

    too_short : length (buf ++ drop skip []) < n
    too_short = ground (arith, ap length same)

-- The next chunk, taken into the buffer or used directly.
next_loop-chunk :
    (chunk : List ℕ) (body : List (Result OriginError (List ℕ))) (buf : List ℕ) (skip n : ℕ)
    → leb n (length buf) ≡ false
    → next_loop (ok chunk ∷ body) buf skip n
      ≡ next_loop body
          (buf ++ drop (min (length chunk) skip) chunk)
          (skip - min (length chunk) skip)
          n
unfolding next_loop
next_loop-chunk chunk body [] skip n f =
    elim (Bool-cases (leb n (length (drop (min (length chunk) skip) chunk)))) [
      | inl t ↦
          rw (f, t, next_loop)
            (sym (
              at_hand body (drop (min (length chunk) skip) chunk) (skip - min (length chunk) skip) n
                t))
      | inr f' ↦ rw (f, f', next_loop) refl
    ]
next_loop-chunk chunk body (x ∷ buf) skip n f =
    rw (f, ne→== (length (x ∷ buf)) 0 (λ e. omega (arith, e)), next_loop) refl

loop_lem :
    (body : List (Result OriginError (List ℕ))) (buf : List ℕ) (skip n : ℕ)
    → Delivers (next_loop body buf skip n) n (buf ++ drop skip (delivered body)) (broken body)
unfolding next_loop
loop_lem [] buf skip n = elim (Bool-cases (leb n (length buf))) [
  | inl t ↦ rw (at_hand [] buf skip n t) (buffered [] buf skip n (leb→le n (length buf) t))
  | inr f ↦ starved (next_loop [] buf skip n) buf skip n none f (rw (f, next_loop) refl)
]
loop_lem (err e ∷ body) buf skip n = elim (Bool-cases (leb n (length buf))) [
  | inl t ↦
      rw (at_hand (err e ∷ body) buf skip n t)
        (buffered (err e ∷ body) buf skip n (leb→le n (length buf) t))
  | inr f ↦
      starved (next_loop (err e ∷ body) buf skip n) buf skip n (some e) f (rw (f, next_loop) refl)
]
loop_lem (ok chunk ∷ body) buf skip n = elim (Bool-cases (leb n (length buf))) [
  | inl t ↦
      rw (at_hand (ok chunk ∷ body) buf skip n t)
        (buffered (ok chunk ∷ body) buf skip n (leb→le n (length buf) t))
  | inr f ↦
      rw
        (
          next_loop-chunk chunk body buf skip n f,
          ap (λ l. buf ++ l) (skipped_chunk skip chunk (delivered body)),
          sym (
              append_assoc buf (drop (min (length chunk) skip) chunk)
                (drop (skip - min (length chunk) skip) (delivered body))),
        )
        (loop_lem body (buf ++ drop (min (length chunk) skip) chunk)
          (skip - min (length chunk) skip) n)
]

-- However the response is cut into chunks, a call that the bytes still owed can satisfy returns the
-- next `n` of them, and exactly those are then no longer owed; any other call returns the error
-- that ended the body, or a short read that names the length wanted and the length there was.
pub next_block-Delivers :
    (s : BlockStream) (n : ℕ) → Delivers (next_block s n) n (owed s) (broken s.body)
unfolding next_block
next_block-Delivers s n = loop_lem s.body s.buf s.skip n

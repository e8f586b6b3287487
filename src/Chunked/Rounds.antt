-- ===== src/Chunked/Rounds.antt =====
-- nestor-s3/src/body.rs: what one round of the loop does with a framed body.
use nestor.Chunked.{
  Phase, header, content, data_crlf, trailers, done, ended_early, max_header_line, Decoder,
  find_crlf, pull, more, header_step, data_step, crlf_step, trailers_step, phase_step, measure,
}
use nestor.Chunked.Polls.{find_crlf_bound, shorter}
use nestor.Chunked.Framing.{
  Remains, framed, filled, ended, trailing, over, stream, Owes, Progress, find_crlf-append,
  find_crlf-none, pull-Progress, more-Progress,
}
use nestor.Common.{
  ℕ, suc, ◌+◌, ◌≤◌, ◌≡◌, inl, inr, refl, sym, ap, ◌∙◌, subst, min, List, [], ◌∷◌, ◌++◌,
  append_assoc, true, false, none, some, ltb, leb, ◌==◌, if◌then◌else◌, Bool-cases, Option-cases,
  length, length-append, length-drop, take, drop, take-append_left, drop-append_left,
  take-append_self, drop-append_self, drop-drop, take_all, drop_all, err, arith, leb→le, eq→==,
}
use nestor.Origin.Text.{same, same_iff}

-- A line in front of a line break is taken off the bytes.
split_line :
    (buf ys line rest : List ℕ) (i : ℕ)
    → buf ++ ys ≡ line ++ 13 ∷ 10 ∷ rest
    → i ≡ length line
    → i + 2 ≤ length buf
    → (take i buf ≡ line) × (drop (i + 2) buf ++ ys ≡ rest)
split_line buf ys line rest i e same inside =
    let whole : List ℕ = line ++ 13 ∷ 10 ∷ rest in
    (
      sym (take-append_left buf ys i (omega arith))
          ∙ ap (take i) e
          ∙ ap (λ j. take j whole) same
          ∙ take-append_self line (13 ∷ 10 ∷ rest),
      sym (drop-append_left buf ys (i + 2) inside)
          ∙ ap (drop (i + 2)) e
          ∙ sym (drop-drop 2 (length line) (i + 2) whole (omega arith))
          ∙ ap (drop 2) (drop-append_self line (13 ∷ 10 ∷ rest)),
    )

-- The bytes of a chunk that are there, and those that are not.
split_part :
    (buf ys part rest : List ℕ) (n : ℕ)
    → buf ++ ys ≡ part ++ rest
    → length part ≡ n
    → n ≤ length buf
    → (take n buf ≡ part) × (drop n buf ++ ys ≡ rest)
split_part buf ys part rest n e len enough = (
  sym (take-append_left buf ys n enough)
      ∙ ap (take n) e
      ∙ ap (λ j. take j (part ++ rest)) (sym len)
      ∙ take-append_self part rest,
  sym (drop-append_left buf ys n enough)
      ∙ ap (drop n) e
      ∙ ap (λ j. drop j (part ++ rest)) (sym len)
      ∙ drop-append_self part rest,
)

split_buf :
    (buf ys part rest : List ℕ)
    → buf ++ ys ≡ part ++ rest
    → length buf ≤ length part
    → (part ≡ buf ++ drop (length buf) part) × (ys ≡ drop (length buf) part ++ rest)
split_buf [] ys part rest e h = (refl, e)
split_buf (x ∷ xs) ys [] rest e h = absurd (omega arith)
split_buf (x ∷ xs) ys (y ∷ part) rest e h =
    let t : xs ++ ys ≡ part ++ rest = ap (drop 1) e in
    let k : x ≡ y = cc in let (a, b) = split_buf xs ys part rest t (omega (arith, h)) in (cc, b)

module _ (d : Decoder) (p : List ℕ) where
  not_header : find_crlf d.buf ≡ none → Remains header d.buf p → ⊥
  not_header n (framed line rest k e f s h t) = absurd cc

  header_step-Progress : Owes d p → d.phase ≡ header → Progress (measure d) p (header_step d)
  unfolding header_step
  header_step-Progress o ph =
      let ys = stream d.input in
      elim (subst (λ ph. Remains ph (d.buf ++ ys) p) ph o.framing) [
        | framed line rest n e f short h t ↦ elim (Option-cases (find_crlf d.buf)) [
          | inl m ↦
              let few = find_crlf-none d.buf ys (length line) m f in
              let s : ltb max_header_line (length d.buf) ≡ false = ground arith in
              rw (m, s, header_step)
                (more-Progress d p (measure d) o
                  (λ w. not_header m (subst (λ ph. Remains ph d.buf p) ph w)))
          | inr (i, m) ↦
              let g = find_crlf-append d.buf ys i m in
              let same : i ≡ length line = ground (arith, g, f) in
              let (taken, dropped) =
                split_line d.buf ys line rest i e same (find_crlf_bound d.buf i m) in
              rw (m, taken, h, header_step)
                (record {
                  framing =
                      subst (λ bs. Remains (if n == 0 then trailers else content n) bs p)
                        (sym dropped) t;
                  clean = o.clean;
                  last = o.last;
                })
        ]
      ]

  not_content : (n : ℕ) → length d.buf ≡ 0 → Remains (content n) d.buf p → ⊥
  not_content n z (filled part rest q e f len pos w) =
      let l : length d.buf ≡ length part + length rest = ap length e ∙ length-append part rest in
      omega (arith, l, z, len, pos)

  data_step-Progress :
      (n : ℕ) → Owes d p → d.phase ≡ content n → Progress (measure d) p (data_step d n)
  unfolding data_step measure
  data_step-Progress n o ph =
      let ys = stream d.input in
      elim (subst (λ ph. Remains ph (d.buf ++ ys) p) ph o.framing) [
        | filled part rest q e f len pos w ↦ elim (Bool-cases (length d.buf == 0)) [
          | inl z ↦
              rw (z, data_step)
                (more-Progress d p (measure d) o
                  (λ w. not_content n (ground arith) (subst (λ ph. Remains ph d.buf p) ph w)))
          | inr z ↦ elim (Bool-cases (leb n (length d.buf))) [
            | inl le ↦
                let m : min n (length d.buf) ≡ n = ground arith in
                let (taken, dropped) = split_part d.buf ys part rest n e len (ground arith) in
                let l = length-drop n d.buf in
                let self = eq→== n n refl in
                rw (z, m, self, data_step)
                  (
                    q,
                    f ∙ ap (λ l. l ++ q) (sym taken),
                    record {
                      framing = subst (λ bs. Remains data_crlf bs q) (sym dropped) w;
                      clean = o.clean;
                      last = o.last;
                    },
                    shorter d (drop n d.buf) (ground arith),
                  )
            | inr gt ↦
                let m : min n (length d.buf) ≡ length d.buf = ground arith in
                let (a, b) = split_buf d.buf ys part rest e (ground arith) in
                let size : ℕ = length d.buf in
                let differ : (size == n) ≡ false = ground arith in
                let l = length-drop size part in
                let none_left : drop size d.buf ≡ [] = drop_all size d.buf (omega arith) in
                rw (z, m, differ, data_step)
                  (
                    drop size part ++ q,
                    f
                        ∙ ap (λ l. l ++ q) a
                        ∙ append_assoc d.buf (drop size part) q
                        ∙ ap (λ l. l ++ (drop size part ++ q))
                            (sym (take_all size d.buf (omega arith))),
                    record {
                      framing =
                          filled (drop size part) rest q (ap (λ l. l ++ ys) none_left ∙ b) refl
                            (omega (arith, l, len)) (ground arith) w;
                      clean = o.clean;
                      last = o.last;
                    },
                    shorter d (drop size d.buf) (ground (arith, length-drop size d.buf)),
                  )
          ]
        ]
      ]

  not_crlf : leb 2 (length d.buf) ≡ false → Remains data_crlf d.buf p → ⊥
  not_crlf l (ended rest e w) =
      let n : length d.buf ≡ suc (suc (length rest)) = ap length e in ground (arith, n, l)

  crlf_step-Progress : Owes d p → d.phase ≡ data_crlf → Progress (measure d) p (crlf_step d)
  unfolding crlf_step
  crlf_step-Progress o ph =
      let ys = stream d.input in
      elim (subst (λ ph. Remains ph (d.buf ++ ys) p) ph o.framing) [
        | ended rest e w ↦ elim (Bool-cases (leb 2 (length d.buf))) [
          | inr l ↦
              rw (l, crlf_step)
                (more-Progress d p (measure d) o
                  (λ w. not_crlf l (subst (λ ph. Remains ph d.buf p) ph w)))
          | inl l ↦
              let (taken, dropped) =
                split_part d.buf ys (13 ∷ 10 ∷ []) rest 2 e refl (leb→le 2 _ l) in
              let s = (same_iff (take 2 d.buf) (13 ∷ 10 ∷ [])).1 taken in
              rw (l, s, crlf_step)
                (record {
                  framing = subst (λ bs. Remains header bs p) (sym dropped) w;
                  clean = o.clean;
                  last = o.last;
                })
        ]
      ]

  trailers_step-Progress : Owes d p → d.phase ≡ trailers → Progress (measure d) p (trailers_step d)
  unfolding trailers_step more
  trailers_step-Progress o ph =
      let ys = stream d.input in
      elim (subst (λ ph. Remains ph (d.buf ++ ys) p) ph o.framing) [
        | trailing e ↦
            let cleared = record d { buf = [] } in
            elim d.eof
                as (λ b.
                  d.eof ≡ b
                  → Progress (measure d) p (
                      if b
                      then (record cleared { phase = done }, some none)
                      else if b
                      then (cleared, some (some (err ended_early)))
                      else pull cleared d.input)) [
                        | true ↦ λ t. e
                        | false ↦ λ t.
                            pull-Progress cleared p d.input (measure d) o.clean t
                              (subst (λ ph. Remains ph (stream d.input) p) (sym ph) (trailing e))
                      ]
              refl
      ]

  pub phase_step-Progress :
      (phase : Phase) → Owes d p → d.phase ≡ phase → Progress (measure d) p (phase_step phase d)
  unfolding phase_step
  phase_step-Progress done o ph =
      elim (subst (λ ph. Remains ph (d.buf ++ stream d.input) p) ph o.framing) [ over e ↦ e ]
  phase_step-Progress header o ph = header_step-Progress o ph
  phase_step-Progress (content n) o ph = data_step-Progress n o ph
  phase_step-Progress data_crlf o ph = crlf_step-Progress o ph
  phase_step-Progress trailers o ph = trailers_step-Progress o ph

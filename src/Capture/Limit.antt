-- ===== src/Capture/Limit.antt =====
-- nestor-s3/src/body.rs, `Capture`: a whole body or nothing.
use nestor.Common.{
  ℕ, ◌+◌, ◌≤◌, ◌<◌, ◌≡◌, ◌∙◌, refl, ap, sym, inl, inr, List, [], ◌∷◌, ◌++◌, append-nil,
  append_assoc, none, some, true, false, length, length-append, ltb, leb, if◌then◌else◌, Bool-cases,
  arith,
}
use mathlib.Core.List.{foldl}
use nestor.Capture.{Captured, new_capture, push, joined, assembled, take_captured}

joined-append : (xs ys : List (List ℕ)) → joined (xs ++ ys) ≡ joined xs ++ joined ys
unfolding joined
joined-append [] ys = refl
joined-append (x ∷ xs) ys =
    ap (λ l. x ++ l) (joined-append xs ys) ∙ sym (append_assoc x (joined xs) (joined ys))

assembled-eq : (xs : List (List ℕ)) → assembled xs ≡ joined xs
unfolding assembled joined
assembled-eq [] = refl
assembled-eq (x ∷ []) = sym (append-nil x)
assembled-eq (x ∷ y ∷ xs) = refl

-- The state after the bytes: all of them are kept, or they are too many.
pub data Keeps (limit : ℕ) (c : Captured) (bytes : List ℕ) : Type 0 where
  whole :
      c.overflow ≡ false
      → joined c.chunks ≡ bytes
      → c.len ≡ length bytes
      → length bytes ≤ limit
      → Keeps limit c bytes
  over : c.overflow ≡ true → limit < length bytes → Keeps limit c bytes

push-Keeps :
    (limit : ℕ) (c : Captured) (bytes chunk : List ℕ)
    → Keeps limit c bytes
    → Keeps limit (push c limit chunk) (bytes ++ chunk)
unfolding push
push-Keeps limit c bytes chunk (over t more) =
    rw (t, push) (over refl (omega (arith, length-append bytes chunk)))
push-Keeps limit c bytes chunk (whole f e n le) =
    elim (Bool-cases (ltb limit (c.len + length chunk))) [
      | inl t ↦ rw (f, t, push) (over refl (ground (arith, length-append bytes chunk)))
      | inr t ↦
          rw (f, t, push)
            (whole refl
              (joined-append c.chunks (chunk ∷ [])
                ∙ unfold joined in
                  ap (λ l. joined c.chunks ++ l) (append-nil chunk) ∙ ap (λ l. l ++ chunk) e)
              (omega (arith, n, length-append bytes chunk))
              (ground (arith, length-append bytes chunk)))
    ]

pushes-Keeps :
    (limit : ℕ) (c : Captured) (bytes : List ℕ) (chunks : List (List ℕ))
    → Keeps limit c bytes
    → Keeps limit (foldl (λ c. push c limit) c chunks) (bytes ++ joined chunks)
unfolding joined
pushes-Keeps limit c bytes [] k = rw (append-nil bytes) k
pushes-Keeps limit c bytes (x ∷ xs) k =
    rw (sym (append_assoc bytes x (joined xs)))
      (pushes-Keeps limit (push c limit x) (bytes ++ x) xs (push-Keeps limit c bytes x k))

-- However a body is cut into chunks, what is taken after all of them were pushed is the whole body,
-- or nothing if it is longer than the limit.
pub take_captured-pushes :
    (limit : ℕ) (chunks : List (List ℕ))
    → take_captured (foldl (λ c. push c limit) (new_capture limit).captured chunks)
      ≡ (if leb (length (joined chunks)) limit then some (joined chunks) else none)
unfolding take_captured new_capture
take_captured-pushes limit chunks =
    result _ (pushes-Keeps limit (new_capture limit).captured [] chunks start)
  where
    start : Keeps limit (new_capture limit).captured []
    start = unfold joined in whole refl refl refl (omega arith)

    result :
        (c : Captured)
        → Keeps limit c (joined chunks)
        → take_captured c
          ≡ (if leb (length (joined chunks)) limit then some (joined chunks) else none)
    result c (over t more) = rw (t, take_captured) (ground arith)
    result c (whole f e n le) =
        rw (f, take_captured) (ap some (assembled-eq c.chunks ∙ e) ∙ ground arith)

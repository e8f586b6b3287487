-- ===== src/Cluster/Pieces.antt =====
-- nestor-client/src/read.rs: the chained bodies are the bytes of the range.
use nestor.Block.{BlockSize, bytes, index, offset}
use nestor.Block.Cover.{block_range-eq, suc_mul, mul_split, first_small, below_lem}
use nestor.Block.Size.{IsValid, bytes_bounds, offset-eq, index-eq, div_bounds}
use nestor.Cluster.Read.{
  Answers, piece_options, piece, pieces, or_tag, chained, first_options, cluster_get,
}
use nestor.Common.{
  ℕ, zero, suc, ◌+◌, ◌-◌, ◌*◌, ◌/◌, ◌%◌, ◌≤◌, ◌<◌, ◌≡◌, refl, sym, ap, ◌∙◌, min, max, List, [], ◌∷◌,
  ◌++◌, append_assoc, Option, none, some, map_or, leb, leb_of_lt, false, Option-cases, inl, inr,
  length, slice, slice-append, slice_empty, range_from, Range, Result, ok, err, OriginError,
  u32_max, u32_mod, u64_max, arith,
}
use native.Mathlib.Nat.{mod-eq_of_lt}
use nestor.Fetch.{GetResponse}
use nestor.Origin.{ObjectMeta, GetOptions}

-- What a body carries, unless it has an error.
unfoldable pub carried : List (Result OriginError (List ℕ)) → Option (List ℕ)
carried [] = some []
carried (err x ∷ body) = none
carried (ok chunk ∷ body) = elim (carried body) [ none ↦ none | some rest ↦ some (chunk ++ rest) ]

-- The nodes answer every request for a nonempty range that starts inside the object with the
-- object's metadata and with the bytes of the range, up to the object's end.
abbrev pub Answering : Answers → ObjectMeta → List ℕ → Type 0
Answering ask m xs =
    (i : ℕ) (options : GetOptions) (r : Range)
    → options.range ≡ some r
    → r.start < r.end
    → r.start < length xs
    → (response : GetResponse) × (ask i options ≡ ok response)
      × (response.meta ≡ m)
      × (carried response.body ≡ some (slice r.start (min r.end (length xs)) xs))

carried-nil : carried [] ≡ some []
unfolding carried
carried-nil = refl

carried-append :
    (a b : List (Result OriginError (List ℕ))) (xs ys : List ℕ)
    → carried a ≡ some xs
    → carried b ≡ some ys
    → carried (a ++ b) ≡ some (xs ++ ys)
unfolding carried
carried-append [] b xs ys e f = let z : [] ≡ xs = cc in f ∙ ap (λ zs. some (zs ++ ys)) z
carried-append (err x ∷ a) b xs ys e f = absurd cc
carried-append (ok chunk ∷ a) b xs ys e f = elim (Option-cases (carried a)) [
  | inl n ↦ absurd (missing (rw (n, carried) at e))
  | inr (rest, n) ↦
      let h = carried-append a b rest ys n f in
      let own = same (rw (n, carried) at e) in
      rw (h, carried)
        (ap (λ zs. some zs) (sym (append_assoc chunk rest ys)) ∙ ap (λ zs. some (zs ++ ys)) own)
]
  where
    missing : ◌≡◌ {A = Option (List ℕ)} none (some xs) → ⊥
    missing h = cc

    same : {zs : List ℕ} → ◌≡◌ {A = Option (List ℕ)} (some zs) (some xs) → zs ≡ xs
    same h = cc

module _ (b : BlockSize) (v : IsValid b) (ask : Answers) (m : ObjectMeta) (xs : List ℕ)
    (nodes : Answering ask m xs) where
  pieces-carried :
      (n i end : ℕ) (if_match : Option (List ℕ))
      → end ≤ length xs
      → i + n ≤ u32_max
      → (i + n) * bytes b < end + bytes b
      → carried (pieces b ask if_match end (range_from i n))
        ≡ some (slice (min end (i * bytes b)) (min end ((i + n) * bytes b)) xs)
  unfolding pieces range_from piece_options
  pieces-carried zero i end if_match h small most =
      let e : (i + 0) * bytes b ≡ i * bytes b = ap (λ j. j * bytes b) {x = i + 0} (omega arith) in
      carried-nil
      ∙ ap (λ ys. some ys)
          (sym (slice_empty (min end (i * bytes b)) (min end ((i + 0) * bytes b)) xs (omega arith)))
  pieces-carried (suc n) i end if_match h small most =
      let s = bytes b in
      let pos = bytes_bounds b v in
      let e : (i + suc n) * s ≡ i * s + s + n * s = mul_split i n s in
      let f = suc_mul i s in
      let r = block_range-eq b v i end (omega arith) in
      let mid : ℕ = min end (i * s + s) in
      let q : Range = record { start = i * s; end = min (i * s + s) end } in
      let options = piece_options b if_match end i in
      let (response, there, meta, body) =
        nodes i options q (ap (λ r. some r) r) (omega arith) (omega arith) in
      let first : carried (piece (ask i options)) ≡ some (slice (i * s) mid xs) =
        ap (λ a. carried (piece a)) there
        ∙ body
        ∙ ap (λ j. some (slice (i * s) j xs)) {x = min (min (i * s + s) end) (length xs)} {y = mid}
            (omega arith) in
      let g : (i + 1 + n) * s ≡ (i + suc n) * s =
        ap (λ j. j * s) {x = i + 1 + n} {y = i + suc n} (omega arith) in
      let rest = pieces-carried n (i + 1) end if_match h (omega arith) (omega arith) in
      let b1 : min end ((i + 1) * s) ≡ mid = omega arith in
      let b2 : min end ((i + 1 + n) * s) ≡ min end ((i + suc n) * s) = omega arith in
      let b3 : min end (i * s) ≡ i * s = omega arith in
      carried-append _ _ _ _ first rest
      ∙ rw (b1, b2, b3)
          (ap (λ ys. some ys)
            (slice-append (i * s) mid (min end ((i + suc n) * s)) xs (omega arith) (omega arith)))

  -- The first block's bytes, and those of the blocks up to the end of the range.
  tail-carried :
      (start end f l : ℕ) (tag : Option (List ℕ)) (body : List (Result OriginError (List ℕ)))
      → start < end
      → end ≤ length xs
      → length xs < u32_max * bytes b
      → start / bytes b ≡ f
      → (end - 1) / bytes b ≡ l
      → carried body ≡ some (slice start (min end (f * bytes b + bytes b)) xs)
      → carried (body ++ pieces b ask tag end (range_from (f + 1) (max l f - f)))
        ≡ some (slice start end xs)
  tail-carried start end f l tag body nonempty inside few qf ql first =
      let s = bytes b in
      let pos : 0 < s = omega (arith, bytes_bounds b v) in
      let (flo, fhi) = div_bounds start s f pos qf in
      let (llo, lhi) = div_bounds (end - 1) s l pos ql in
      let g = suc_mul l s in
      let g' = suc_mul f s in
      let order : f < l + 1 = below_lem f (l + 1) s (omega arith) in
      let top : l < u32_max = below_lem l u32_max s (omega arith) in
      let n : ℕ = max l f - f in
      let total : (f + 1 + n) * s ≡ (l + 1) * s =
        ap (λ j. j * s) {x = f + 1 + n} {y = l + 1} (omega arith) in
      let rest = pieces-carried n (f + 1) end tag inside (omega arith) (omega arith) in
      let b1 : min end ((f + 1) * s) ≡ min end (f * s + s) = omega arith in
      let b2 : min end ((f + 1 + n) * s) ≡ end = omega arith in
      carried-append _ _ _ _ first rest
      ∙ rw (b1, b2)
          (ap (λ ys. some ys)
            (slice-append start (min end (f * s + s)) end xs (omega arith) (omega arith)))

  -- Where the first request ends.
  first_end :
      (start : ℕ)
      → start < u32_max * bytes b
      → (index b start ≡ start / bytes b)
        × (offset b ((index b start + 1) % u32_mod) ≡ start / bytes b * bytes b + bytes b)
  first_end start few =
      let s = bytes b in
      let pos : 0 < s = omega (arith, bytes_bounds b v) in
      let f : ℕ = start / s in
      let fi : index b start ≡ f = index-eq b start (first_small start s few pos) in
      let (lo, hi) = div_bounds start s f pos refl in
      let small : f < u32_max = below_lem f u32_max s (omega arith) in
      let w : (f + 1) % u32_mod ≡ f + 1 = mod-eq_of_lt {n = f + 1} (omega arith) in
      (
        fi,
        ap (λ j. offset b ((j + 1) % u32_mod)) fi
            ∙ ap (offset b) w
            ∙ offset-eq b (f + 1) v (omega arith)
            ∙ suc_mul f s,
      )

  chained-carried :
      (options : GetOptions) (start limit end : ℕ) (first : GetResponse)
      → min limit first.meta.size ≡ end
      → start < end
      → end ≤ length xs
      → length xs < u32_max * bytes b
      → carried first.body ≡ some (slice start (min end (start / bytes b * bytes b + bytes b)) xs)
      → carried (chained b ask options start limit (index b start) first).body
        ≡ some (slice start end xs)
  unfolding chained
  chained-carried options start limit end first cut nonempty inside few body =
      let s = bytes b in
      let tag = or_tag options.if_match first.meta.etag in
      let (fi, fe) = first_end start (omega arith) in
      let (li, le) = first_end (end - 1) (omega arith) in
      let whole : ℕ → ℕ → ℕ → List (Result OriginError (List ℕ)) =
        λ z i l. first.body ++ pieces b ask tag z (range_from (i + 1) (max l i - i)) in
      ap (λ z. carried (whole z (index b start) (index b (z - 1)))) cut
      ∙ ap (λ i. carried (whole end i (index b (end - 1)))) fi
      ∙ ap (λ l. carried (whole end (start / s) l)) li
      ∙ tail-carried start end (start / s) ((end - 1) / s) tag first.body nonempty inside few refl
          refl body

  -- Of a valid block size, and an object of fewer than 2^32 - 1 blocks, whose nodes answer every
  -- request for a nonempty range that starts inside the object with its metadata and the bytes of the
  -- range: a request for such a range returns the object's metadata and a body that carries the bytes
  -- of the range, up to the object's end, in order.
  pub cluster_get-carried :
      (options : GetOptions)
      → m.size ≡ length xs
      → length xs < u32_max * bytes b
      → let start = map_or options.range 0 (λ r. r.start) in
        let limit = map_or options.range u64_max (λ r. r.end) in
        start < limit
        → start < length xs
        → (response : GetResponse) × (cluster_get b ask options ≡ ok response)
          × (response.meta ≡ m)
          × (carried response.body ≡ some (slice start (min limit (length xs)) xs))
  unfolding cluster_get chained first_options
  cluster_get-carried options size few nonempty inside =
      let s = bytes b in
      let start : ℕ = map_or options.range 0 (λ r. r.start) in
      let limit : ℕ = map_or options.range u64_max (λ r. r.end) in
      let (fi, fe) = first_end start (omega arith) in
      let (lo, hi) = div_bounds start s (start / s) (omega (arith, bytes_bounds b v)) refl in
      let r : Range = record { start = start; end = min limit (start / s * s + s) } in
      let (first, there, meta, body) =
        nodes (index b start) (first_options b options start limit) r
          (ap (λ j. some (record { start = start; end = min limit j })) fe) (omega arith) inside in
      let cut : min limit first.meta.size ≡ min limit (length xs) =
        ap (λ (x : ObjectMeta). min limit x.size) meta ∙ ap (λ z. min limit z) size in
      let held : carried first.body
          ≡ some (slice start (min (min limit (length xs)) (start / s * s + s)) xs) =
        body
        ∙ ap (λ j. some (slice start j xs)) {x = min (min limit (start / s * s + s)) (length xs)}
            (omega arith) in
      let go : leb limit start ≡ false = leb_of_lt limit start nonempty in
      rw (go, there, cluster_get)
        (
          chained b ask options start limit (index b start) first,
          refl,
          meta,
          chained-carried options start limit (min limit (length xs)) first cut (omega arith)
              (omega arith) few held,
        )

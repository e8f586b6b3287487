-- ===== src/Tests/Bodies.antt =====
-- nestor/src/body.rs: a response in two chunks, read in blocks of two bytes after one to skip.
use nestor.Common.{◌≡◌, refl, [], ◌∷◌, ok, err, short_read}
use nestor.Body.{BlockStream, next_loop, next_block}
use nestor.Body.Reassembly.{Delivers, owed, broken, next_block-Delivers}

abbrev stream : BlockStream
stream = record { body = ok (1 ∷ 2 ∷ []) ∷ ok (3 ∷ 4 ∷ 5 ∷ []) ∷ []; buf = []; skip = 1 }

two_blocks :
    let (s, first) = next_block stream 2 in
    let (t, second) = next_block s 2 in
    (first ≡ ok (2 ∷ 3 ∷ []))
    × (second ≡ ok (4 ∷ 5 ∷ []))
    × ((next_block t 1).1 ≡ err (short_read 1 0))
unfolding next_block next_loop
two_blocks = (refl, refl, refl)

next_block-Delivers_example : Delivers (next_block stream 2) 2 (owed stream) (broken stream.body)
next_block-Delivers_example = next_block-Delivers stream 2

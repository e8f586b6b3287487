-- ===== src/Tests/Captures.antt =====
-- nestor-s3/src/body.rs: bodies of three bytes in two chunks.
use nestor.Common.{ℕ, ◌≡◌, refl, List, [], ◌∷◌, some, none, length, leb, if◌then◌else◌}
use mathlib.Core.List.{foldl}
use nestor.Capture.{new_capture, push, joined, assembled, take_captured}
use nestor.Capture.Limit.{take_captured-pushes}

abbrev chunks : List (List ℕ)
chunks = (1 ∷ 2 ∷ []) ∷ (3 ∷ []) ∷ []

captures :
    (take_captured (foldl (λ c. push c 3) (new_capture 3).captured chunks) ≡ some (1 ∷ 2 ∷ 3 ∷ []))
    × (take_captured (foldl (λ c. push c 2) (new_capture 2).captured chunks) ≡ none)
unfolding new_capture push joined assembled take_captured
captures = (refl, refl)

take_captured-pushes_example :
    take_captured (foldl (λ c. push c 3) (new_capture 3).captured chunks)
    ≡ (if leb (length (joined chunks)) 3 then some (joined chunks) else none)
take_captured-pushes_example = take_captured-pushes 3 chunks

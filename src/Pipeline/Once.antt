-- ===== src/Pipeline/Once.antt =====
-- Frames that are forwarded once each: the map seenIDs of pkg/pipeline, as the list of its keys.
use voxray.Base.{ℕ, Bool, false, ◌||◌, ◌==◌, List, [], ◌∷◌, ◌++◌, ◌≡◌, refl, arith, if◌then◌else◌}
use voxray.Frames.{Frame}

unfoldable pub seen : ℕ → List ℕ → Bool
seen id [] = false
seen id (x ∷ xs) = (x == id) || seen id xs

-- The frames whose id has not been seen, each id once, and the ids seen afterwards.
unfoldable pub dedupe : List ℕ → List Frame → List Frame × List ℕ
dedupe ids [] = ([], ids)
dedupe ids (f ∷ fs) =
    let (rest, after) = dedupe ids fs in
    let (kept, marked) = dedupe (f.id ∷ ids) fs in
    if seen f.id ids then (rest, after) else (f ∷ kept, marked)

-- No frame has an id of the list, and no two frames have the same.
unfoldable pub AreFresh : List ℕ → List Frame → Type 0
AreFresh ids [] = Unit {0}
AreFresh ids (f ∷ fs) = (seen f.id ids ≡ false) × AreFresh (f.id ∷ ids) fs

pub dedupe-AreFresh : (ids : List ℕ) (fs : List Frame) → AreFresh ids (dedupe ids fs).0
unfolding dedupe AreFresh
dedupe-AreFresh ids [] = tt
dedupe-AreFresh ids (f ∷ fs) =
    ground (arith, dedupe-AreFresh ids fs, dedupe-AreFresh (f.id ∷ ids) fs)

pub dedupe-append :
    (ids : List ℕ) (fs gs : List Frame)
    → (dedupe ids (fs ++ gs)).0 ≡ (dedupe ids fs).0 ++ (dedupe (dedupe ids fs).1 gs).0
unfolding dedupe
dedupe-append ids [] gs = refl
dedupe-append ids (f ∷ fs) gs =
    ground (arith, dedupe-append ids fs gs, dedupe-append (f.id ∷ ids) fs gs)

-- ===== src/Processors/Filters/Laws.antt =====
-- What the filters let through: a lifecycle frame always passes, and a chain of filters is a filter.
use voxray.Base.{String, ◌&&◌, List, [], ◌∷◌, ◌++◌, ◌≡◌, refl, arith, if◌then◌else◌}
use text.Mathlib.TextEquality.{eq_iff}
use voxray.Frames.{Frame, Direction, frame_type}
use voxray.Processors.Filters.{contains, frame_filter, null_filter}

-- A filter after another: each frame that the first forwards goes to the second.
pub after : (Frame → List Frame) → List Frame → List Frame
after g [] = []
after g (f ∷ fs) = g f ++ after g fs

-- The names in both lists.
pub common : List String → List String → List String
common [] ys = []
common (x ∷ xs) ys = let rest = common xs ys in if contains x ys then x ∷ rest else rest

contains-common :
    (t : String) (xs ys : List String)
    → contains t (common xs ys) ≡ (contains t xs && contains t ys)
unfolding contains common
contains-common t [] ys = refl
contains-common t (x ∷ xs) ys = ground (arith, eq_iff x t, contains-common t xs ys)

-- Two frame filters in a row pass what the frame filter of the names that both allow passes.
pub frame_filter-common :
    (xs ys : List String) (dir : Direction) (f : Frame)
    → after (frame_filter ys dir) (frame_filter xs dir f) ≡ frame_filter (common xs ys) dir f
unfolding frame_filter after
frame_filter-common xs ys dir f = ground (arith, contains-common (frame_type f.content) xs ys)

-- A null filter is the frame filter that allows no name, and it stays one after or before any frame
-- filter.
pub null_filter-frame_filter :
    (xs : List String) (dir : Direction) (f : Frame)
    → (frame_filter [] dir f ≡ null_filter dir f)
      × (after (null_filter dir) (frame_filter xs dir f) ≡ null_filter dir f)
      × (after (frame_filter xs dir) (null_filter dir f) ≡ null_filter dir f)
unfolding frame_filter null_filter after contains
null_filter-frame_filter xs dir f = (ground arith, ground arith, ground arith)

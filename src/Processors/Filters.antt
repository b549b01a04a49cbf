-- ===== src/Processors/Filters.antt =====
-- pkg/processors/filters: the filters. A filter has a neighbour on each side, and the frames that it
-- forwards are its output: a forwarded frame keeps its direction. An error that a neighbour returns is
-- the filter's own and changes no state, so it is left out.
pub mod Laws
pub mod Mute
pub mod WakeCheck
use text.Mathlib.Text.{◌==◌ as str_eq}
use voxray.Base.{
  ℕ, String, Bool, true, false, not, ◌&&◌, ◌||◌, Option, none, some, List, [], ◌∷◌, if◌then◌else◌,
}
use voxray.Frames.{
  Content, Frame, Direction, downstream, upstream, frame_type, start, end_frame, cancel, stop_frame,
  error,
}

-- isLifecycleFrame
unfoldable pub is_lifecycle_frame : Content → Bool
is_lifecycle_frame (start _) = true
is_lifecycle_frame end_frame = true
is_lifecycle_frame cancel = true
is_lifecycle_frame stop_frame = true
is_lifecycle_frame (error _) = true
is_lifecycle_frame _ = false

-- The set of type names that a filter is made with.
unfoldable pub contains : String → List String → Bool
contains t [] = false
contains t (x ∷ xs) = str_eq x t || contains t xs

-- Each ProcessFrame as the frames that it forwards, in the direction `dir` of the frame.
unfoldable pub frame_filter : List String → Direction → Frame → List Frame
frame_filter allowed dir f =
    if is_lifecycle_frame f.content
    then f ∷ []
    else if contains (frame_type f.content) allowed
    then f ∷ []
    else []

unfoldable pub same_direction : Direction → Direction → Bool
same_direction downstream downstream = true
same_direction upstream upstream = true
same_direction downstream upstream = false
same_direction upstream downstream = false

-- `none` is the direction 0, which stands for both.
unfoldable pub other_way : Option Direction → Direction → Bool
other_way none dir = false
other_way (some d) dir = not (same_direction d dir)

unfoldable pub function_filter : (Frame → Bool) → Option Direction → Direction → Frame → List Frame
function_filter filter direction dir f =
    if is_lifecycle_frame f.content
    then f ∷ []
    else if other_way direction dir
    then f ∷ []
    else if not (filter f)
    then []
    else f ∷ []

unfoldable pub identity_filter : Direction → Frame → List Frame
identity_filter dir f = f ∷ []

unfoldable pub null_filter : Direction → Frame → List Frame
null_filter dir f = if not (is_lifecycle_frame f.content) then [] else f ∷ []

-- WakeNotifierFilter with a notifier: the frames forwarded, and whether Notify is called. The
-- predicate `none` is nil.
holds : Option (Frame → Bool) → Frame → Bool
holds none f = true
holds (some p) f = p f

unfoldable pub wake_notifier_filter :
    Bool → List String → Option (Frame → Bool) → Direction → Frame → List Frame × Bool
unfolding holds
wake_notifier_filter has_notifier types predicate dir f =
    (f ∷ [], has_notifier && (contains (frame_type f.content) types && holds predicate f))

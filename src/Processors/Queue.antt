-- ===== src/Processors/Queue.antt =====
-- pkg/processors/queue.go: the queue that hands out system frames before data frames.
-- A Put or a Get that holds the mutex is one step. The `wait` channel only wakes a blocked Get, so
-- it is left out; a Get that would block on an open empty queue is the result `blocked`.
pub mod Order
use text.Mathlib.Text.{◌==◌ as str_eq}
use voxray.Base.{Bool, true, false, ◌||◌, List, [], ◌∷◌, ◌++◌, if◌then◌else◌}
use voxray.Frames.{Content, Frame, Direction, frame_type}

pub record QueuedItem : Type 0 where
  pub frame : Frame
  pub dir : Direction

pub record FrameQueue : Type 0 where
  pub system : List QueuedItem
  pub rest : List QueuedItem  -- the field `data`
  pub closed : Bool

abbrev pub new_frame_queue : FrameQueue
new_frame_queue = record { system = []; rest = []; closed = false }

-- isSystemFrame, for a frame that is not nil
unfoldable pub is_system_frame : Content → Bool
is_system_frame c =
    str_eq (frame_type c) "StartFrame"
    || str_eq (frame_type c) "CancelFrame"
    || str_eq (frame_type c) "ErrorFrame"

unfoldable pub put : FrameQueue → QueuedItem → FrameQueue
put q item =
    if q.closed
    then q
    else if is_system_frame item.frame.content
    then record q { system = q.system ++ item ∷ [] }
    else record q { rest = q.rest ++ item ∷ [] }

pub data GetResult : Type 0 where
  item : QueuedItem → GetResult
  finished : GetResult  -- QueuedItem{}, false: closed and empty
  blocked : GetResult  -- waits for a Put, a Close or the context

get_from : List QueuedItem → List QueuedItem → FrameQueue → FrameQueue × GetResult
get_from (x ∷ xs) _ q = (record q { system = xs }, item x)
get_from [] (x ∷ xs) q = (record q { rest = xs }, item x)
get_from [] [] q = (q, if q.closed then finished else blocked)

unfoldable pub get : FrameQueue → FrameQueue × GetResult
unfolding get_from
get q = get_from q.system q.rest q

unfoldable pub close : FrameQueue → FrameQueue
close q = record q { closed = true }

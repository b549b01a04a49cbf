-- ===== src/Processors/Gated.antt =====
-- pkg/processors/aggregators/gated/gated.go: frames are held back while a gate is closed. `fails` says
-- on which frames the next processor returns an error.
pub mod Kept
use voxray.Base.{Bool, true, false, not, ◌&&◌, List, [], ◌∷◌, ◌++◌, if◌then◌else◌}
use voxray.Frames.{Content, Frame, Direction, start, end_frame, cancel, stop_frame, error}
use voxray.Processors.Filters.{same_direction}

pub record Gated : Type 0 where
  pub direction : Direction
  pub gate_open : Bool
  pub accumulator : List Frame

-- The processor after a call, the frames pushed downstream, and whether it returned an error.
pub record Result : Type 0 where
  pub gated : Gated
  pub pushed : List Frame
  pub failed : Bool

-- New, with StartOpen and a direction
abbrev pub new_gated : Bool → Direction → Gated
new_gated start_open dir = record { direction = dir; gate_open = start_open; accumulator = [] }

unfoldable pub is_system_frame : Content → Bool
is_system_frame (start _) = true
is_system_frame end_frame = true
is_system_frame cancel = true
is_system_frame (error _) = true
is_system_frame stop_frame = true
is_system_frame _ = false

module _ (opens closes : Frame → Bool) (fails : Frame → Bool) where
  -- The pushes of a list of frames, up to the first that fails.
  push_all : List Frame → List Frame × Bool
  push_all [] = ([], false)
  push_all (f ∷ fs) =
      let (more, failed) = push_all fs in if fails f then (f ∷ [], true) else (f ∷ more, failed)

  push : Frame → Gated → Result
  push f p = record { gated = p; pushed = f ∷ []; failed = fails f }

  -- The gate just opened: the frame, then those that were held back.
  release : Frame → Gated → Result
  unfolding push_all
  release f p =
      let (sent, failed) = push_all (f ∷ p.accumulator) in
      record {
        gated = record p { gate_open = true; accumulator = [] };
        pushed = sent;
        failed = failed;
      }

  hold : Frame → Gated → Result
  hold f p = record {
    gated = record p { gate_open = false; accumulator = p.accumulator ++ f ∷ [] };
    pushed = [];
    failed = false;
  }

  -- The gate as it was, and as the frame leaves it.
  pass_gate : Bool → Bool → Frame → Gated → Result
  unfolding push release hold
  pass_gate false true f p = release f p
  pass_gate true true f p = push f p
  pass_gate was false f p = hold f p

  unfoldable pub process_frame : Direction → Frame → Gated → Result
  unfolding push pass_gate
  process_frame dir f p =
      if is_system_frame f.content
      then push f p
      else if not (same_direction dir p.direction)
      then push f p
      else pass_gate p.gate_open (if p.gate_open then not (closes f) else opens f) f p

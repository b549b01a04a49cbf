-- ===== src/Pipeline/Parallel.antt =====
-- pkg/pipeline/parallel.go: ParallelPipeline. A call of ProcessFrame has two parts, what it does under
-- the lock and the pushes into the branches, and a branch may emit at any time: `begin` and
-- `on_downstream_from_branch` are the steps that the lock makes atomic. The next processor's error is
-- not modelled: it changes no state.
pub mod Barrier
use voxray.Base.{
  ℕ, ◌-◌, Bool, true, false, not, ◌&&◌, ◌==◌, Option, none, some, List, [], ◌∷◌, ◌++◌,
  if◌then◌else◌,
}
use voxray.Frames.{Content, Frame, Direction, downstream, upstream, start, end_frame, cancel}
use voxray.Pipeline.{Branch}
use voxray.Pipeline.Once.{seen}

unfoldable pub parallel_is_lifecycle_frame : Content → Bool
parallel_is_lifecycle_frame (start _) = true
parallel_is_lifecycle_frame end_frame = true
parallel_is_lifecycle_frame cancel = true
parallel_is_lifecycle_frame _ = false

pub record Parallel : Type 0 where
  pub branch_count : ℕ  -- len(branches)
  pub sync_frame_id : ℕ
  pub counter : ℕ
  pub synchronizing : Bool
  pub buffered : List Frame
  pub seen_ids : List ℕ

-- NewParallelPipeline with a number of branches: `none` is its error.
unfoldable pub new_parallel : ℕ → Option Parallel
new_parallel count =
    if count == 0
    then none
    else some (record {
      branch_count = count;
      sync_frame_id = 0;
      counter = 0;
      synchronizing = false;
      buffered = [];
      seen_ids = [];
    })

-- A branch has processed the awaited frame. A counter of 0 never comes to 0 again: the source goes on
-- below 0 there.
unfoldable pub count_down : Frame → Parallel → Parallel × List Frame
count_down f p =
    if p.counter == 1
    then (record p { counter = 0; synchronizing = false; buffered = [] }, f ∷ p.buffered)
    else (record p { counter = p.counter - 1 }, [])

-- The part of ProcessFrame under the lock.
unfoldable pub begin : Frame → Parallel → Parallel
begin f p =
    if parallel_is_lifecycle_frame f.content
    then record p { sync_frame_id = f.id; counter = p.branch_count; synchronizing = true }
    else p

-- `none` is an output filter that is nil.
unfoldable pub permits : Option (Frame → Bool) → Frame → Bool
permits none f = true
permits (some filter) f = filter f

pub record Result : Type 0 where
  pub pipeline : Parallel
  pub down : List Frame  -- what the next processor receives
  pub up : List Frame  -- what the previous processor receives
  pub failed : Bool

module _ (output_filter : Option (Frame → Bool)) where
  unfoldable pub on_downstream_from_branch : Frame → Parallel → Parallel × List Frame
  on_downstream_from_branch f p =
      if parallel_is_lifecycle_frame f.content
      then (if (f.id == p.sync_frame_id) && p.synchronizing then count_down f p else (p, []))
      else if p.synchronizing
      then (record p { buffered = p.buffered ++ f ∷ [] }, [])
      else if seen f.id p.seen_ids
      then (p, [])
      else if not (permits output_filter f)
      then (p, [])
      else (record p { seen_ids = f.id ∷ p.seen_ids }, f ∷ [])

  -- What comes of the frames that the branches emit, in the order in which they emit them.
  unfoldable pub collect : List Frame → Parallel → Parallel × List Frame
  collect [] p = (p, [])
  collect (f ∷ fs) p =
      let (q, sent) = on_downstream_from_branch f p in
      let (r, more) = collect fs q in (r, sent ++ more)

  -- Push: into one branch after the other, up to the first that returns an error.
  unfoldable pub push : List Branch → Frame → Parallel → Result
  push [] f p = record { pipeline = p; down = []; up = []; failed = false }
  push (b ∷ bs) f p =
      let (q, sent) = collect (b f).downward p in
      let rest = push bs f q in
      if (b f).fails
      then record { pipeline = q; down = sent; up = (b f).upward; failed = true }
      else record {
        pipeline = rest.pipeline;
        down = sent ++ rest.down;
        up = (b f).upward ++ rest.up;
        failed = rest.failed;
      }

  unfoldable pub process_frame : List Branch → Direction → Frame → Parallel → Result
  process_frame bs upstream f p = record { pipeline = p; down = []; up = f ∷ []; failed = false }
  process_frame bs downstream f p = push bs f (begin f p)

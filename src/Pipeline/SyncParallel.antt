-- ===== src/Pipeline/SyncParallel.antt =====
-- pkg/pipeline/sync_parallel.go: SyncParallelPipeline. The sink of a branch sends each frame from a
-- goroutine of its own, so the order in which a channel delivers them is no function of the pushes:
-- what each channel has delivered when ProcessFrame reads it, frames left from earlier calls included,
-- is an argument.
pub mod Sessions
use voxray.Base.{ℕ, Bool, true, false, ◌&&◌, List, [], ◌∷◌, ◌++◌, if◌then◌else◌}
use voxray.Frames.{Content, Frame, Direction, downstream, upstream, sync, start}
use voxray.Pipeline.{Branch}
use voxray.Pipeline.Once.{dedupe}

unfoldable pub sync_parallel_is_sync_frame : Content → Bool
sync_parallel_is_sync_frame sync = true
sync_parallel_is_sync_frame _ = false

unfoldable pub is_start_frame : Content → Bool
is_start_frame (start _) = true
is_start_frame _ = false

-- One channel read up to its SyncFrame: the frames before it, what is left in the channel, and whether
-- there is a SyncFrame. Without one the call takes every frame and waits until its context is done.
unfoldable pub read_channel : List Frame → List Frame × (List Frame × Bool)
read_channel [] = ([], ([], false))
read_channel (f ∷ fs) =
    let (collected, (left, found)) = read_channel fs in
    if sync_parallel_is_sync_frame f.content
    then ([], (fs, true))
    else (f ∷ collected, (left, found))

-- The channels one after the other, up to the first without a SyncFrame.
unfoldable pub read_channels : List (List Frame) → List Frame × (List (List Frame) × Bool)
read_channels [] = ([], ([], true))
read_channels (ch ∷ chs) =
    let (first, (left, found)) = read_channel ch in
    let (rest, (others, all)) = read_channels chs in
    if found then (first ++ rest, (left ∷ others, all)) else (first, (left ∷ chs, false))

-- Whether a frame is pushed into every branch without an error.
unfoldable pub push_branches : List Branch → Frame → Bool
push_branches [] f = true
push_branches (b ∷ bs) f = if (b f).fails then false else push_branches bs f

-- The ids seen, the frames for the next and for the previous processor, whether an error is returned,
-- and what is left in the channels.
pub record Result : Type 0 where
  pub seen_ids : List ℕ
  pub down : List Frame
  pub up : List Frame
  pub failed : Bool
  pub channels : List (List Frame)

unfoldable pub forward : Frame → List ℕ → List Frame → List (List Frame) → Result
forward f ids collected left =
    let (sent, after) = dedupe ids collected in
    record {
      seen_ids = if is_start_frame f.content then [] else after;
      down = sent;
      up = [];
      failed = false;
      channels = left;
    }

-- ProcessFrame with the SyncFrame that it makes.
unfoldable pub process_frame :
    List Branch → Frame → Direction → Frame → List (List Frame) → List ℕ → Result
process_frame bs sync_frame upstream f arrived ids = record {
  seen_ids = ids;
  down = [];
  up = f ∷ [];
  failed = false;
  channels = arrived;
}
process_frame bs sync_frame downstream f arrived ids =
    let (collected, (left, all)) = read_channels arrived in
    let stopped : List (List Frame) → Result =
      λ chs. record { seen_ids = ids; down = []; up = []; failed = true; channels = chs } in
    if push_branches bs f && push_branches bs sync_frame
    then (if all then forward f ids collected left else stopped left)
    else stopped arrived

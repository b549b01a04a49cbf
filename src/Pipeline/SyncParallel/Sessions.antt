-- ===== src/Pipeline/SyncParallel/Sessions.antt =====
-- What a SyncParallelPipeline forwards, and when it cannot.
use voxray.Base.{
  ℕ, Bool, true, false, ◌&&◌, ◌||◌, List, [], ◌∷◌, ◌++◌, ◌≡◌, refl, arith, if◌then◌else◌,
}
use voxray.Frames.{Frame, downstream}
use voxray.Pipeline.{Branch}
use voxray.Pipeline.Once.{dedupe, AreFresh, dedupe-AreFresh}
use voxray.Pipeline.SyncParallel.{
  sync_parallel_is_sync_frame, is_start_frame, read_channel, read_channels, push_branches, forward,
  process_frame, Result,
}

-- The frames of a channel before its SyncFrame, and whether it has one.
unfoldable pub before_sync : List Frame → List Frame
before_sync [] = []
before_sync (f ∷ fs) =
    let rest = before_sync fs in if sync_parallel_is_sync_frame f.content then [] else f ∷ rest

unfoldable pub has_sync : List Frame → Bool
has_sync [] = false
has_sync (f ∷ fs) = sync_parallel_is_sync_frame f.content || has_sync fs

unfoldable pub all_before_sync : List (List Frame) → List Frame
all_before_sync [] = []
all_before_sync (ch ∷ chs) = before_sync ch ++ all_before_sync chs

unfoldable pub all_have_sync : List (List Frame) → Bool
all_have_sync [] = true
all_have_sync (ch ∷ chs) = has_sync ch && all_have_sync chs

read_channel-parts :
    (fs : List Frame)
    → ((read_channel fs).0 ≡ before_sync fs) × ((read_channel fs).1.1 ≡ has_sync fs)
unfolding read_channel before_sync has_sync
read_channel-parts [] = (refl, refl)
read_channel-parts (f ∷ fs) = ground (arith, read_channel-parts fs)

read_channels-found : (chs : List (List Frame)) → (read_channels chs).1.1 ≡ all_have_sync chs
unfolding read_channels all_have_sync
read_channels-found [] = refl
read_channels-found (ch ∷ chs) = ground (arith, read_channel-parts ch, read_channels-found chs)

read_channels-collected :
    (chs : List (List Frame))
    → all_have_sync chs ≡ true
    → (read_channels chs).0 ≡ all_before_sync chs
unfolding read_channels all_have_sync all_before_sync
read_channels-collected [] e = refl
read_channels-collected (ch ∷ chs) e =
    ground (arith, read_channel-parts ch, read_channels-collected chs)

module _ (bs : List Branch) (sync_frame f : Frame) (arrived : List (List Frame))
    (ids : List ℕ) where
  abbrev pub answer : Result
  answer = process_frame bs sync_frame downstream f arrived ids

  -- If some branch refuses the frame or the SyncFrame, or if some channel has delivered no SyncFrame,
  -- the call ends in an error, nothing is forwarded and no id counts as seen.
  no_answer :
      (push_branches bs f && (push_branches bs sync_frame && all_have_sync arrived)) ≡ false
      → (answer.failed ≡ true) × ((answer.down ≡ []) × (answer.seen_ids ≡ ids))
  unfolding process_frame forward
  no_answer e = ground (arith, read_channels-found arrived)

  -- If no branch refuses the frame or the SyncFrame, and every channel has delivered a SyncFrame, the
  -- call succeeds: it forwards what the channels delivered before it, the first frame of each id that
  -- has not been seen, and after a StartFrame every id counts as new.
  pub answered :
      (push_branches bs f && (push_branches bs sync_frame && all_have_sync arrived)) ≡ true
      → (answer.failed ≡ false)
        × ((answer.down ≡ (dedupe ids (all_before_sync arrived)).0)
            × (AreFresh ids answer.down
                × (answer.seen_ids ≡ (
                    if is_start_frame f.content
                    then []
                    else (dedupe ids (all_before_sync arrived)).1))))
  unfolding process_frame forward
  answered e =
      let found : (read_channels arrived).1.1 ≡ all_have_sync arrived =
        read_channels-found arrived in
      let out : answer.down ≡ (dedupe ids (all_before_sync arrived)).0 =
        ground (arith, found, read_channels-collected arrived) in
      (
        ground (arith, found),
        (
          out,
          (
            rw out (dedupe-AreFresh ids (all_before_sync arrived)),
            ground (arith, found, read_channels-collected arrived),
          ),
        ),
      )

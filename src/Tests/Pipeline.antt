-- ===== src/Tests/Pipeline.antt =====
-- pkg/pipeline at concrete branches.
use voxray.Pipeline.Parallel.{permits}
use voxray.Pipeline.Parallel.Barrier.{permitted}
use voxray.Pipeline.Once.{dedupe}
use voxray.Pipeline.Once.{seen}
use voxray.Base.{false, none, List, [], ◌∷◌, ◌≡◌, refl, ap}
use voxray.Frames.{
  Frame, Content, downstream, upstream, end_frame, text, sync, manually_switch_service,
}
use voxray.Pipeline.{Branch}
use voxray.Pipeline.Chain.{new_pipeline, unlinked, link, push_upstream}
use voxray.Pipeline.Chain
use voxray.Pipeline.Chain.Links.{distinct}
use voxray.Pipeline.Chain.Walks.{reversed, link-push}
use voxray.Pipeline.Parallel.{Parallel, process_frame, parallel_is_lifecycle_frame}
use voxray.Pipeline.Parallel.Barrier.{
  others, emissions, process_frame_lifecycle, arrivals, all_succeed,
}
use voxray.Pipeline.Switcher.{Service, Switcher}
use voxray.Pipeline.Switcher.Silence.{run, upstream_frames, switcher_silent}

link-push_example :
    let p = link (3 ∷ 1 ∷ 2 ∷ []) (new_pipeline unlinked) in
    (Chain.push 5 p ≡ 3 ∷ 1 ∷ 2 ∷ []) × (push_upstream 5 p ≡ reversed (3 ∷ 1 ∷ 2 ∷ []))
unfolding distinct seen
link-push_example = link-push (3 ∷ 1 ∷ 2 ∷ []) 2 refl

abbrev frame : Content → Frame
frame f = record { id = 7; content = f }

-- A branch that says hello before it forwards the frame.
abbrev greets : Branch
greets f = record {
  downward = record { id = 9; content = text (104 ∷ []) } ∷ f ∷ [];
  upward = [];
  fails = false;
}

-- A branch that says hello after it has forwarded the frame, twice.
abbrev follows : Branch
follows f = record {
  downward =
      f
      ∷ record { id = 9; content = text (104 ∷ []) }
      ∷ record { id = 9; content = text (104 ∷ []) }
      ∷ [];
  upward = [];
  fails = false;
}

abbrev two_branches : Parallel
two_branches = record {
  branch_count = 2;
  sync_frame_id = 0;
  counter = 0;
  synchronizing = false;
  buffered = [];
  seen_ids = 5 ∷ [];
}

abbrev greeting : Frame
greeting = record { id = 9; content = text (104 ∷ []) }

-- The greeting of the first branch is forwarded behind the lifecycle frame; of those that the second
-- emits when no branch is awaited any more, one is.
process_frame_lifecycle_example :
    (process_frame none (greets ∷ follows ∷ []) downstream (frame end_frame) two_branches).down
    ≡ frame end_frame ∷ greeting ∷ greeting ∷ []
unfolding others parallel_is_lifecycle_frame arrivals all_succeed emissions dedupe permitted permits
    seen
process_frame_lifecycle_example =
    ap (λ r. r.down)
      (process_frame_lifecycle none (greets ∷ follows ∷ []) (frame end_frame)
        (greeting ∷ frame end_frame ∷ []) (greeting ∷ greeting ∷ []) two_branches refl refl refl
        refl)

abbrev sync_frame : Frame
sync_frame = record { id = 8; content = sync }

abbrev services : List Service
services =
    record { name = "a"; processor = greets } ∷ record { name = "b"; processor = greets } ∷ []

abbrev switcher : Switcher
switcher = record {
  parallel = two_branches;
  strategy = record { service_names = "a" ∷ "b" ∷ []; active_index = 0 };
}

switcher_silent_example :
    (run services
      ((1, (downstream, greeting))
        ∷ (2, (downstream, frame (manually_switch_service "b")))
        ∷ (3, (upstream, frame end_frame))
        ∷ [])
      switcher).1
    ≡ ([], frame end_frame ∷ [])
unfolding upstream_frames
switcher_silent_example =
    switcher_silent services
      ((1, (downstream, greeting))
        ∷ (2, (downstream, frame (manually_switch_service "b")))
        ∷ (3, (upstream, frame end_frame))
        ∷ [])
      switcher

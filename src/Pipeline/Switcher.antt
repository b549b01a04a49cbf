-- ===== src/Pipeline/Switcher.antt =====
-- pkg/pipeline/service_switcher.go: ServiceSwitcher with its manual strategy, and the FilterProcessor of
-- pkg/processors/filter.go that it builds its branches with. A service is a parameter like a branch.
pub mod Strategy
pub mod Silence
use text.Mathlib.Text.{◌==◌ as str_eq}
use voxray.Base.{
  ℕ, String, Bool, true, false, not, ◌&&◌, Option, none, some, List, [], ◌∷◌, ◌++◌, ◌>>=◌, suc,
  length, get_or, map, ltb, if◌then◌else◌,
}
use voxray.Frames.{
  Content, Frame, Direction, downstream, upstream, manually_switch_service, service_metadata,
  request_metadata,
}
use voxray.Processors.Filters.{same_direction}
use voxray.Pipeline.{Branch, Emitted}
use voxray.Pipeline.Parallel.{Parallel, new_parallel, push}
use voxray.Pipeline.Parallel

-- ServiceSwitcherStrategyManual
pub record Manual : Type 0 where
  pub service_names : List String
  pub active_index : ℕ

-- NewServiceSwitcherStrategyManual: `none` is its panic.
unfoldable pub new_manual : List String → Option Manual
new_manual [] = none
new_manual (name ∷ names) = some (record { service_names = name ∷ names; active_index = 0 })

unfoldable pub active_service_name : Manual → String
active_service_name s =
    if ltb s.active_index (length s.service_names)
    then get_or s.service_names s.active_index ""
    else ""

-- The first index of a name.
unfoldable pub index_of : String → List String → Option ℕ
index_of name [] = none
index_of name (x ∷ xs) =
    let rest = index_of name xs in
    if str_eq x name then some 0 else elim rest [ none ↦ none | some i ↦ some (suc i) ]

unfoldable pub activate : Option ℕ → Manual → Manual × Bool
activate none s = (s, false)
activate (some i) s = (record s { active_index = i }, true)

-- HandleFrame: the strategy, and whether it has switched.
unfoldable pub handle_frame : Content → Manual → Manual × Bool
handle_frame (manually_switch_service name) s = activate (index_of name s.service_names) s
handle_frame _ s = (s, false)

unfoldable pub is_service_switcher_frame : Content → Bool
is_service_switcher_frame (manually_switch_service _) = true
is_service_switcher_frame _ = false

-- FilterProcessor.ProcessFrame: a frame that the filter takes goes on in its direction.
unfoldable pub filter_processor : (Frame → Direction → Bool) → Direction → List Frame → List Frame
filter_processor filter dir [] = []
filter_processor filter dir (f ∷ fs) =
    let rest = filter_processor filter dir fs in if filter f dir then f ∷ rest else rest

-- The filters before and after the service of a name, while the service `active` is active.
unfoldable pub filter_down : String → String → Frame → Direction → Bool
filter_down active name f dir = same_direction dir downstream && str_eq active name

unfoldable pub filter_up : String → String → Frame → Direction → Bool
filter_up active name f dir = same_direction dir upstream && str_eq active name

pub record Service : Type 0 where
  pub name : String
  pub processor : Branch

-- The service with what filterDown has let through, and the filters that what it emits comes to:
-- filterUp on the way down, and filterDown on the way up.
unfoldable pub serve : String → Service → List Frame → Emitted
serve active s [] = record { downward = []; upward = []; fails = false }
serve active s (f ∷ _) =
    let out = s.processor f in
    record {
      downward = filter_processor (filter_up active s.name) downstream out.downward;
      upward = filter_processor (filter_down active s.name) upstream out.upward;
      fails = out.fails;
    }

unfoldable pub service_branch : String → Service → Branch
service_branch active s f =
    serve active s (filter_processor (filter_down active s.name) downstream (f ∷ []))

pub record Switcher : Type 0 where
  pub parallel : Parallel
  pub strategy : Manual

-- NewServiceSwitcher with a manual strategy
unfoldable pub new_switcher : List Service → Manual → Option Switcher
new_switcher services strategy = do
  pp ← new_parallel (length services)
  some (record { parallel = pp; strategy = strategy })

-- outputFilter
unfoldable pub output_filter : Manual → Frame → Bool
output_filter s f = elim f.content [
  | request_metadata name ↦ not (str_eq name (active_service_name s))
  | service_metadata name ↦ str_eq name (active_service_name s)
  | _ ↦ true
]

-- The frames for the next and the previous processor, and whether an error is returned.
pub record Result : Type 0 where
  pub switcher : Switcher
  pub down : List Frame
  pub up : List Frame
  pub failed : Bool

-- `fresh_id` is the id of the frame that asks the service for its metadata.
unfoldable pub process_frame : List Service → ℕ → Direction → Frame → Switcher → Result
process_frame services fresh_id upstream f w = record {
  switcher = w;
  down = [];
  up = f ∷ [];
  failed = false;
}
process_frame services fresh_id downstream f w =
    let (s, switched) = handle_frame f.content w.strategy in
    let active = active_service_name s in
    let branches = map (service_branch active) services in
    let request : Frame = record { id = fresh_id; content = request_metadata active } in
    let pushed = push (some (output_filter s)) branches request w.parallel in
    let r = Parallel.process_frame (some (output_filter s)) branches downstream f w.parallel in
    if is_service_switcher_frame f.content
    then (if switched
        then record {
          switcher = record { parallel = pushed.pipeline; strategy = s };
          down = pushed.down;
          up = pushed.up;
          failed = false;
        }
        else record { switcher = record w { strategy = s }; down = []; up = []; failed = false })
    else record {
      switcher = record w { parallel = r.pipeline };
      down = r.down;
      up = r.up;
      failed = r.failed;
    }

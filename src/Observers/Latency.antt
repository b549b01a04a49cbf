-- ===== src/Observers/Latency.antt =====
-- pkg/observers/user_bot_latency.go: UserBotLatencyObserver. The callback's latency is in nanoseconds,
-- and time does not go back.
pub mod Spans
use voxray.Base.{
  ℕ, ◌-◌, Bool, true, false, Option, none, some, List, [], ◌∷◌, ◌++◌, length, ltb, if◌then◌else◌,
}
use voxray.Frames.{
  Content, Frame, Direction, downstream, upstream, user_started_speaking, user_stopped_speaking,
  bot_started_speaking,
}
use voxray.Pipeline.Once.{seen}

pub record LatencyObserver : Type 0 where
  pub user_stopped_time : Option ℕ
  pub processed_ids : List ℕ

abbrev pub new_latency_observer : LatencyObserver
new_latency_observer = record { user_stopped_time = none; processed_ids = [] }

unfoldable pub latency : Option ℕ → ℕ → List ℕ
latency none now = []
latency (some stopped) now = (now - stopped) ∷ []

unfoldable pub measure : ℕ → Content → LatencyObserver → LatencyObserver × List ℕ
measure now user_stopped_speaking o = (record o { user_stopped_time = some now }, [])
measure now user_started_speaking o = (record o { user_stopped_time = none }, [])
measure now bot_started_speaking o =
    (record o { user_stopped_time = none }, latency o.user_stopped_time now)
measure now _ o = (o, [])

-- The ids with one more: a set of more than 500 is emptied.
unfoldable pub remember : ℕ → List ℕ → List ℕ
remember id ids = if ltb 500 (length (id ∷ ids)) then [] else id ∷ ids

-- OnFrameProcessed: the observer, and the latencies reported.
unfoldable pub on_latency_frame : ℕ → Frame → Direction → LatencyObserver → LatencyObserver × List ℕ
on_latency_frame now f upstream o = (o, [])
on_latency_frame now f downstream o =
    let next = record o { processed_ids = remember f.id o.processed_ids } in
    if seen f.id o.processed_ids then (o, []) else measure now f.content next

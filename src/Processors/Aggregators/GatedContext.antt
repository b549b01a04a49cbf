-- ===== src/Processors/Aggregators/GatedContext.antt =====
-- pkg/processors/aggregators/gatedcontext/gatedcontext.go, and the notifier of pkg/utils/notifier, whose
-- channel holds one notification.
use voxray.Base.{Bool, true, false, Option, none, some, List, [], ◌∷◌, ◌++◌, if◌then◌else◌}
use voxray.Frames.{Frame, end_frame, cancel, llm_context}

pub record GatedContext : Type 0 where
  pub start_open : Bool
  pub last_frame : Option Frame
  pub notified : Bool

abbrev pub new_gated_context : Bool → GatedContext
new_gated_context start_open = record {
  start_open = start_open;
  last_frame = none;
  notified = false;
}

-- Notify: a notification that has not been taken is not doubled.
unfoldable pub notify : GatedContext → GatedContext
notify p = record p { notified = true }

unfoldable pub held : Option Frame → List Frame
held none = []
held (some f) = f ∷ []

-- One round of gateLoop, if there is a notification for it.
unfoldable pub gate_round : GatedContext → GatedContext × List Frame
gate_round p =
    if p.notified
    then (record p { last_frame = none; notified = false }, held p.last_frame)
    else (p, [])

-- ProcessFrame of a frame that goes down
unfoldable pub hold_context : Frame → GatedContext → GatedContext × List Frame
hold_context f p =
    if p.start_open
    then (record p { start_open = false }, f ∷ [])
    else (record p { last_frame = some f }, [])

unfoldable pub process_frame : Frame → GatedContext → GatedContext × List Frame
process_frame f p = elim f.content [
  | end_frame ↦ (record p { last_frame = none }, f ∷ [])
  | cancel ↦ (record p { last_frame = none }, f ∷ [])
  | llm_context ↦ hold_context f p
  | _ ↦ (p, f ∷ [])
]

pub data Event : Type 0 where
  received : Frame → Event
  notifies takes_round : Event

unfoldable pub step : Event → GatedContext → GatedContext × List Frame
step (received f) p = process_frame f p
step notifies p = (notify p, [])
step takes_round p = gate_round p

unfoldable pub run : List Event → GatedContext → GatedContext × List Frame
run [] p = (p, [])
run (e ∷ es) p = let (q, sent) = step e p in let (r, more) = run es q in (r, sent ++ more)

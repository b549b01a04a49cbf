-- ===== src/Turn/Controller.antt =====
-- pkg/audio/turn/user_controller.go and the strategies beside it. There is no mutex: while
-- ProcessVADUpdate pushes a frame, timers may fire and the bot may start or stop, which is an
-- argument. What the code does between two pushes is one step. A timer is whether it will still fire:
-- `time.AfterFunc` arms it, Stop and the firing disarm it. Of the timeouts only whether they are
-- positive is read.
use voxray.Base.{
  Bool, true, false, not, ◌&&◌, Option, none, some, List, [], ◌∷◌, ◌++◌, if◌then◌else◌,
}
use voxray.Frames.{Content, user_started_speaking, user_stopped_speaking, user_idle}

-- UserTurnStartStrategy and UserTurnStopStrategy, over the state of the strategy.
pub record StartStrategy (S : Type 0) : Type 0 where
  pub reset : S → S
  pub on_user_started_speaking : S → S
  pub should_start_turn : S → Bool

pub record StopStrategy (T : Type 0) : Type 0 where
  pub reset : T → T
  pub on_user_stopped_speaking : T → T
  pub should_stop_turn : T → Bool

-- VADUserTurnStartStrategy: the state is `triggered`.
abbrev pub vad_start_strategy : StartStrategy Bool
vad_start_strategy = record {
  reset = λ triggered. false;
  on_user_started_speaking = λ triggered. true;
  should_start_turn = λ triggered. triggered;
}

-- SilenceUserTurnStopStrategy: the state is `stopped`.
abbrev pub silence_stop_strategy : StopStrategy Bool
silence_stop_strategy = record {
  reset = λ stopped. false;
  on_user_stopped_speaking = λ stopped. true;
  should_stop_turn = λ stopped. stopped;
}

pub record Controller (S T : Type 0) : Type 0 where
  pub start : S
  pub stop : T
  pub has_stop_timeout : Bool  -- userTurnStopTimeout > 0
  pub has_idle_timeout : Bool  -- userIdleTimeout > 0
  pub user_speaking : Bool
  pub user_turn : Bool
  pub stop_timer : Bool
  pub idle_timer : Bool

-- The controller after a method, the frames that it handed to onPushFrame, and whether it returned
-- an error.
pub record Outcome (S T : Type 0) : Type 0 where
  pub controller : Controller S T
  pub pushed : List Content
  pub failed : Bool

-- What comes from other goroutines: the notices of the bot, and the callbacks of the two timers.
pub data Aside : Type 0 where
  bot_started bot_stopped stop_timeout idle_timeout : Aside

-- What happens around the controller: a call of ProcessVADUpdate with what happens while it pushes, or
-- something in between.
pub data Event : Type 0 where
  vad_update : Bool → List Aside → Event
  aside : Aside → Event

module _ {S T : Type 0} where
  abbrev ok : Controller S T → Outcome S T
  ok c = record { controller = c; pushed = []; failed = false }

  -- The next statement, unless an error returned.
  abbrev pub and_then : Outcome S T → (Controller S T → Outcome S T) → Outcome S T
  and_then o k =
      if o.failed then o else let p = k o.controller in record p { pushed = o.pushed ++ p.pushed }

  reset_stop_timer : Controller S T → Controller S T
  reset_stop_timer c = if c.has_stop_timeout then record c { stop_timer = true } else c

  stop_stop_timer : Controller S T → Controller S T
  stop_stop_timer c = record c { stop_timer = false }

  reset_idle_timer : Controller S T → Controller S T
  reset_idle_timer c = if c.has_idle_timeout then record c { idle_timer = true } else c

  stop_idle_timer : Controller S T → Controller S T
  stop_idle_timer c = record c { idle_timer = false }

-- The strategies, and the callback: none if it is nil, else whether it returns an error on a frame.
module _ {S T : Type 0} (starts : StartStrategy S) (stops : StopStrategy T)
    (on_push_frame : Option (Content → Bool)) where
  push : Content → Controller S T → Outcome S T
  push f c = elim on_push_frame [
    | none ↦ ok c
    | some fails ↦ record { controller = c; pushed = f ∷ []; failed = fails f }
  ]

  start_turn : Controller S T → Outcome S T
  unfolding reset_stop_timer
  start_turn c =
      if c.user_turn
      then ok c
      else ok (
          reset_stop_timer (record c {
            user_turn = true;
            stop = stops.reset c.stop;
            start = starts.reset c.start;
          }))

  stop_turn : Controller S T → Outcome S T
  unfolding stop_stop_timer push
  stop_turn c =
      if not c.user_turn
      then ok c
      else push user_stopped_speaking (
          stop_stop_timer (record c {
            user_turn = false;
            start = starts.reset c.start;
            stop = stops.reset c.stop;
          }))

  notify_bot_stopped_speaking : Controller S T → Controller S T
  unfolding reset_idle_timer
  notify_bot_stopped_speaking c =
      if not c.has_idle_timeout then c else if c.user_turn then c else reset_idle_timer c

  -- The callbacks of the two timers.
  on_stop_timeout : Controller S T → Outcome S T
  unfolding stop_turn
  on_stop_timeout c = if not c.user_speaking && c.user_turn then stop_turn c else ok c

  on_idle_timeout : Controller S T → Outcome S T
  unfolding push
  on_idle_timeout c = push user_idle c

  -- A timer that is not armed does not fire.
  unfoldable pub handle_aside : Aside → Controller S T → Outcome S T
  unfolding notify_bot_stopped_speaking on_stop_timeout on_idle_timeout stop_idle_timer
  handle_aside bot_started c = ok (stop_idle_timer c)
  handle_aside bot_stopped c = ok (notify_bot_stopped_speaking c)
  handle_aside stop_timeout c =
      if c.stop_timer then on_stop_timeout (record c { stop_timer = false }) else ok c
  handle_aside idle_timeout c =
      if c.idle_timer then on_idle_timeout (record c { idle_timer = false }) else ok c

  -- What happens while a frame is being pushed; the errors of the callbacks are dropped.
  unfoldable pub meanwhile : List Aside → Controller S T → Outcome S T
  meanwhile [] c = ok c
  meanwhile (a ∷ asides) c =
      let o = handle_aside a c in
      let p = meanwhile asides o.controller in record p { pushed = o.pushed ++ p.pushed }

  -- The branches of ProcessVADUpdate on a change of the user's speaking.
  begin_speech : List Aside → Controller S T → Outcome S T
  unfolding push start_turn
  begin_speech asides c =
      and_then
        (and_then
          (push user_started_speaking
            (record c { user_speaking = true; start = starts.on_user_started_speaking c.start }))
          (meanwhile asides))
        λ d. if not d.user_turn && starts.should_start_turn d.start then start_turn d else ok d

  end_speech : List Aside → Controller S T → Outcome S T
  unfolding stop_turn reset_stop_timer
  end_speech asides c =
      let d : Controller S T = record c {
        user_speaking = false;
        stop = stops.on_user_stopped_speaking c.stop;
      } in
      and_then
        (if d.user_turn && stops.should_stop_turn d.stop
          then and_then (stop_turn d) (meanwhile asides)
          else ok d)
        λ e. ok (reset_stop_timer e)

  unfoldable pub process_vad_update : List Aside → Bool → Controller S T → Outcome S T
  unfolding begin_speech end_speech stop_idle_timer reset_stop_timer
  process_vad_update asides true c =
      and_then (if not c.user_speaking then begin_speech asides c else ok c)
        λ d. ok (stop_idle_timer (reset_stop_timer d))
  process_vad_update asides false c = if c.user_speaking then end_speech asides c else ok c

  unfoldable pub handle : Event → Controller S T → Outcome S T
  handle (vad_update b asides) c = process_vad_update asides b c
  handle (aside a) c = handle_aside a c

  -- A history of events; an error that an event returns does not stop the next.
  unfoldable pub handle_all : List Event → Controller S T → Controller S T × List Content
  handle_all [] c = (c, [])
  handle_all (e ∷ es) c =
      let o = handle e c in
      let (last, pushed) = handle_all es o.controller in (last, o.pushed ++ pushed)

-- NewUserTurnController
abbrev pub new_controller : {S T : Type 0} → S → T → Bool → Bool → Controller S T
new_controller start stop stop_on idle_on = record {
  start = start;
  stop = stop;
  has_stop_timeout = stop_on;
  has_idle_timeout = idle_on;
  user_speaking = false;
  user_turn = false;
  stop_timer = false;
  idle_timer = false;
}

-- ===== src/Observers/TurnTracking.antt =====
-- pkg/observers/turn_tracking.go: TurnTrackingObserver. What runs with the mutex held is one step:
-- OnFrameProcessed and the timer's callback unlock it around onTurnStarted and onTurnEnded, which
-- are set, and anything else may come in between. The clock's reading is an argument, in nanoseconds;
-- the division by 1e9 of a duration is left out.
pub mod Turns
use voxray.Base.{
  ℕ, ◌+◌, ◌<◌, Bool, true, false, not, ◌&&◌, ◌||◌, Option, none, some, List, [], ◌∷◌, ◌++◌, length,
  ltb, ◌==◌, if◌then◌else◌,
}
use voxray.Base.Int.{ℤ, pos, sub_ℕ}
use voxray.Base.Calls.{call_at, without_call}
use voxray.Frames.{
  Content, Frame, start, cancel, user_started_speaking, bot_started_speaking, bot_stopped_speaking,
}

pub record Observer : Type 0 where
  pub turn_count : ℕ
  pub is_turn_active : Bool
  pub is_bot_speaking : Bool
  pub has_bot_spoken : Bool
  pub turn_start_time : ℕ
  pub end_turn_timer : Option ℕ  -- the number of the timer
  pub armed : List ℕ  -- the timers that will fire
  pub timers : ℕ  -- how many have been made
  pub processed_ids : List ℕ  -- the keys of the map
  pub id_history : List ℕ
  pub max_frames : ℕ

pub data Callback : Type 0 where
  turn_started : ℕ → Callback
  turn_ended : ℕ → ℤ → Bool → Callback  -- the turn, its duration, whether it was interrupted

-- What a call does when it has the mutex again: nothing; the start of the next turn, for which the bot
-- is quiet after an interruption; or, in the timer's callback, forgetting the timer.
pub data Rest : Type 0 where
  done : Rest
  then_start : ℕ → Bool → Rest
  then_forget : Rest

-- A call that has released the mutex for its callback.
pub record Call : Type 0 where
  pub callback : Callback
  pub rest : Rest

-- The observer after a step, and the call unless it is over.
abbrev pub Segment : Type 0
Segment = Observer × Option Call

-- NewTurnTrackingObserver, with MaxFrames
abbrev pub new_observer : ℕ → Observer
new_observer max_frames = record {
  turn_count = 0;
  is_turn_active = false;
  is_bot_speaking = false;
  has_bot_spoken = false;
  turn_start_time = 0;
  end_turn_timer = none;
  armed = [];
  timers = 0;
  processed_ids = [];
  id_history = [];
  max_frames = max_frames;
}

unfoldable pub is_key : ℕ → List ℕ → Bool
is_key id [] = false
is_key id (k ∷ ks) = (id == k) || is_key id ks

-- delete(m, id)
unfoldable pub delete_key : ℕ → List ℕ → List ℕ
delete_key id [] = []
delete_key id (k ∷ ks) = let rest = delete_key id ks in if id == k then rest else k ∷ rest

unfoldable pub seen : ℕ → Observer → Bool
seen id o = is_key id o.processed_ids

-- for len(o.idHistory) > o.maxFrames, on the history and the map
unfoldable pub forget_old : ℕ → List ℕ → List ℕ → List ℕ × List ℕ
forget_old max [] keys = ([], keys)
forget_old max (old ∷ ids) keys =
    let r = forget_old max ids (delete_key old keys) in
    if ltb max (length (old ∷ ids)) then r else (old ∷ ids, keys)

unfoldable pub add_processed : ℕ → Observer → Observer
add_processed id o =
    if is_key id o.processed_ids
    then o
    else let r = forget_old o.max_frames (o.id_history ++ id ∷ []) (id ∷ o.processed_ids) in
      record o { id_history = r.0; processed_ids = r.1 }

-- Stop on the timer that is known, and no timer any more.
unfoldable pub cancel_turn_end_timer : Observer → Observer
cancel_turn_end_timer o = elim o.end_turn_timer [
  | none ↦ o
  | some id ↦ record o { end_turn_timer = none; armed = delete_key id o.armed }
]

unfoldable pub schedule_turn_end : Observer → Observer
schedule_turn_end o =
    let p = cancel_turn_end_timer o in
    record p { end_turn_timer = some p.timers; armed = p.timers ∷ p.armed; timers = p.timers + 1 }

unfoldable pub duration : ℕ → ℕ → ℤ
duration begun now = if begun == 0 || now == 0 then pos 0 else sub_ℕ now begun

unfoldable pub start_turn : ℕ → Observer → Segment
start_turn now o = (
  record o {
    is_turn_active = true;
    has_bot_spoken = false;
    turn_count = o.turn_count + 1;
    turn_start_time = now;
  },
  some (record { callback = turn_started (o.turn_count + 1); rest = done }),
)

unfoldable pub go_on : Rest → Observer → Segment
go_on done o = (o, none)
go_on (then_start now quiet) o =
    start_turn now (if quiet then record o { is_bot_speaking = false } else o)
go_on then_forget o = (record o { end_turn_timer = none }, none)

-- endTurnLocked, and what comes behind it: at once if no turn is active.
unfoldable pub end_turn : ℕ → Bool → Rest → Observer → Segment
end_turn now interrupted rest o = if not o.is_turn_active then go_on rest o else (
  record o { is_turn_active = false },
  some (record {
    callback = turn_ended o.turn_count (duration o.turn_start_time now) interrupted;
    rest = rest;
  }),
)

unfoldable pub on_user_started : ℕ → Observer → Segment
on_user_started now o =
    if o.is_bot_speaking
    then end_turn now true (then_start now true) (cancel_turn_end_timer o)
    else if o.is_turn_active && o.has_bot_spoken
    then end_turn now false (then_start now false) (cancel_turn_end_timer o)
    else if not o.is_turn_active
    then start_turn now o
    else (o, none)

-- The switch of OnFrameProcessed.
unfoldable pub observe : ℕ → Content → Observer → Segment
observe now (start _) o = if o.turn_count == 0 then start_turn now o else (o, none)
observe now user_started_speaking o = on_user_started now o
observe now bot_started_speaking o =
    (cancel_turn_end_timer (record o { is_bot_speaking = true; has_bot_spoken = true }), none)
observe now bot_stopped_speaking o =
    if o.is_bot_speaking
    then (schedule_turn_end (record o { is_bot_speaking = false }), none)
    else (o, none)
observe now cancel o =
    if o.is_turn_active then end_turn now true done (cancel_turn_end_timer o) else (o, none)
observe now _ o = (o, none)

unfoldable pub on_frame_processed : ℕ → Frame → Observer → Segment
on_frame_processed now f o =
    if seen f.id o then (o, none) else observe now f.content (add_processed f.id o)

-- The callback of a timer, if it is armed.
unfoldable pub on_timeout : ℕ → ℕ → Observer → Segment
on_timeout now id o =
    let p = record o { armed = delete_key id o.armed } in
    if not (is_key id o.armed)
    then (o, none)
    else if o.is_turn_active && not o.is_bot_speaking
    then end_turn now false then_forget p
    else go_on then_forget p

-- The observer with the calls that have released the mutex: those whose callback is still to be made,
-- and those that have made it and wait for the mutex.
pub record Session : Type 0 where
  pub observer : Observer
  pub calls : List Call
  pub returning : List Rest
  pub told : List Callback  -- the callbacks that have been made

abbrev pub new_session : ℕ → Session
new_session max_frames = record {
  observer = new_observer max_frames;
  calls = [];
  returning = [];
  told = [];
}

-- A frame comes; a timer fires; the call at a place makes its callback; one takes the mutex again.
pub data Event : Type 0 where
  frame_processed : ℕ → Frame → Event
  timeout : ℕ → ℕ → Event
  call_back : ℕ → Event
  resume : ℕ → Event

unfoldable pub calls_of : Option Call → List Call
calls_of none = []
calls_of (some c) = c ∷ []

unfoldable pub unlock : Segment → Session → Session
unlock (o, out) s = record s { observer = o; calls = s.calls ++ calls_of out }

unfoldable pub make_call : ℕ → Option Call → Session → Session
make_call n none s = s
make_call n (some c) s = record s {
  calls = without_call n s.calls;
  returning = s.returning ++ c.rest ∷ [];
  told = s.told ++ c.callback ∷ [];
}

unfoldable pub take_mutex : Option Rest → Observer → Segment
take_mutex none o = (o, none)
take_mutex (some rest) o = go_on rest o

-- What the mutex protects: the step of an event, and the calls it leaves.
unfoldable pub locked_step : Event → Session → Segment
locked_step (frame_processed now f) s = on_frame_processed now f s.observer
locked_step (timeout now id) s = on_timeout now id s.observer
locked_step (call_back n) s = (s.observer, none)
locked_step (resume n) s = take_mutex (call_at n s.returning) s.observer

unfoldable pub handle : Event → Session → Session
handle (call_back n) s = make_call n (call_at n s.calls) s
handle (resume n) s =
    unlock (locked_step (resume n) s) (record s { returning = without_call n s.returning })
handle e s = unlock (locked_step e s) s

unfoldable pub run : List Event → Session → Session
run [] s = s
run (e ∷ es) s = run es (handle e s)

-- ===== src/Tests/Observers.antt =====
-- pkg/observers at a concrete call.
use mathlib.Core.List.{Perm}
use voxray.Base.{ℕ, true, false, some, List, [], ◌∷◌, ◌++◌, ◌≡◌}
use voxray.Frames.{
  Content, start, user_started_speaking, bot_started_speaking, bot_stopped_speaking,
}
use voxray.Observers.TurnTracking.{
  Event, frame_processed, timeout, call_back, resume, new_session, run,
}
use voxray.Observers.TurnTracking.Turns.{follow, turns_of, made, callbacks_of, follow-made}

abbrev at : ℕ → ℕ → Content → Event
at now id f = frame_processed now record { id = id; content = f }

-- The bot's frame is seen twice. The turn times out, and the user starts the next one before the
-- listener has been told of the end: it is told of the second turn first.
abbrev call : List Event
call =
    at 10 1 (start true)
    ∷ call_back 0
    ∷ resume 0
    ∷ at 20 2 bot_started_speaking
    ∷ at 25 2 bot_started_speaking
    ∷ at 30 3 bot_stopped_speaking
    ∷ timeout 60 0
    ∷ at 70 4 user_started_speaking
    ∷ call_back 1
    ∷ call_back 0
    ∷ resume 1
    ∷ resume 0
    ∷ []

follow-made_example :
    let last = run call (new_session 100) in
    let calls = made call (new_session 100) in
    (follow (record { begun = 0; is_open = false }) calls ≡ some (turns_of last.observer))
    × Perm (last.told ++ callbacks_of last.calls) calls
follow-made_example = follow-made 100 call

-- ===== src/Tests/Filters.antt =====
-- pkg/processors/filters at concrete frames.
use voxray.Base.{true, none, List, [], ◌∷◌}
use voxray.Frames.{Frame, Content, text, transcription, bot_started_speaking, bot_stopped_speaking}
use voxray.Processors.Filters.Mute.{MuteInput}

abbrev hello : Frame
hello = record { id = 1; content = text (104 ∷ 105 ∷ []) }

abbrev input : Content → MuteInput
input f = record { content = f; callback = none }

abbrev bot_speech : List MuteInput
bot_speech =
    input bot_started_speaking ∷ input (transcription "u" [] true) ∷ input bot_stopped_speaking ∷ []

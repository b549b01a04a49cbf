-- ===== src/Processors/Filters/Mute.antt =====
-- pkg/processors/filters/stt_mute_filter.go: the frames of speech recognition are dropped while the
-- bot's speech mutes it. The custom callback's answer may change between calls: it is an argument of
-- each frame, none if the callback is nil, and its error is dropped as in the source.
pub mod History
use voxray.Base.{
  Bool, true, false, not, ◌&&◌, ◌||◌, Option, none, some, List, [], ◌∷◌, if◌then◌else◌,
}
use voxray.Frames.{
  Content, Frame, start, transcription, interruption, user_started_speaking, user_stopped_speaking,
  bot_started_speaking, bot_stopped_speaking, vad_user_started_speaking, vad_user_stopped_speaking,
}

-- STTMuteStrategy; a string that names none mutes nothing.
pub data Strategy : Type 0 where
  first_speech until_first_bot_complete always custom unknown : Strategy

pub record MuteFilter : Type 0 where
  pub strategies : List Strategy
  pub first_speech_handled : Bool
  pub bot_is_speaking : Bool
  pub is_muted : Bool

unfoldable pub custom_mutes : Option Bool → Bool
custom_mutes none = false
custom_mutes (some b) = b

unfoldable pub strategy_mutes : Strategy → Option Bool → Bool → Bool → Bool
unfolding custom_mutes
strategy_mutes always callback bot handled = bot
strategy_mutes first_speech callback bot handled = bot && not handled
strategy_mutes until_first_bot_complete callback bot handled = not handled
strategy_mutes custom callback bot handled = bot && custom_mutes callback
strategy_mutes unknown callback bot handled = false

-- shouldMute
unfoldable pub should_mute : List Strategy → Option Bool → Bool → Bool → Bool
should_mute [] callback bot handled = false
should_mute (s ∷ ss) callback bot handled =
    strategy_mutes s callback bot handled || should_mute ss callback bot handled

unfoldable pub is_stt_or_vad_frame : Content → Bool
is_stt_or_vad_frame vad_user_started_speaking = true
is_stt_or_vad_frame vad_user_stopped_speaking = true
is_stt_or_vad_frame user_started_speaking = true
is_stt_or_vad_frame user_stopped_speaking = true
is_stt_or_vad_frame (transcription _ _ _) = true
is_stt_or_vad_frame interruption = true
is_stt_or_vad_frame _ = false

set_muted : Option Bool → MuteFilter → MuteFilter
set_muted callback p = record p {
  is_muted = should_mute p.strategies callback p.bot_is_speaking p.first_speech_handled;
}

-- The part of ProcessFrame under the mutex.
observe : Content → Option Bool → MuteFilter → MuteFilter
unfolding set_muted
observe bot_started_speaking callback p =
    set_muted callback (record p { bot_is_speaking = true; first_speech_handled = true })
observe bot_stopped_speaking callback p = set_muted callback (record p { bot_is_speaking = false })
observe (start _) callback p = set_muted callback p
observe _ callback p = p

-- ProcessFrame: the filter after the frame, and whether the frame is forwarded.
unfoldable pub process_frame : Content → Option Bool → MuteFilter → MuteFilter × Bool
unfolding observe
process_frame f callback p =
    let q = observe f callback p in (q, not (is_stt_or_vad_frame f && q.is_muted))

pub record MuteInput : Type 0 where
  pub content : Content
  pub callback : Option Bool

unfoldable pub run : List MuteInput → MuteFilter → MuteFilter
run [] p = p
run (x ∷ xs) p = run xs (process_frame x.content x.callback p).0

-- NewSTTMuteFilter
abbrev pub new_mute_filter : List Strategy → MuteFilter
new_mute_filter strategies = record {
  strategies = strategies;
  first_speech_handled = false;
  bot_is_speaking = false;
  is_muted = false;
}

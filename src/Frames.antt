-- ===== src/Frames.antt =====
-- pkg/frames: the frames that the modelled processors create or tell apart.
-- A frame is its id and its content. A field that no modelled code reads (sample rates, pts,
-- metadata, timestamps) is left out, and a frame type that no modelled code names is `other`, with
-- its FrameType(). Text is the list of its characters, audio that of its bytes.
pub mod Keypad
use voxray.Base.{ℕ, String, Bool, List}

abbrev pub Text : Type 0
Text = List ℕ

pub data Content : Type 0 where
  start : Bool → Content  -- AllowInterruptions
  cancel end_frame stop_frame interruption sync : Content
  error : Bool → Content  -- Fatal
  text : Text → Content
  aggregated_text : Text → Content
  transcription : String → Text → Bool → Content  -- UserID, Text, Finalized
  audio_raw output_audio_raw tts_audio_raw : Text → Content
  manually_switch_service service_metadata request_metadata : String → Content
  user_started_speaking user_stopped_speaking user_idle : Content
  bot_started_speaking bot_stopped_speaking : Content
  vad_user_started_speaking vad_user_stopped_speaking : Content
  vad_params_update : ℕ → ℕ → Content  -- StopSecs and StartSecs, in milliseconds
  input_dtmf : ℕ → Content  -- the key's byte
  llm_text : Text → Content
  llm_full_response_start llm_full_response_end llm_context : Content
  other : String → Content

pub record Frame : Type 0 where
  pub id : ℕ
  pub content : Content

-- FrameType(): the name that the frame's own type returns.
unfoldable pub frame_type : Content → String
frame_type (start _) = "StartFrame"
frame_type cancel = "CancelFrame"
frame_type end_frame = "EndFrame"
frame_type stop_frame = "StopFrame"
frame_type interruption = "InterruptionFrame"
frame_type sync = "SyncFrame"
frame_type (error _) = "ErrorFrame"
frame_type (text _) = "TextFrame"
frame_type (aggregated_text _) = "AggregatedTextFrame"
frame_type (transcription _ _ _) = "TranscriptionFrame"
frame_type (audio_raw _) = "AudioRawFrame"
frame_type (output_audio_raw _) = "OutputAudioRawFrame"
frame_type (tts_audio_raw _) = "TTSAudioRawFrame"
frame_type (manually_switch_service _) = "ManuallySwitchServiceFrame"
frame_type (service_metadata _) = "ServiceMetadataFrame"
frame_type (request_metadata _) = "ServiceSwitcherRequestMetadataFrame"
frame_type user_started_speaking = "UserStartedSpeakingFrame"
frame_type user_stopped_speaking = "UserStoppedSpeakingFrame"
frame_type user_idle = "UserIdleFrame"
frame_type bot_started_speaking = "BotStartedSpeakingFrame"
frame_type bot_stopped_speaking = "BotStoppedSpeakingFrame"
frame_type vad_user_started_speaking = "VADUserStartedSpeakingFrame"
frame_type vad_user_stopped_speaking = "VADUserStoppedSpeakingFrame"
frame_type (vad_params_update _ _) = "VADParamsUpdateFrame"
frame_type (input_dtmf _) = "InputDTMFFrame"
frame_type (llm_text _) = "LLMTextFrame"
frame_type llm_full_response_start = "LLMFullResponseStartFrame"
frame_type llm_full_response_end = "LLMFullResponseEndFrame"
frame_type llm_context = "LLMContextFrame"
frame_type (other name) = name

-- processors.Direction
pub data Direction : Type 0 where
  downstream upstream : Direction

-- A frame that a processor hands to its neighbours.
pub data Out : Type 0 where
  down up : Content → Out

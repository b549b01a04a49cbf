-- ===== src/Observers/Transcript.antt =====
-- pkg/observers/transcript.go: TranscriptObserver, with a store whose answers it ignores. A saved
-- message is without the session's id and the time, which are the same parameters on each call.
pub mod Conversation
use voxray.Base.{
  ℕ, suc, ◌+◌, Bool, true, false, not, ◌||◌, List, [], ◌∷◌, ◌++◌, length, ◌==◌, if◌then◌else◌,
}
use voxray.Frames.{
  Text, Content, Direction, downstream, upstream, transcription, llm_text, end_frame, cancel,
}
use voxray.Texts.{is_blank}

-- TTSSpeakFrame, and every other frame.
pub data Input : Type 0 where
  tts_speak : Input
  frame : Content → Input

pub data Role : Type 0 where
  user assistant : Role

pub record Message : Type 0 where
  pub role : Role
  pub said : Text
  pub seq : ℕ

pub record TranscriptObserver : Type 0 where
  pub seq : ℕ
  pub bot_buf : Text

abbrev pub new_transcript_observer : TranscriptObserver
new_transcript_observer = record { seq = 0; bot_buf = [] }

unfoldable pub save : Role → Text → TranscriptObserver → TranscriptObserver × List Message
save role said o =
    (record o { seq = suc o.seq }, record { role = role; said = said; seq = suc o.seq } ∷ [])

unfoldable pub flush_assistant : TranscriptObserver → TranscriptObserver × List Message
flush_assistant o =
    if length o.bot_buf == 0 then (o, []) else save assistant o.bot_buf (record o { bot_buf = [] })

-- The switch on the frame
unfoldable pub record_frame : Input → TranscriptObserver → TranscriptObserver × List Message
record_frame (frame (transcription user_id said finalized)) o =
    if not finalized || is_blank said then (o, []) else save user said o
record_frame (frame (llm_text said)) o = (record o { bot_buf = o.bot_buf ++ said }, [])
record_frame tts_speak o = flush_assistant o
record_frame (frame end_frame) o = flush_assistant o
record_frame (frame cancel) o = flush_assistant o
record_frame _ o = (o, [])

-- OnFrameProcessed: the observer, and what it saves.
unfoldable pub on_transcript_frame :
    Direction → Input → TranscriptObserver → TranscriptObserver × List Message
on_transcript_frame upstream f o = (o, [])
on_transcript_frame downstream f o = record_frame f o

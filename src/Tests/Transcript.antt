-- ===== src/Tests/Transcript.antt =====
-- pkg/observers/transcript.go at a concrete session.
use voxray.Texts.{is_blank}
use voxray.Observers.Transcript.Conversation.{token}
use voxray.Observers.Transcript.Conversation.{final_text}
use voxray.Observers.Transcript.Conversation.{tokens}
use voxray.Observers.Transcript.Conversation.{final_texts}
use voxray.Base.{true, false, [], ◌∷◌, ◌++◌, ◌≡◌, List}
use voxray.Frames.{transcription, llm_text, end_frame}
use voxray.Observers.Transcript.{Input, frame, tts_speak, new_transcript_observer}
use voxray.Observers.Transcript.Conversation.{
  run, user_texts, assistant_text, numbered, run-conversation,
}

abbrev session : List Input
session =
    frame (transcription "u" (72 ∷ []) false)
    ∷ frame (transcription "u" (72 ∷ 105 ∷ []) true)
    ∷ frame (llm_text (89 ∷ []))
    ∷ frame (llm_text (111 ∷ []))
    ∷ tts_speak
    ∷ frame (llm_text (33 ∷ []))
    ∷ frame end_frame
    ∷ []

run-conversation_example :
    (user_texts (run session new_transcript_observer).1 ≡ (72 ∷ 105 ∷ []) ∷ [])
    × (assistant_text (run session new_transcript_observer).1
          ++ (run session new_transcript_observer).0.bot_buf
        ≡ 89 ∷ 111 ∷ 33 ∷ [])
    × (numbered 1 (run session new_transcript_observer).1 ≡ true)
unfolding final_texts tokens final_text token is_blank
run-conversation_example = run-conversation session

-- ===== src/Tests/Voice.antt =====
-- pkg/processors/voice around services that answer as is written here.
use mathlib.Core.List.{Perm}
use voxray.Base.Calls.{call_at, without_call}
use voxray.Base.{
  true, false, Option, some, none, List, [], ◌∷◌, ◌++◌, ◌≡◌, refl, arith, ◌+◌, ◌≤◌, length, ◌<◌,
}
use voxray.Texts.{is_blank}
use voxray.Frames.{Text, audio_raw, text, llm_text, user_started_speaking, downstream, upstream}
use voxray.Processors.Voice.Stt.{Stt, Transcript}
use voxray.Processors.Voice.Stt.Chunks
use voxray.Processors.Voice.Stt.Chunks.{joined, received, all_at_least, run-chunks}
use voxray.Processors.Voice.Tts.{
  spoken_audio, speak, flush, then_speak, process_frame, Service, tts_speak, frame, new_tts,
}
use voxray.Processors.Voice.Tts.Turns
use voxray.Processors.Voice.Tts.Turns.{barge, both, fresh, run-barge_in}
use voxray.Processors.Voice.Tts.Reports.{is_plain, starts, all_plain, run-one_start}
use voxray.Processors.Voice.Llm.{
  changed, update_messages, run_llm, then_run, Role, Llm, Answer, transcript, messages_update,
}
use voxray.Processors.Voice.Llm
use voxray.Processors.Voice.Llm.Context
use voxray.Processors.Voice.Llm.Context.{view, run_session-started}

abbrev deaf : Text → Option (List Transcript)
deaf audio = none

abbrev heard : List Chunks.Turn
heard =
    record { frame = audio_raw (1 ∷ 2 ∷ []); transcribe = deaf }
    ∷ record { frame = text (7 ∷ []); transcribe = deaf }
    ∷ record { frame = audio_raw (3 ∷ 4 ∷ 5 ∷ []); transcribe = λ audio. some [] }
    ∷ []

abbrev listening : Stt
listening = record { min_buffer_bytes = 4; buf = [] }

run-chunks_example :
    (joined (Chunks.run heard listening).1 ++ (Chunks.run heard listening).0.buf ≡ received heard)
    × (all_at_least 4 (Chunks.run heard listening).1 ≡ true)
    × (length (Chunks.run heard listening).0.buf < 4)
run-chunks_example = run-chunks heard listening (omega arith) (omega arith)

-- A service that speaks each text in two frames.
abbrev speaks : Service
speaks t = some (t ∷ t ∷ [])

abbrev says : Text → Turns.Turn
says t = record { input = tts_speak t; service = speaks }

abbrev tells : Text → Turns.Turn
tells t = record { input = frame (llm_text t); service = speaks }

run-barge_in_example :
    Turns.run ((tells (72 ∷ []) ∷ []) ++ barge speaks ∷ says (89 ∷ []) ∷ []) new_tts
    ≡ both (Turns.run (tells (72 ∷ []) ∷ []) new_tts) (
        both
          (record { state = new_tts; asked = []; pushed = user_started_speaking ∷ [] })
          (Turns.run (says (89 ∷ []) ∷ []) (fresh 120)))
run-barge_in_example = run-barge_in (tells (72 ∷ []) ∷ []) (says (89 ∷ []) ∷ []) speaks new_tts

run-one_start_example :
    starts (Turns.run (says (72 ∷ []) ∷ says (89 ∷ []) ∷ []) new_tts).pushed + 0 ≤ 1
unfolding all_plain is_plain
run-one_start_example = run-one_start (says (72 ∷ []) ∷ says (89 ∷ []) ∷ []) new_tts refl

-- The bot is said to stop behind each of two texts, and to start before the first alone.
said_twice :
    (Turns.run (says (72 ∷ []) ∷ says (89 ∷ []) ∷ []) new_tts).asked ≡ (72 ∷ []) ∷ (89 ∷ []) ∷ []
unfolding Turns.run process_frame then_speak flush speak spoken_audio
said_twice = refl

abbrev said : Role → Text → Text
said r t = t

-- The listener is told of the reply before it is told of the question.
abbrev talk : List (Llm.Event Text)
talk =
    Llm.comes (transcript (72 ∷ [])) downstream
      (record { texts = (79 ∷ []) ∷ (75 ∷ []) ∷ []; fails = false })
    ∷ Llm.call_back 1
    ∷ Llm.comes (messages_update ((1 ∷ []) ∷ []) false) upstream
        (record { texts = []; fails = true })
    ∷ Llm.call_back 0
    ∷ Llm.comes (transcript (73 ∷ [])) downstream (record { texts = (78 ∷ []) ∷ []; fails = true })
    ∷ []

abbrev agent : Llm Text
agent = record { system_prompt = []; has_listener = true; msgs = [] }

run_session-started_example :
    let last = Llm.run_session said talk (Llm.new_session agent) in
    Perm (last.told ++ last.waiting) (Context.started said talk agent)
    × (view said [] (Context.started said talk agent) ≡ last.llm.msgs)
run_session-started_example = run_session-started said talk agent refl

context_left :
    (Llm.run_session said talk (Llm.new_session agent)).llm.msgs ≡ (1 ∷ []) ∷ (73 ∷ []) ∷ []
unfolding Llm.run_session Llm.handle Llm.process_frame Llm.call_listener call_at without_call
    then_run run_llm update_messages changed Llm.notify is_blank Llm.full_content
context_left = refl

-- ===== src/Extensions/Voicemail/Classification.antt =====
-- pkg/extensions/voicemail/classification.go: ClassificationProcessor without its delay goroutine, whose
-- timer and channels the effects below only tell what to do. `to_upper` is strings.ToUpper.
pub mod Decisions
use voxray.Base.{Bool, true, false, not, ◌&&◌, List, [], ◌∷◌, ◌++◌, if◌then◌else◌}
use voxray.Frames.{
  Text, Content, Frame, cancel, llm_text, llm_full_response_start, llm_full_response_end,
  user_started_speaking, user_stopped_speaking,
}
use voxray.Texts.{trim_space, has_text}

pub record Classifier : Type 0 where
  pub processing_response : Bool
  pub response_buffer : Text
  pub decision_made : Bool
  pub voicemail_detected : Bool

abbrev pub new_classifier : Classifier
new_classifier = record {
  processing_response = false;
  response_buffer = [];
  decision_made = false;
  voicemail_detected = false;
}

-- What a call does besides changing the state, in its order. The notifiers are named after what they
-- notify; the events are setVoicemailEvent and clearVoicemailEvent.
pub data Effect : Type 0 where
  push_downstream : Content → Effect
  notify_gate notify_conversation notify_voicemail : Effect
  call_on_conversation signal_detected set_voicemail_event clear_voicemail_event : Effect

abbrev pub conversation_word : Text
conversation_word = 67 ∷ 79 ∷ 78 ∷ 86 ∷ 69 ∷ 82 ∷ 83 ∷ 65 ∷ 84 ∷ 73 ∷ 79 ∷ 78 ∷ []

abbrev pub voicemail_word : Text
voicemail_word = 86 ∷ 79 ∷ 73 ∷ 67 ∷ 69 ∷ 77 ∷ 65 ∷ 73 ∷ 76 ∷ []

module _ (to_upper : Text → Text) where
  unfoldable pub process_classification : Text → Classifier → Classifier × List Effect
  process_classification full_response p =
      let response = to_upper full_response in
      if p.decision_made
      then (p, [])
      else if has_text conversation_word response
      then (
        record p { decision_made = true },
        notify_gate ∷ notify_conversation ∷ call_on_conversation ∷ [],
      )
      else if has_text voicemail_word response
      then (
        record p { decision_made = true; voicemail_detected = true },
        signal_detected
            ∷ notify_gate
            ∷ notify_voicemail
            ∷ push_downstream cancel
            ∷ clear_voicemail_event
            ∷ [],
      )
      else (p, [])

  -- LLMFullResponseEndFrame
  unfoldable pub end_response : Classifier → Classifier × List Effect
  end_response p =
      let idle = record p { processing_response = false; response_buffer = [] } in
      let (q, effects) = process_classification (trim_space p.response_buffer) idle in
      if p.processing_response && not p.decision_made
      then (q, effects ++ push_downstream llm_full_response_end ∷ [])
      else (idle, push_downstream llm_full_response_end ∷ [])

  -- ProcessFrame of a frame that goes down
  unfoldable pub process_frame : Content → Classifier → Classifier × List Effect
  process_frame llm_full_response_start p = (
    record p { processing_response = true; response_buffer = [] },
    push_downstream llm_full_response_start ∷ [],
  )
  process_frame llm_full_response_end p = end_response p
  process_frame (llm_text t) p = (
    if p.processing_response then record p { response_buffer = p.response_buffer ++ t } else p,
    push_downstream (llm_text t) ∷ [],
  )
  process_frame user_started_speaking p = (
    p,
    if p.voicemail_detected
        then set_voicemail_event ∷ push_downstream user_started_speaking ∷ []
        else push_downstream user_started_speaking ∷ [],
  )
  process_frame user_stopped_speaking p = (
    p,
    if p.voicemail_detected
        then clear_voicemail_event ∷ push_downstream user_stopped_speaking ∷ []
        else push_downstream user_stopped_speaking ∷ [],
  )
  process_frame f p = (p, push_downstream f ∷ [])

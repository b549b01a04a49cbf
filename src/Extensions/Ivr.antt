-- ===== src/Extensions/Ivr.antt =====
-- pkg/extensions/ivr/ivr.go: IVRProcessor. A message of the conversation is of any type `M`, with
-- `system` for the message that a prompt makes. The callbacks, which may be nil, are effects.
pub mod Histories
use voxray.Base.{
  ℕ, Bool, true, false, Option, none, some, List, [], ◌∷◌, ◌++◌, ◌⊎◌, inl, inr, ◌>>=◌, map, length,
  leb, drop, if◌then◌else◌,
}
use voxray.Frames.{
  Text, Content, Frame, start, end_frame, aggregated_text, llm_text, llm_full_response_end,
}
use voxray.Frames.Keypad.{KeypadError, parse_keypad_entry, new_dtmf_frame}
use voxray.Texts.{is_blank, trim_space, same_text}
use voxray.Utils.Patterns.{Aggregator, new_aggregator, feed, flush}

-- defaultOpenDelim and defaultCloseDelim: a backtick between spaces
abbrev pub default_delim : Text
default_delim = 32 ∷ 96 ∷ 32 ∷ []

pub data Status : Type 0 where
  detected completed stuck wait : Status

-- string(status)
unfoldable pub status_text : Status → Text
status_text detected = 100 ∷ 101 ∷ 116 ∷ 101 ∷ 99 ∷ 116 ∷ 101 ∷ 100 ∷ []
status_text completed = 99 ∷ 111 ∷ 109 ∷ 112 ∷ 108 ∷ 101 ∷ 116 ∷ 101 ∷ 100 ∷ []
status_text stuck = 115 ∷ 116 ∷ 117 ∷ 99 ∷ 107 ∷ []
status_text wait = 119 ∷ 97 ∷ 105 ∷ 116 ∷ []

abbrev pub conversation_text : Text
conversation_text = 99 ∷ 111 ∷ 110 ∷ 118 ∷ 101 ∷ 114 ∷ 115 ∷ 97 ∷ 116 ∷ 105 ∷ 111 ∷ 110 ∷ []

abbrev pub ivr_text : Text
ivr_text = 105 ∷ 118 ∷ 114 ∷ []

pub data Effect (M : Type 0) : Type 0 where
  push_down : Content → Effect M
  output_dtmf : ℕ → Effect M  -- OutputDTMFUrgentFrame
  text_without_speech : Text → Effect M  -- TextFrame with SkipTTS
  update_messages : List M → Effect M  -- LLMMessagesUpdateFrame upstream, to run the model
  update_vad_params : ℕ → Effect M  -- VADParamsUpdateFrame upstream, in milliseconds
  on_conversation_detected : List M → Effect M
  on_ivr_status_changed : Status → Effect M

pub record IvrProcessor (M : Type 0) : Type 0 where
  pub classifier_prompt : Text
  pub ivr_prompt : Text
  pub vad_stop : ℕ  -- IVRVADStopSecs, in milliseconds
  pub agg : Aggregator
  pub saved_messages : List M

module _ {M : Type 0} (system : Text → M) where
  unfoldable pub new_ivr_processor : Text → Text → ℕ → IvrProcessor M
  new_ivr_processor classifier_prompt ivr_prompt vad_stop = record {
    classifier_prompt = classifier_prompt;
    ivr_prompt = ivr_prompt;
    vad_stop = if leb vad_stop 0 then 2000 else vad_stop;
    agg = new_aggregator default_delim default_delim;
    saved_messages = [];
  }

  unfoldable pub set_saved_messages : List M → IvrProcessor M → IvrProcessor M
  set_saved_messages ms p = record p { saved_messages = ms }

  -- getConversationHistory: without the first message
  unfoldable pub conversation_history : IvrProcessor M → List M
  conversation_history p = drop 1 p.saved_messages

  unfoldable pub spaced : Text → Text
  spaced t = 32 ∷ (t ++ 32 ∷ [])

  -- handleDTMF
  unfoldable pub handle_dtmf : ℕ → Text → List (Effect M)
  handle_dtmf key content = elim (new_dtmf_frame (some key)) [
    | inl _ ↦ []
    | inr k ↦ output_dtmf k ∷ text_without_speech (spaced content) ∷ []
  ]

  unfoldable pub handle_ivr_detected : IvrProcessor M → List (Effect M)
  handle_ivr_detected p =
      update_messages (system p.ivr_prompt ∷ conversation_history p)
      ∷ update_vad_params p.vad_stop
      ∷ on_ivr_status_changed detected
      ∷ []

  unfoldable pub handle_ivr_status : Status → List (Effect M)
  handle_ivr_status status =
      text_without_speech (spaced (status_text status)) ∷ on_ivr_status_changed status ∷ []

  -- The commands that are no keys.
  unfoldable pub handle_word : Text → IvrProcessor M → List (Effect M)
  handle_word content p =
      if same_text content conversation_text
      then on_conversation_detected (conversation_history p) ∷ []
      else if same_text content ivr_text
      then handle_ivr_detected p
      else if same_text content (status_text detected)
      then handle_ivr_status detected
      else if same_text content (status_text completed)
      then handle_ivr_status completed
      else if same_text content (status_text stuck)
      then handle_ivr_status stuck
      else if same_text content (status_text wait)
      then handle_ivr_status wait
      else []

  unfoldable pub handle_match : Text → IvrProcessor M → List (Effect M)
  handle_match content p = elim (parse_keypad_entry content) [
    | inr key ↦ handle_dtmf key content
    | inl _ ↦ handle_word content p
  ]

  unfoldable pub handle_matches : List Text → IvrProcessor M → List (Effect M)
  handle_matches [] p = []
  handle_matches (m ∷ ms) p = handle_match (trim_space m) p ++ handle_matches ms p

  unfoldable pub push_texts : List Text → List (Effect M)
  push_texts [] = []
  push_texts (t ∷ ts) =
      let rest = push_texts ts in if is_blank t then rest else push_down (aggregated_text t) ∷ rest

  -- LLMFullResponseEndFrame and EndFrame
  unfoldable pub flush_then_forward : Content → IvrProcessor M → IvrProcessor M × List (Effect M)
  flush_then_forward f p =
      let (remaining, agg) = flush p.agg in
      (record p { agg = agg }, push_texts (remaining ∷ []) ++ push_down f ∷ [])

  -- ProcessFrame of a frame that goes down; `none` when Feed does not return.
  unfoldable pub process_frame :
      Content → IvrProcessor M → Option (IvrProcessor M × List (Effect M))
  process_frame (start b) p =
      some (p, push_down (start b) ∷ update_messages (system p.classifier_prompt ∷ []) ∷ [])
  process_frame (llm_text t) p = do
    fed ← feed t p.agg
    some
        (record p { agg = fed.aggregator }, push_texts fed.segments ++ handle_matches fed.matches p)
  process_frame llm_full_response_end p = some (flush_then_forward llm_full_response_end p)
  process_frame end_frame p = some (flush_then_forward end_frame p)
  process_frame f p = some (p, push_down f ∷ [])

-- ===== src/Processors/Aggregators/Summarizer.antt =====
-- pkg/processors/aggregators/llmcontextsummarizer/summarizer.go. A message is of any type, with what the
-- code asks of it: whether its role is "system", how many bytes of text it has, and the message that is
-- made of a summary. Of the numbers of Config that the code only compares with 0, 0 stands for the
-- negative ones too. An id is the text of a UUID, and not empty.
pub mod Requests
use voxray.Base.{
  ℕ, zero, suc, ◌+◌, ◌-◌, ◌/◌, String, Bool, true, false, not, ◌&&◌, ◌||◌, ◌==◌, Option, none, some,
  List, [], ◌∷◌, ◌++◌, length, drop, leb, ltb, if◌then◌else◌,
}
use text.Mathlib.Text.{◌==◌ as str_eq}

pub record Config : Type 0 where
  pub max_context_tokens : ℕ
  pub max_unsummarized_messages : ℕ
  pub min_messages_to_keep : ℕ
  pub target_context_tokens : ℕ
  pub summarization_timeout : ℕ
  pub auto_trigger : Bool

abbrev pub default_config : Config
default_config = record {
  max_context_tokens = 12000;
  max_unsummarized_messages = 20;
  min_messages_to_keep = 5;
  target_context_tokens = 2000;
  summarization_timeout = 60;
  auto_trigger = true;
}

-- LLMContextSummaryRequestFrame
pub record Request : Type 0 where
  pub request_id : String
  pub min_keep : ℕ
  pub target_tokens : ℕ
  pub timeout : ℕ

-- LLMContextSummaryResultFrame; the index `none` is a negative one.
pub record Summary : Type 0 where
  pub summary_id : String
  pub error_text : String
  pub last_summarized_index : Option ℕ
  pub summary : String

pub record Summarizer (M : Type 0) : Type 0 where
  pub messages : List M
  pub config : Config
  pub pending_request_id : String
  pub in_progress : Bool

-- The frames that the processor reacts to; all are forwarded. The response's start comes with the id
-- that is made if a summary is asked for.
pub data Input : Type 0 where
  response_starts : String → Input
  summary_result : Summary → Input
  interrupts : Input

module _ {M : Type 0} (is_system : M → Bool) (text_bytes : M → ℕ)
    (summary_message : String → M) where
  unfoldable pub new_summarizer : List M → Config → Summarizer M
  new_summarizer ms cfg = record {
    messages = ms;
    config =
        if (cfg.max_context_tokens == 0) && (cfg.max_unsummarized_messages == 0)
        then default_config
        else cfg;
    pending_request_id = "";
    in_progress = false;
  }

  unfoldable pub context_bytes : List M → ℕ
  context_bytes [] = 0
  context_bytes (m ∷ ms) = text_bytes m + context_bytes ms

  unfoldable pub estimate_context_tokens : List M → ℕ
  estimate_context_tokens ms = context_bytes ms / 4

  unfoldable pub should_summarize : Summarizer M → Bool
  should_summarize p =
      if p.in_progress
      then false
      else if leb 1 p.config.max_context_tokens
          && leb p.config.max_context_tokens (estimate_context_tokens p.messages)
      then true
      else leb 1 p.config.max_unsummarized_messages
        && leb p.config.max_unsummarized_messages (length p.messages)

  unfoldable pub request_summarization : String → Summarizer M → Summarizer M × List Request
  request_summarization id p = if p.in_progress then (p, []) else (
    record p { pending_request_id = id; in_progress = true },
    record {
      request_id = id;
      min_keep = p.config.min_messages_to_keep;
      target_tokens = p.config.target_context_tokens;
      timeout = if leb p.config.summarization_timeout 0 then 60 else p.config.summarization_timeout;
    }
        ∷ [],
  )

  -- The first system message, if there is one.
  unfoldable pub first_system : List M → List M
  first_system [] = []
  first_system (m ∷ ms) = let rest = first_system ms in if is_system m then m ∷ [] else rest

  unfoldable pub apply_summary : String → ℕ → ℕ → List M → List M
  apply_summary summary last min_keep ms =
      if leb (length ms) last
      then ms
      else if ltb (length ms - 1 - last) min_keep
      then ms
      else first_system ms ++ (summary_message summary ∷ drop (last + 1) ms)

  unfoldable pub apply_result : Summary → Option ℕ → List M → ℕ → List M
  apply_result t none ms min_keep = ms
  apply_result t (some last) ms min_keep =
      if not (str_eq t.error_text "") then ms else apply_summary t.summary last min_keep ms

  unfoldable pub handle_summary_result : Summary → Summarizer M → Summarizer M
  handle_summary_result t p =
      if not (str_eq t.summary_id p.pending_request_id) then p else record p {
        messages = apply_result t t.last_summarized_index p.messages p.config.min_messages_to_keep;
        pending_request_id = "";
        in_progress = false;
      }

  -- ProcessFrame of a frame that goes down: the state, and the requests pushed.
  unfoldable pub process_frame : Input → Summarizer M → Summarizer M × List Request
  process_frame (response_starts id) p =
      if p.config.auto_trigger && should_summarize p then request_summarization id p else (p, [])
  process_frame (summary_result t) p = (handle_summary_result t p, [])
  process_frame interrupts p = (record p { pending_request_id = ""; in_progress = false }, [])

-- ===== src/Tests/Texts.antt =====
-- The aggregators, the wake phrase filter and the summarizer at concrete texts.
use voxray.Processors.Filters.WakeCheck.{first_match}
use voxray.Processors.Filters.WakeCheck.{matched}
use voxray.Processors.Filters.WakeCheck.{hear}
use voxray.Processors.Filters.WakeCheck.{forwarded}
use voxray.Base.{
  ℕ, true, false, Bool, String, Option, none, some, List, [], ◌∷◌, ◌++◌, ◌≡◌, refl, ◌+◌, length,
  if◌then◌else◌, arith, arith,
}
use voxray.Texts.{has_text, has_char, starts_with, trim_left, trim_right, is_space, is_blank}
use voxray.Frames.{Text, Content, llm_full_response_end, aggregated_text}
use voxray.Utils.Patterns.{Fed, new_aggregator, feed}
use voxray.Utils.Patterns.Pieces.{IsCut}
use voxray.Utils.Patterns.Loops.{feed-pieces}
use voxray.Utils.Sentences.Chunks.{unlimited, sentences}
use voxray.Processors.Aggregators.LlmText.Tokens.{tokens, response-sentences, joined}
use voxray.Processors.Aggregators.LlmText.Tokens
use voxray.Processors.Aggregators.UserResponse.Words.{Transcript}
use voxray.Processors.Aggregators.Summarizer.{
  Summarizer, Input, response_starts, interrupts, default_config,
}
use voxray.Processors.Aggregators.Summarizer.Requests.{waiting, run-one_request}
use voxray.Processors.Aggregators.Summarizer.Requests
use voxray.Processors.Filters.WakeCheck.{Participants, new_participant}
use voxray.Processors.Filters.WakeCheck.Participants.{
  Heard, run, run_one, spoken_by, participants_apart,
}

-- A text around a command between brackets.
abbrev bracketed : Text
bracketed = 97 ∷ 40 ∷ 49 ∷ 41 ∷ 98 ∷ []

feed-pieces_example :
    (r : Fed) × ((feed bracketed (new_aggregator (40 ∷ []) (41 ∷ [])) ≡ some r)
      × IsCut (record { open_delim = 40 ∷ []; close_delim = 41 ∷ []; buf = bracketed }) r)
unfolding new_aggregator
feed-pieces_example = feed-pieces bracketed (new_aggregator (40 ∷ []) (41 ∷ [])) (omega arith)

abbrev accepting : Content → Bool
accepting f = false

-- "Hi. Y" and "o" are a sentence and a rest.
response-sentences_example :
    (Tokens.run accepting
      (tokens ((72 ∷ 105 ∷ 46 ∷ 32 ∷ 89 ∷ []) ∷ (111 ∷ []) ∷ []) ++ llm_full_response_end ∷ [])
      (unlimited (46 ∷ []) [])).1
    ≡ aggregated_text (72 ∷ 105 ∷ 46 ∷ [])
      ∷ aggregated_text (89 ∷ 111 ∷ [])
      ∷ llm_full_response_end
      ∷ []
unfolding sentences joined has_char trim_left trim_right is_space is_blank
response-sentences_example =
    response-sentences accepting (λ f. refl) (72 ∷ 105 ∷ 46 ∷ 32 ∷ 89 ∷ []) ((111 ∷ []) ∷ [])
      (46 ∷ [])

abbrev transcripts : List Transcript
transcripts = ("u", (104 ∷ 105 ∷ 32 ∷ [], false)) ∷ ("u", (121 ∷ 111 ∷ [], true)) ∷ []

abbrev everyone_idle : Participants
everyone_idle user = new_participant

abbrev wakes : Text → Option ℕ
wakes t = if has_text (104 ∷ 105 ∷ []) t then some 2 else none

abbrev conversation : List Heard
conversation =
    record { now = 1; user = "a"; said = 104 ∷ 105 ∷ 33 ∷ []; final = true }
    ∷ record { now = 2; user = "b"; said = 111 ∷ []; final = true }
    ∷ record { now = 3; user = "a"; said = 111 ∷ []; final = true }
    ∷ []

participants_apart_example :
    spoken_by (wakes ∷ []) 10 "b" (run (wakes ∷ []) 10 conversation everyone_idle).1 ≡ []
unfolding run_one forwarded hear matched first_match has_text starts_with
participants_apart_example = (participants_apart (wakes ∷ []) 10 "b" conversation everyone_idle).1

abbrev no_system : Text → Bool
no_system m = false

abbrev bytes : Text → ℕ
bytes m = length m

abbrev summarised : String → Text
summarised s = []

abbrev long_context : Summarizer Text
long_context = record {
  messages = [] ∷ [] ∷ [];
  config = record default_config { max_unsummarized_messages = 2 };
  pending_request_id = "";
  in_progress = false;
}

abbrev starts : List Input
starts = response_starts "1" ∷ response_starts "2" ∷ interrupts ∷ response_starts "3" ∷ []

run-one_request_example :
    let (q, (sent, settled)) = Requests.run no_system bytes summarised starts long_context in
    waiting no_system bytes summarised long_context + length sent
    ≡ settled + waiting no_system bytes summarised q
run-one_request_example = run-one_request no_system bytes summarised starts long_context

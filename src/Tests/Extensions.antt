-- ===== src/Tests/Extensions.antt =====
-- pkg/extensions and pkg/frames/dtmf.go at concrete frames.
use voxray.Texts.{
  has_text, has_char, starts_with, same_text, trim_left, trim_right, is_space, is_blank,
}
use voxray.Extensions.Voicemail.Gating.{speech}
use voxray.Base.{true, some, List, [], ◌∷◌, ◌++◌, ◌≡◌, inl, inr, refl}
use voxray.Frames.{
  Text, Frame, Content, text, tts_audio_raw, bot_started_speaking, llm_text,
  llm_full_response_start, llm_full_response_end,
}
use voxray.Frames.Keypad.{
  parse_keypad_entry, all_keys, parse_keypad_entry-key, first_invalid, entry_of, invalid_character,
}
use voxray.Utils.Patterns.{
  new_aggregator, feed, feed_loop, find_substring, feed_text, safe_length_from, segment,
}
use voxray.Extensions.Voicemail.{conversation, new_tts_gate, setup_tts_gate, is_tts_frame}
use voxray.Extensions.Voicemail.Gating.{
  received, signalled, undisturbed, run, decision, late_frame_lost, without_speech, frames_of,
  released,
}
use voxray.Extensions.Voicemail.Classification.{notify_gate, notify_voicemail, new_classifier}
use voxray.Extensions.Voicemail.Classification.Decisions.{
  notified, run-first_verdict, first_verdict, verdict, any_effect,
}
use voxray.Extensions.Voicemail.Classification.Decisions
use voxray.Extensions.Ivr.{
  IvrProcessor, Effect, new_ivr_processor, set_saved_messages, default_delim,
}
use voxray.Extensions.Ivr.Histories.{new_ivr_processor-answers}
use voxray.Extensions.Ivr.Histories

abbrev utterance : Frame
utterance = record { id = 1; content = bot_started_speaking }

abbrev sound : Frame
sound = record { id = 2; content = tts_audio_raw (1 ∷ []) }

abbrev note : Frame
note = record { id = 3; content = text (104 ∷ []) }

decision_example :
    (run
      (undisturbed (utterance ∷ note ∷ sound ∷ [])
        ++ signalled conversation ∷ received note [] ∷ [])
      (setup_tts_gate new_tts_gate)).1
    ≡ note ∷ utterance ∷ sound ∷ note ∷ []
unfolding without_speech speech released frames_of is_tts_frame
decision_example = decision (utterance ∷ note ∷ sound ∷ []) conversation (received note [] ∷ [])

late_frame_lost_example :
    (run (received sound (conversation ∷ []) ∷ received note [] ∷ []) (record {
      buf = utterance ∷ [];
      gating_active = true;
      conv_waiting = true;
      vm_waiting = true;
    })).1
    ≡ utterance ∷ note ∷ []
unfolding frames_of is_tts_frame
late_frame_lost_example =
    late_frame_lost sound (received note [] ∷ [])
      (record {
        buf = utterance ∷ [];
        gating_active = true;
        conv_waiting = true;
        vm_waiting = true;
      })
      refl refl refl

abbrev same_case : Text → Text
same_case t = t

abbrev answer : List Content
answer =
    llm_full_response_start
    ∷ llm_text (32 ∷ 86 ∷ 79 ∷ 73 ∷ 67 ∷ [])
    ∷ llm_text (69 ∷ 77 ∷ 65 ∷ 73 ∷ 76 ∷ [])
    ∷ llm_full_response_end
    ∷ []

run-first_verdict_example :
    notified (Decisions.run same_case answer new_classifier).1 ≡ notify_gate ∷ notify_voicemail ∷ []
unfolding first_verdict verdict any_effect has_text starts_with trim_left trim_right is_space
    is_blank
run-first_verdict_example = run-first_verdict same_case answer new_classifier refl

parse_keypad_entry-key_example : parse_keypad_entry (32 ∷ 49 ∷ 50 ∷ []) ≡ inr 49
unfolding all_keys has_char trim_left trim_right is_space is_blank
parse_keypad_entry-key_example =
    (parse_keypad_entry-key (32 ∷ 49 ∷ 50 ∷ []) 49).1 (50 ∷ [], (refl, refl))

-- Digits with spaces between them, as the prompt asks for them, are no keypad entry.
spaced_digits : parse_keypad_entry (49 ∷ 32 ∷ 50 ∷ []) ≡ inl (invalid_character 32)
unfolding parse_keypad_entry first_invalid entry_of has_char trim_left trim_right is_space is_blank
spaced_digits = refl

abbrev prompt_text : Text → Text
prompt_text t = t

new_ivr_processor-answers_example :
    (r : IvrProcessor Text × List (Effect Text)) × (Histories.run prompt_text
        (llm_text (96 ∷ 32 ∷ 49 ∷ 32 ∷ 96 ∷ []) ∷ llm_full_response_end ∷ [])
        (set_saved_messages prompt_text [] (new_ivr_processor prompt_text [] [] 0))
      ≡ some r)
new_ivr_processor-answers_example =
    new_ivr_processor-answers prompt_text [] [] 0 []
      (llm_text (96 ∷ 32 ∷ 49 ∷ 32 ∷ 96 ∷ []) ∷ llm_full_response_end ∷ [])

-- A command in the form that the prompt asks for is not taken out of the text.
unspaced_command :
    feed (96 ∷ 32 ∷ 49 ∷ 32 ∷ 96 ∷ []) (new_aggregator default_delim default_delim)
    ≡ some (record {
      segments = (96 ∷ 32 ∷ 49 ∷ []) ∷ [];
      matches = [];
      aggregator = record {
        open_delim = default_delim;
        close_delim = default_delim;
        buf = 32 ∷ 96 ∷ [];
      };
    })
unfolding feed feed_loop find_substring starts_with feed_text safe_length_from same_text segment
    new_aggregator
unspaced_command = refl

-- ===== src/Tests/Interruption.antt =====
-- pkg/processors/voice/interruption_controller.go at a concrete conversation.
use voxray.Base.{◌+◌, ◌≤◌, true, false, some, List, [], ◌∷◌, ◌≡◌, refl, arith}
use voxray.Frames.{Content, downstream, start, bot_started_speaking, transcription}
use voxray.Audio.Interruptions.{MinWordsStrategy, min_words_strategy}
use voxray.Processors.Interruption.{InterruptionController}
use voxray.Processors.Interruption.Words.{Input, run, word_counter, counted, run-word_counter}
use voxray.Processors.Interruption.Budget.{sent, budget, received, bot_turns, once_per_bot_turn}
use voxray.Processors.Interruption.Threshold.{Utterance}

abbrev two_words : MinWordsStrategy
two_words = record { min_words = 2; buf = [] }

abbrev fresh : InterruptionController MinWordsStrategy
fresh = record {
  heard = some two_words;
  allow_interruptions = false;
  bot_speaking = false;
  interruption_sent = false;
}

abbrev input : Content → Input
input f = record { dir = downstream; content = f }

-- "no", then "a b"
abbrev conversation : List Input
conversation =
    input (start true)
    ∷ input bot_started_speaking
    ∷ input (transcription "u" (110 ∷ 111 ∷ []) true)
    ∷ input (transcription "u" (97 ∷ 32 ∷ 98 ∷ []) true)
    ∷ []

run-word_counter_example : run (word_counter 2) conversation (counted fresh) ≡ (
  counted (run min_words_strategy conversation fresh).0,
  (run min_words_strategy conversation fresh).1,
)
run-word_counter_example = run-word_counter 2 (omega arith) conversation fresh refl

once_per_bot_turn_example :
    sent (run min_words_strategy conversation fresh).1
    ≤ budget fresh + received conversation + bot_turns conversation
once_per_bot_turn_example = once_per_bot_turn min_words_strategy conversation fresh

abbrev said : List Utterance
said = record { text = 110 ∷ 111 ∷ []; final = true } ∷ record { text = 97 ∷ []; final = true } ∷ []

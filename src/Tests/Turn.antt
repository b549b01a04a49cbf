-- ===== src/Tests/Turn.antt =====
-- pkg/audio/turn and the turn processor at concrete histories.
use voxray.Base.{
  ℕ, true, false, Bool, none, some, List, [], ◌∷◌, ◌++◌, ◌≡◌, refl, ◌+◌, leb, if◌then◌else◌,
}
use voxray.Audio.Pcm.{Bytes}
use voxray.Frames.{
  Content, user_started_speaking, user_stopped_speaking, user_idle, downstream, audio_raw,
}
use voxray.Turn.Controller.{
  Event, vad_update, aside, bot_started, bot_stopped, stop_timeout, idle_timeout,
  vad_start_strategy, silence_stop_strategy, handle, handle_aside, process_vad_update, meanwhile,
  handle_all, new_controller,
}
use voxray.Turn.Alternation.{
  follow, idle_at_start, has_idle_timeout, is_idle_timeout, follow-handle_all,
  stop_timeout_never_stops,
}
use voxray.Turn.Silence.{incomplete, complete, SilenceAnalyzer, new_analyzer_with_sample_rate}
use voxray.Turn.Pauses.{Arrival}
use voxray.Turn.Processor.{Detector, TurnAnalyzer, TurnProcessor}
use voxray.Turn.Audio
use voxray.Turn.Audio.{Input, given, pushed_audio, audio_conserved}
use voxray.Tests.Toy.{toy}

abbrev accept : Content → Bool
accept f = false

-- The idle timer fires while the start of speech is being pushed.
abbrev call : List Event
call =
    aside bot_started
    ∷ aside bot_stopped
    ∷ vad_update true (idle_timeout ∷ [])
    ∷ vad_update true []
    ∷ vad_update false (bot_stopped ∷ stop_timeout ∷ [])
    ∷ aside idle_timeout
    ∷ []

call_frames :
    (handle_all vad_start_strategy silence_stop_strategy
      (some accept)
      call
      (new_controller false false true true)).1
    ≡ user_started_speaking ∷ user_idle ∷ user_stopped_speaking ∷ user_idle ∷ []
unfolding handle_all handle process_vad_update handle_aside meanwhile
call_frames = refl

follow-handle_all_example :
    follow true false
      (handle_all vad_start_strategy silence_stop_strategy
        (some accept)
        call
        (new_controller false false true true)).1
    ≡ some
        (handle_all vad_start_strategy silence_stop_strategy
          (some accept)
          call
          (new_controller false false true true)).0.user_speaking
unfolding idle_at_start has_idle_timeout is_idle_timeout
follow-handle_all_example =
    follow-handle_all accept (λ f. refl) call (new_controller false false true true)
      (record { turn_is_speech = refl; start_reset = refl; no_idle_in_speech = λ h. refl })

stop_timeout_never_stops_example :
    (handle_aside vad_start_strategy silence_stop_strategy
      (some accept)
      stop_timeout
      (handle_all vad_start_strategy silence_stop_strategy
        (some accept)
        call
        (new_controller false false true true)).0).pushed
    ≡ []
stop_timeout_never_stops_example = stop_timeout_never_stops accept (λ f. refl) true true call

-- Chunks of 10 ms at 1 kHz, and a stop time of 30 ms.
abbrev chunk : Bytes
chunk = 1 ∷ 1 ∷ 1 ∷ 1 ∷ 1 ∷ 1 ∷ 1 ∷ 1 ∷ 1 ∷ 1 ∷ 1 ∷ 1 ∷ 1 ∷ 1 ∷ 1 ∷ 1 ∷ 1 ∷ 1 ∷ 1 ∷ 1 ∷ []

abbrev pause : Arrival
pause = record { now = 5; bytes = chunk; is_speech = false }

abbrev idle : SilenceAnalyzer ℕ
idle =
    record (new_analyzer_with_sample_rate toy
      (record { stop_secs = 3; pre_speech_ms = 0; max_duration_secs = 0 }) 1000) {
        speech_triggered = false;
      }

abbrev heard : SilenceAnalyzer ℕ
heard = record idle { speech_triggered = true }

abbrev ears : Detector ℕ
ears = record { is_speech = λ b n. (n + 1, some (leb n 1)) }

abbrev counting : TurnAnalyzer ℕ
counting = record {
  append_audio = λ b speech n. (n + 1, if speech then incomplete else complete);
  speech_triggered = λ n. leb 1 n;
  clear = λ n. 0;
  update_stop = λ s n. n;
  update_vad_start = λ s n. n;
}

abbrev processor : TurnProcessor ℕ ℕ
processor = record {
  vad = 0;
  analyzer = 0;
  buffer = [];
  use_async = true;
  pending = false;
  controller = new_controller false false true false;
}

abbrev say : ℕ → Input
say n = record { dir = downstream; content = audio_raw (n ∷ (n + 1) ∷ []); poll = none }

audio_conserved_example :
    pushed_audio (Audio.run ears counting accept (say 1 ∷ say 3 ∷ say 5 ∷ say 7 ∷ []) processor).1
      ++ (Audio.run ears counting accept (say 1 ∷ say 3 ∷ say 5 ∷ say 7 ∷ []) processor).0.buffer
    ≡ given (say 1 ∷ say 3 ∷ say 5 ∷ say 7 ∷ [])
audio_conserved_example =
    audio_conserved ears counting accept (say 1 ∷ say 3 ∷ say 5 ∷ say 7 ∷ []) processor
      (tt, (tt, (tt, (tt, tt))))

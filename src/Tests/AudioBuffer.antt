-- ===== src/Tests/AudioBuffer.antt =====
-- pkg/processors/audio at concrete recordings.
use voxray.Base.{ℕ, false, true, List, [], ◌∷◌, ◌≡◌, refl}
use voxray.Audio.Pcm.{Bytes}
use voxray.Audio.Mix.{interleave_samples, interleave_stereo, next_bytes, zeros}
use voxray.Frames.{downstream, upstream}
use voxray.Processors.AudioBuffer.{
  AudioBuffer, new_audio_buffer, start, end_frame, audio_raw, tts_audio_raw, audio_data,
  user_started, user_stopped, track_audio_data, user_turn_audio_data, is_full, prepare,
  start_recording, reset, record_frame, deliver_full, record_user, add_user_audio, add_user_turn,
  sync_buffer_to_position, process_output_audio, add_bot_audio, stop_user, stop_recording,
  call_audio_data_handlers, align_track_buffers, merge_buffers, track_calls, process_frame,
}
use voxray.Processors.AudioBuffer.Calls.{all_sound}
use voxray.Processors.AudioBuffer.Tracks.{step, Step, record_on, record_off, take, run, run-tracks}

-- A resampler that keeps the audio as it is.
abbrev copies : Bytes → ℕ → ℕ → Bytes
copies audio from to = audio

abbrev recorder : AudioBuffer
recorder = record (new_audio_buffer 0 2 6 true) {
  on_audio_data = true;
  on_track_audio_data = true;
  on_user_turn_audio_data = true;
}

-- Audio that comes while a neighbour fails, or before the recording, is not kept.
abbrev steps : List Step
steps =
    take false (audio_raw (9 ∷ 9 ∷ []) 0) downstream
    ∷ record_on
    ∷ take false (start 8000) downstream
    ∷ take false user_started downstream
    ∷ take false (audio_raw (1 ∷ 2 ∷ 3 ∷ 4 ∷ []) 8000) downstream
    ∷ take true (audio_raw (9 ∷ 9 ∷ []) 8000) downstream
    ∷ take false (tts_audio_raw (5 ∷ 6 ∷ []) 8000) downstream
    ∷ take false (audio_raw (7 ∷ 8 ∷ []) 8000) upstream
    ∷ take false user_stopped downstream
    ∷ take false end_frame downstream
    ∷ record_off
    ∷ []

calls_made :
    (run copies steps recorder).1
    ≡ user_turn_audio_data (1 ∷ 2 ∷ 3 ∷ 4 ∷ []) 8000 1
      ∷ audio_data (1 ∷ 2 ∷ 5 ∷ 6 ∷ 3 ∷ 4 ∷ 0 ∷ 0 ∷ []) 8000 2
      ∷ track_audio_data (1 ∷ 2 ∷ 3 ∷ 4 ∷ []) (5 ∷ 6 ∷ 0 ∷ 0 ∷ []) 8000 2
      ∷ []
unfolding run step process_frame prepare start_recording reset record_frame deliver_full is_full
    record_user add_user_audio add_user_turn sync_buffer_to_position process_output_audio
    add_bot_audio stop_user stop_recording call_audio_data_handlers interleave_samples
    interleave_stereo next_bytes zeros align_track_buffers merge_buffers track_calls
calls_made = refl

run-tracks_example :
    (is_full (run copies steps recorder).0 ≡ false)
    × (all_sound (run copies steps recorder).1 ≡ true)
unfolding is_full
run-tracks_example = run-tracks copies steps recorder refl

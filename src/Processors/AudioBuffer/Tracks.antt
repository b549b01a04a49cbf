-- ===== src/Processors/AudioBuffer/Tracks.antt =====
-- The tracks that the audio buffer hands over, and how long they get.
use voxray.Base.{
  ℕ, Bool, true, false, not, ◌&&◌, ◌||◌, List, [], ◌∷◌, ◌++◌, length, ◌≡◌, inl, inr, refl, ◌∙◌,
  ◌==◌, arith, Bool-cases,
}
use voxray.Audio.Pcm.{Bytes}
use voxray.Frames.{Direction, downstream, upstream}
use voxray.Processors.AudioBuffer.{
  Input, Call, AudioBuffer, start, cancel, end_frame, audio_raw, tts_audio_raw, output_audio_raw,
  user_started, user_stopped, bot_started, bot_stopped, other, reset, start_recording,
  call_audio_data_handlers, stop_recording, prepare, add_user_turn, add_user_audio, add_bot_audio,
  stop_user, stop_bot, is_full, deliver_full, positive_or, record_user, process_output_audio,
  record_frame, process_frame,
}
use voxray.Processors.AudioBuffer.Calls.{
  all_sound, all_sound-append, stop_recording_sound, prepare_sound, deliver_full_sound,
  stop_user_sound, stop_bot_sound,
}

-- While recording, both buffers are empty after the handlers.
handlers_empty :
    (p : AudioBuffer)
    → p.recording ≡ true
    → (length (call_audio_data_handlers p).0.user_buffer ≡ 0)
      × (length (call_audio_data_handlers p).0.bot_buffer ≡ 0)
unfolding call_audio_data_handlers
handlers_empty p on =
    rw on (elim (Bool-cases (length p.user_buffer == 0 && length p.bot_buffer == 0)) [
      | inl none ↦ rw none (ground (arith, none))
      | inr some ↦ rw some (refl, refl)
    ])

empty_short :
    (p : AudioBuffer) → length p.user_buffer ≡ 0 → length p.bot_buffer ≡ 0 → is_full p ≡ false
unfolding is_full
empty_short p hu hb = ground arith

deliver_full_short :
    (p : AudioBuffer) (calls : List Call)
    → p.recording ≡ true
    → is_full (deliver_full (p, calls)).0 ≡ false
unfolding deliver_full
deliver_full_short p calls on =
    let (hu, hb) = handlers_empty p on in
    elim (Bool-cases (is_full p)) [
      | inl full ↦ rw full (empty_short (call_audio_data_handlers p).0 hu hb)
      | inr short ↦ rw short short
    ]

reset_short : (on : Bool) (p : AudioBuffer) → is_full (reset on p) ≡ false
unfolding reset
reset_short on p = empty_short (reset on p) refl refl

stop_recording_short : (p : AudioBuffer) → is_full p ≡ false → is_full (stop_recording p).0 ≡ false
unfolding stop_recording
stop_recording_short p h = ground (arith, h, reset_short false (call_audio_data_handlers p).0)

prepare_short : (f : Input) (p : AudioBuffer) → is_full p ≡ false → is_full (prepare f p).0 ≡ false
unfolding prepare is_full
prepare_short (start _) p h = h
prepare_short cancel p h = stop_recording_short p h
prepare_short end_frame p h = stop_recording_short p h
prepare_short (audio_raw _ _) p h = h
prepare_short (tts_audio_raw _ _) p h = h
prepare_short (output_audio_raw _ _) p h = h
prepare_short user_started p h = h
prepare_short user_stopped p h = h
prepare_short bot_started p h = h
prepare_short bot_stopped p h = h
prepare_short other p h = h

add_user_audio-recording :
    (audio : Bytes) (p : AudioBuffer) → (add_user_audio audio p).recording ≡ p.recording
unfolding add_user_audio add_user_turn
add_user_audio-recording audio p = ground arith

-- StartRecording, StopRecording, or a frame, with whether the next processor fails on it.
pub data Step : Type 0 where
  record_on record_off : Step
  take : Bool → Input → Direction → Step

module _ (resample : Bytes → ℕ → ℕ → Bytes) where
  abbrev IsGood : AudioBuffer × List Call → Type 0
  IsGood (p, calls) = (is_full p ≡ false) × (all_sound calls ≡ true)

  deliver_full-IsGood :
      (p : AudioBuffer) (calls : List Call)
      → p.recording ≡ true
      → all_sound calls ≡ true
      → IsGood (deliver_full (p, calls))
  deliver_full-IsGood p calls on h = (deliver_full_short p calls on, deliver_full_sound p calls h)

  record_user-IsGood :
      (audio : Bytes) (rate : ℕ) (p : AudioBuffer)
      → p.recording ≡ true
      → is_full p ≡ false
      → IsGood (record_user resample audio rate p)
  unfolding record_user all_sound
  record_user-IsGood audio rate p on short =
      let resampled = resample audio (positive_or 16000 rate) p.sample_rate in
      elim (Bool-cases (length audio == 0 || length resampled == 0)) [
        | inl none ↦ rw none (short, refl)
        | inr some ↦ rw some (
            deliver_full-IsGood (add_user_audio resampled p) []
              (add_user_audio-recording resampled p ∙ on) refl)
      ]

  process_output_audio-recording :
      (audio : Bytes) (rate : ℕ) (p : AudioBuffer)
      → (process_output_audio resample audio rate p).recording ≡ p.recording
  unfolding process_output_audio add_bot_audio
  process_output_audio-recording audio rate p = ground arith

  record_frame-IsGood :
      (f : Input) (p : AudioBuffer)
      → p.recording ≡ true
      → is_full p ≡ false
      → IsGood (record_frame resample f p)
  unfolding record_frame stop_user stop_bot all_sound
  record_frame-IsGood (audio_raw audio rate) p on short = record_user-IsGood audio rate p on short
  record_frame-IsGood (tts_audio_raw audio rate) p on short =
      deliver_full-IsGood (process_output_audio resample audio rate p) []
        (process_output_audio-recording audio rate p ∙ on) refl
  record_frame-IsGood (output_audio_raw audio rate) p on short =
      deliver_full-IsGood (process_output_audio resample audio rate p) []
        (process_output_audio-recording audio rate p ∙ on) refl
  record_frame-IsGood user_started p on short =
      deliver_full-IsGood (record p { user_speaking = true }) [] on refl
  record_frame-IsGood user_stopped p on short =
      deliver_full-IsGood (stop_user p).0 (stop_user p).1 on (stop_user_sound p)
  record_frame-IsGood bot_started p on short =
      deliver_full-IsGood (record p { bot_speaking = true }) [] on refl
  record_frame-IsGood bot_stopped p on short =
      deliver_full-IsGood (stop_bot p).0 (stop_bot p).1 on (stop_bot_sound p)
  record_frame-IsGood _ p on short = deliver_full-IsGood p [] on refl

  process_frame-IsGood :
      (failed : Bool) (f : Input) (dir : Direction) (p : AudioBuffer)
      → is_full p ≡ false
      → IsGood (process_frame resample failed f dir p)
  unfolding process_frame all_sound
  process_frame-IsGood failed f upstream p short = (short, refl)
  process_frame-IsGood failed f downstream p short =
      let q = (prepare f p).0 in
      let calls = (prepare f p).1 in
      let q_short : is_full q ≡ false = prepare_short f p short in
      elim (Bool-cases (failed || not q.recording)) [
        | inl ends ↦ rw ends (q_short, prepare_sound f p)
        | inr goes ↦
            let (r_short, more) = record_frame-IsGood f q (ground (arith, goes)) q_short in
            rw goes (
              r_short,
              all_sound-append calls (record_frame resample f q).1 (prepare_sound f p) more,
            )
      ]

  unfoldable pub step : Step → AudioBuffer → AudioBuffer × List Call
  step record_on p = (start_recording p, [])
  step record_off p = stop_recording p
  step (take failed f dir) p = process_frame resample failed f dir p

  step-IsGood : (s : Step) (p : AudioBuffer) → is_full p ≡ false → IsGood (step s p)
  unfolding step start_recording all_sound
  step-IsGood record_on p h = (reset_short true p, refl)
  step-IsGood record_off p h = (stop_recording_short p h, stop_recording_sound p)
  step-IsGood (take failed f dir) p h = process_frame-IsGood failed f dir p h

  unfoldable pub run : List Step → AudioBuffer → AudioBuffer × List Call
  run [] p = (p, [])
  run (s ∷ steps) p = let (q, calls) = step s p in let (r, more) = run steps q in (r, calls ++ more)

  -- From a state in which no track's buffer has reached the limit that is set, through recordings
  -- started and stopped and frames in any order, whichever frames the next processor fails on and
  -- however audio is resampled: no track's buffer has reached it in the end, no callback was given
  -- empty audio, and the two tracks of each call were of the same length.
  pub run-tracks :
      (steps : List Step) (p : AudioBuffer)
      → is_full p ≡ false
      → (is_full (run steps p).0 ≡ false) × (all_sound (run steps p).1 ≡ true)
  unfolding run all_sound
  run-tracks [] p h = (h, refl)
  run-tracks (s ∷ steps) p h =
      let (short, sound) = step-IsGood s p h in
      let (end_short, rest) = run-tracks steps (step s p).0 short in
      (end_short, all_sound-append (step s p).1 (run steps (step s p).0).1 sound rest)

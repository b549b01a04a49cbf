-- ===== src/Processors/AudioBuffer.antt =====
-- pkg/processors/audio/audio_buffer_processor.go. The callbacks that are set are Booleans, and a step
-- returns the calls made of them. Resample16MonoAlloc, whose samples are float64, is an argument, so
-- that what is proved holds of any resampler; so is whether the next processor fails. A rate or a size
-- that is not positive is 0.
pub mod Calls
pub mod Tracks
use voxray.Base.{
  ℕ, ◌-◌, ◌*◌, Bool, true, false, not, ◌&&◌, ◌||◌, List, [], ◌∷◌, ◌++◌, length, drop, leb, ltb,
  ◌==◌, if◌then◌else◌,
}
use voxray.Audio.Pcm.{Bytes}
use voxray.Audio.Mix.{mix_mono, interleave_stereo, zeros}
use voxray.Frames.{Direction, downstream, upstream}

-- The frames that the processor tells apart; audio comes with its rate.
pub data Input : Type 0 where
  start : ℕ → Input  -- AudioOutSampleRate
  cancel end_frame : Input
  audio_raw tts_audio_raw output_audio_raw : Bytes → ℕ → Input
  user_started user_stopped bot_started bot_stopped other : Input

-- A callback with its arguments, the rate and the number of channels last.
pub data Call : Type 0 where
  audio_data : Bytes → ℕ → ℕ → Call
  track_audio_data : Bytes → Bytes → ℕ → ℕ → Call
  user_turn_audio_data bot_turn_audio_data : Bytes → ℕ → ℕ → Call

pub record AudioBuffer : Type 0 where
  pub config_rate : ℕ  -- SampleRate
  pub num_channels : ℕ
  pub buffer_size : ℕ
  pub enable_turn_audio : Bool
  pub on_audio_data : Bool
  pub on_track_audio_data : Bool
  pub on_user_turn_audio_data : Bool
  pub on_bot_turn_audio_data : Bool
  pub sample_rate : ℕ
  pub buffer_size_1s : ℕ
  pub recording : Bool
  pub user_buffer : Bytes
  pub bot_buffer : Bytes
  pub user_turn_buffer : Bytes
  pub bot_turn_buffer : Bytes
  pub user_speaking : Bool
  pub bot_speaking : Bool

abbrev pub positive_or : ℕ → ℕ → ℕ
positive_or default n = if leb 1 n then n else default

-- NewAudioBufferProcessor, which sets no callback.
abbrev pub new_audio_buffer : ℕ → ℕ → ℕ → Bool → AudioBuffer
new_audio_buffer rate channels size turns = record {
  config_rate = rate;
  num_channels = positive_or 1 channels;
  buffer_size = size;
  enable_turn_audio = turns;
  on_audio_data = false;
  on_track_audio_data = false;
  on_user_turn_audio_data = false;
  on_bot_turn_audio_data = false;
  sample_rate = 0;
  buffer_size_1s = 0;
  recording = false;
  user_buffer = [];
  bot_buffer = [];
  user_turn_buffer = [];
  bot_turn_buffer = [];
  user_speaking = false;
  bot_speaking = false;
}

-- What StartRecording and StopRecording both do.
unfoldable pub reset : Bool → AudioBuffer → AudioBuffer
reset on p = record p {
  recording = on;
  user_buffer = [];
  bot_buffer = [];
  user_turn_buffer = [];
  bot_turn_buffer = [];
}

unfoldable pub start_recording : AudioBuffer → AudioBuffer
start_recording p = reset true p

unfoldable pub sync_buffer_to_position : Bytes → ℕ → Bytes
sync_buffer_to_position buf target =
    if leb target (length buf) then buf else buf ++ zeros (target - length buf)

unfoldable pub merge_buffers : AudioBuffer → Bytes
merge_buffers p =
    if p.num_channels == 1
    then mix_mono p.user_buffer p.bot_buffer
    else if p.num_channels == 2
    then interleave_stereo p.user_buffer p.bot_buffer
    else []

unfoldable pub align_track_buffers : AudioBuffer → AudioBuffer
align_track_buffers p =
    let user_len = length p.user_buffer in
    let bot_len = length p.bot_buffer in
    let target = if ltb user_len bot_len then bot_len else user_len in
    if user_len == bot_len then p else record p {
      user_buffer = sync_buffer_to_position p.user_buffer target;
      bot_buffer = sync_buffer_to_position p.bot_buffer target;
    }

-- The calls of callAudioDataHandlers, of the aligned tracks.
unfoldable pub track_calls : AudioBuffer → List Call
track_calls p =
    let merged = merge_buffers p in
    (if leb 1 (length merged) && p.on_audio_data
      then audio_data merged p.sample_rate p.num_channels ∷ []
      else [])
    ++ (if p.on_track_audio_data
        then track_audio_data p.user_buffer p.bot_buffer p.sample_rate p.num_channels ∷ []
        else [])

unfoldable pub call_audio_data_handlers : AudioBuffer → AudioBuffer × List Call
call_audio_data_handlers p =
    if not p.recording || (length p.user_buffer == 0 && length p.bot_buffer == 0)
    then (p, [])
    else let q = align_track_buffers p in
      (record q { user_buffer = []; bot_buffer = [] }, track_calls q)

unfoldable pub stop_recording : AudioBuffer → AudioBuffer × List Call
stop_recording p =
    if p.recording
    then (let (q, calls) = call_audio_data_handlers p in (reset false q, calls))
    else (p, [])

-- The first switch of ProcessFrame.
unfoldable pub prepare : Input → AudioBuffer → AudioBuffer × List Call
prepare (start out_rate) p =
    let rate = positive_or (positive_or 16000 out_rate) p.config_rate in
    (record p { sample_rate = rate; buffer_size_1s = rate * 2 }, [])
prepare cancel p = stop_recording p
prepare end_frame p = stop_recording p
prepare _ p = (p, [])

-- The user's last second is kept while the user does not speak.
unfoldable pub add_user_turn : Bytes → AudioBuffer → AudioBuffer
add_user_turn resampled p =
    let turn = p.user_turn_buffer ++ resampled in
    if p.enable_turn_audio
    then record p {
      user_turn_buffer =
          if not p.user_speaking && ltb p.buffer_size_1s (length turn)
          then drop (length turn - p.buffer_size_1s) turn
          else turn;
    }
    else p

unfoldable pub add_user_audio : Bytes → AudioBuffer → AudioBuffer
add_user_audio resampled p = add_user_turn resampled (record p {
  bot_buffer = sync_buffer_to_position p.bot_buffer (length p.user_buffer);
  user_buffer = p.user_buffer ++ resampled;
})

unfoldable pub add_bot_audio : Bytes → AudioBuffer → AudioBuffer
add_bot_audio resampled p = record p {
  user_buffer = sync_buffer_to_position p.user_buffer (length p.bot_buffer);
  bot_buffer = p.bot_buffer ++ resampled;
  bot_turn_buffer =
      if p.enable_turn_audio && p.bot_speaking
      then p.bot_turn_buffer ++ resampled
      else p.bot_turn_buffer;
}

unfoldable pub stop_user : AudioBuffer → AudioBuffer × List Call
stop_user p = (
  record p { user_speaking = false; user_turn_buffer = [] },
  if p.enable_turn_audio && p.on_user_turn_audio_data && leb 1 (length p.user_turn_buffer)
      then user_turn_audio_data p.user_turn_buffer p.sample_rate 1 ∷ []
      else [],
)

unfoldable pub stop_bot : AudioBuffer → AudioBuffer × List Call
stop_bot p = (
  record p { bot_speaking = false; bot_turn_buffer = [] },
  if p.enable_turn_audio && p.on_bot_turn_audio_data && leb 1 (length p.bot_turn_buffer)
      then bot_turn_audio_data p.bot_turn_buffer p.sample_rate 1 ∷ []
      else [],
)

unfoldable pub is_full : AudioBuffer → Bool
is_full p =
    leb 1 p.buffer_size
    && (leb p.buffer_size (length p.user_buffer) || leb p.buffer_size (length p.bot_buffer))

unfoldable pub deliver_full : AudioBuffer × List Call → AudioBuffer × List Call
deliver_full (p, calls) =
    if is_full p
    then (let (q, delivered) = call_audio_data_handlers p in (q, calls ++ delivered))
    else (p, calls)

module _ (resample : Bytes → ℕ → ℕ → Bytes) where
  -- Audio that is empty, or is once resampled, ends the user's case of ProcessFrame at once.
  unfoldable pub record_user : Bytes → ℕ → AudioBuffer → AudioBuffer × List Call
  record_user audio rate p =
      let resampled = resample audio (positive_or 16000 rate) p.sample_rate in
      if length audio == 0 || length resampled == 0
      then (p, [])
      else deliver_full (add_user_audio resampled p, [])

  unfoldable pub process_output_audio : Bytes → ℕ → AudioBuffer → AudioBuffer
  process_output_audio audio rate p =
      let resampled = resample audio (positive_or 24000 rate) p.sample_rate in
      if length audio == 0 || length resampled == 0 then p else add_bot_audio resampled p

  -- ProcessFrame after the frame is forwarded, while recording.
  unfoldable pub record_frame : Input → AudioBuffer → AudioBuffer × List Call
  record_frame (audio_raw audio rate) p = record_user audio rate p
  record_frame (tts_audio_raw audio rate) p = deliver_full (process_output_audio audio rate p, [])
  record_frame (output_audio_raw audio rate) p =
      deliver_full (process_output_audio audio rate p, [])
  record_frame user_started p = deliver_full (record p { user_speaking = true }, [])
  record_frame user_stopped p = deliver_full (stop_user p)
  record_frame bot_started p = deliver_full (record p { bot_speaking = true }, [])
  record_frame bot_stopped p = deliver_full (stop_bot p)
  record_frame _ p = deliver_full (p, [])

  -- ProcessFrame, where the next processor fails or does not.
  unfoldable pub process_frame : Bool → Input → Direction → AudioBuffer → AudioBuffer × List Call
  process_frame failed f upstream p = (p, [])
  process_frame failed f downstream p =
      let (q, calls) = prepare f p in
      if failed || not q.recording
      then (q, calls)
      else let (r, more) = record_frame f q in (r, calls ++ more)

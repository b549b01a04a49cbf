-- ===== src/Recording/Recorder.antt =====
-- pkg/recording/recorder.go and wav.go. A rate that is not positive is 0, the path is that of the
-- file, times are numbers, and the number of samples stays within int64.
pub mod Headers
pub mod Samples
use voxray.Base.{
  ℕ, ◌+◌, ◌*◌, ◌/◌, ◌%◌, Bool, true, false, not, ◌||◌, Option, none, some, List, [], ◌∷◌, ◌++◌,
  length, String, ◌==◌, if◌then◌else◌,
}
use voxray.Base.Int.{ℤ}
use voxray.Audio.Pcm.{Bytes, low_byte, high_byte}
use voxray.Audio.Wav.{put_uint16, put_uint32, riff_id, wave_id, fmt_id, data_id}
use voxray.Recording.Files.{
  File, Op, put_bytes, seek_to, seek_end, Fault, perform, perform_op, empty_file,
}

pub data RecordError : Type 0 where
  invalid_sample_rate no_dir no_file header_failed : RecordError
  recorder_closed unexpected_sample_rate write_failed close_failed : RecordError

pub record LocalFileInfo : Type 0 where
  pub path : String
  pub started_at : ℕ
  pub ended_at : ℕ
  pub format : String

pub record FileRecorder : Type 0 where
  pub path : String
  pub file : File
  pub started_at : ℕ
  pub ended_at : ℕ
  pub closed : Bool
  pub format : String
  pub sample_rate : ℕ
  pub num_samples : ℕ

-- uint32(n)
abbrev uint32 : ℕ → ℕ
uint32 n = n % 4294967296

-- What writeEmptyWAVHeader writes.
unfoldable pub write_empty_wav_header : ℕ → List Op
write_empty_wav_header sample_rate =
    let byte_rate = uint32 (uint32 sample_rate * 1 * (16 / 8)) in
    let block_align = 1 * (16 / 8) in
    put_bytes riff_id
    ∷ put_bytes (put_uint32 0 [])
    ∷ put_bytes wave_id
    ∷ put_bytes fmt_id
    ∷ put_bytes (put_uint32 16 [])
    ∷ put_bytes (put_uint16 1 [])
    ∷ put_bytes (put_uint16 1 [])
    ∷ put_bytes (put_uint32 (uint32 sample_rate) [])
    ∷ put_bytes (put_uint32 byte_rate [])
    ∷ put_bytes (put_uint16 block_align [])
    ∷ put_bytes (put_uint16 16 [])
    ∷ put_bytes data_id
    ∷ put_bytes (put_uint32 0 [])
    ∷ []

unfoldable pub finalize_wav : List Fault → ℕ → ℕ → File → File × Bool
finalize_wav faults num_samples num_channels f =
    let data_size = uint32 (num_samples * num_channels * (16 / 8)) in
    let riff_size = uint32 (4 + 8 + 16 + 8 + data_size) in
    let done =
      perform faults
        (seek_to 4
          ∷ put_bytes (put_uint32 riff_size [])
          ∷ seek_to 40
          ∷ put_bytes (put_uint32 data_size [])
          ∷ seek_end
          ∷ [])
        f in
    if num_channels == 0 then (f, false) else done

pub data Created : Type 0 where
  created : FileRecorder → Created
  refused : RecordError → Created

-- NewFileRecorder, where the directory and the file can be made or not.
unfoldable pub new_file_recorder : Bool → Bool → List Fault → String → ℕ → ℕ → Created
new_file_recorder dir_fails create_fails faults path sample_rate now =
    let (file, ok) = perform faults (write_empty_wav_header sample_rate) empty_file in
    if sample_rate == 0
    then refused invalid_sample_rate
    else if dir_fails
    then refused no_dir
    else if create_fails
    then refused no_file
    else if ok
    then created (record {
      path = path;
      file = file;
      started_at = now;
      ended_at = 0;
      closed = false;
      format = "wav";
      sample_rate = sample_rate;
      num_samples = 0;
    })
    else refused header_failed

-- The bytes of samples
unfoldable pub sample_bytes : List ℤ → Bytes
sample_bytes [] = []
sample_bytes (s ∷ samples) = low_byte s ∷ high_byte s ∷ sample_bytes samples

unfoldable pub write_samples : Fault → List ℤ → ℕ → FileRecorder → FileRecorder × Option RecordError
write_samples fault samples sample_rate r =
    let (file, ok) = perform_op fault (put_bytes (sample_bytes samples)) r.file in
    if r.closed
    then (r, some recorder_closed)
    else if not (sample_rate == r.sample_rate)
    then (r, some unexpected_sample_rate)
    else if length samples == 0
    then (r, none)
    else if ok
    then (record r { file = file; num_samples = r.num_samples + length samples }, none)
    else (record r { file = file }, some write_failed)

pub data Closed : Type 0 where
  finished : LocalFileInfo → Closed
  unfinished : RecordError → Closed

unfoldable pub file_info : FileRecorder → LocalFileInfo
file_info r = record {
  path = r.path;
  started_at = r.started_at;
  ended_at = r.ended_at;
  format = r.format;
}

-- Close, where closing the file itself fails or not
unfoldable pub close_recorder : List Fault → Bool → ℕ → FileRecorder → FileRecorder × Closed
close_recorder faults close_fails now r =
    let (file, ok) = finalize_wav faults r.num_samples 1 r.file in
    let q = record r { closed = true; ended_at = now; file = file } in
    if r.closed
    then (r, finished (file_info r))
    else if not ok || close_fails
    then (q, unfinished close_failed)
    else (q, finished (file_info q))

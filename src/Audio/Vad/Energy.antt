-- ===== src/Audio/Vad/Energy.antt =====
-- pkg/audio/vad/vad.go: the energy backend, its analyzer and the detectors that wrap it. The Go code
-- returns no error from the energy backend, so its confidence is always `some`.
use voxray.Base.{ℕ, ◌/◌, Bool, true, false, some, if◌then◌else◌, length, ltb, ◌==◌}
use voxray.Audio.Pcm.{Bytes}
use voxray.Audio.Floats.{Floats}
use voxray.Audio.Vad.{
  State, quiet, starting, speaking, stopping, Params, Backend, Analyzer, normalize,
  new_base_analyzer, rms, set_sample_rate, analyze,
}

-- audio.DefaultInSampleRate
abbrev pub default_in_sample_rate : ℕ
default_in_sample_rate = 16000

module _ (fl : Floats) where
  open fl use {F, lit, div, le, lt}

  -- numFramesRequired: 10 ms
  unfoldable pub num_frames_required : ℕ → ℕ
  num_frames_required rate = if rate == 0 then 160 else rate / 100

  clamp_confidence : F → F
  clamp_confidence c = if lt (lit 1 1) c then lit 1 1 else if lt c (lit 0 1) then lit 0 1 else c

  -- voiceConfidence, for the threshold of the backend
  unfoldable pub voice_confidence : F → Bytes → F
  unfolding clamp_confidence
  voice_confidence threshold buf =
      if ltb (length buf) 2
      then lit 0 1
      else if le threshold (lit 0 1)
      then rms fl buf
      else clamp_confidence (div (rms fl buf) threshold)

  unfoldable pub energy_backend : F → Backend F
  energy_backend threshold = record {
    num_frames_required = num_frames_required;
    voice_confidence = λ buf rate. some (voice_confidence threshold buf);
  }

  -- The threshold that NewEnergyAnalyzer and NewEnergyDetectorWithParams put into the backend.
  unfoldable pub energy_threshold : Params F → F
  energy_threshold p = let t = (normalize fl p).threshold in if le t (lit 0 1) then lit 2 100 else t

  -- NewEnergyAnalyzer; the backend is `energy_backend (energy_threshold p)`.
  unfoldable pub new_energy_analyzer : Params F → Analyzer F
  new_energy_analyzer p = record (new_base_analyzer fl) { params = normalize fl p }

  -- The analyzer in NewEnergyDetectorWithParams. It normalises twice.
  unfoldable pub new_energy_detector : Params F → Analyzer F
  unfolding new_energy_analyzer
  new_energy_detector p =
      let q = normalize fl p in
      set_sample_rate fl (energy_backend (energy_threshold q)) default_in_sample_rate
        (new_energy_analyzer q)

is_speaking : State → Bool
is_speaking speaking = true
is_speaking quiet = false
is_speaking starting = false
is_speaking stopping = false

module _ (fl : Floats) (backend : Backend fl.F) where
  -- AnalyzerDetector.IsSpeech, on a frame's bytes
  unfoldable pub is_speech : Bytes → Analyzer fl.F → Analyzer fl.F × Bool
  unfolding is_speaking
  is_speech frame a = let b = analyze fl backend frame a in (b, is_speaking b.machine.state)

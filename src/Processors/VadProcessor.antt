-- ===== src/Processors/VadProcessor.antt =====
-- pkg/processors/audio/vad_processor.go, around the analyzer that Audio.Vad models. Durations and times
-- are milliseconds; a period that is not positive is 0.
pub mod Silence
use voxray.Base.{
  ℕ, ◌-◌, Bool, true, false, ◌&&◌, ◌||◌, not, List, [], ◌∷◌, ◌++◌, length, leb, ltb, ◌==◌,
  if◌then◌else◌,
}
use voxray.Audio.Pcm.{Bytes}
use voxray.Audio.Floats.{Floats}
use voxray.Audio.Vad.{
  State, quiet, starting, speaking, stopping, Params, Backend, Analyzer, set_sample_rate,
  set_params, analyze,
}
use voxray.Frames.{
  Content, Direction, downstream, upstream, vad_user_started_speaking, vad_user_stopped_speaking,
  other,
}

-- StartFrame with AudioInSampleRate, VADParamsUpdateFrame with StopSecs and StartSecs, AudioRawFrame
-- with its bytes, and every other frame.
pub data Input : Type 0 where
  start : ℕ → Input
  params_update : ℕ → ℕ → Input
  audio_raw : Bytes → Input
  frame : Content → Input

-- What is pushed: the frame that came, or one about the voice.
pub data Pushed : Type 0 where
  forwarded : Input → Pushed
  voice : Content → Pushed

abbrev pub user_speaking : Content
user_speaking = other "UserSpeakingFrame"

unfoldable pub in_speech : State → Bool
in_speech speaking = true
in_speech _ = false

unfoldable pub is_quiet : State → Bool
is_quiet quiet = true
is_quiet _ = false

pub record VadProcessor (F : Type 0) : Type 0 where
  pub analyzer : Analyzer F
  pub period : ℕ  -- SpeechActivityPeriod
  pub prev_state : State
  pub last_activity : ℕ

unfoldable pub voices : List Content → List Pushed
voices [] = []
voices (f ∷ fs) = voice f ∷ voices fs

module _ {F : Type 0} where
  abbrev pub new_vad_processor : Analyzer F → ℕ → VadProcessor F
  new_vad_processor analyzer period = record {
    analyzer = analyzer;
    period = if leb 1 period then period else 200;
    prev_state = quiet;
    last_activity = 0;
  }

  -- What a state that is reported comes to, at some time.
  unfoldable pub report_state : State → ℕ → VadProcessor F → VadProcessor F × List Content
  report_state state now p =
      let q = record p { prev_state = state } in
      if in_speech state && not (in_speech p.prev_state)
      then (record q { last_activity = now }, vad_user_started_speaking ∷ [])
      else if is_quiet state && in_speech p.prev_state
      then (q, vad_user_stopped_speaking ∷ [])
      else if in_speech state && leb 1 p.period && leb p.period (now - p.last_activity)
      then (record q { last_activity = now }, user_speaking ∷ [])
      else (q, [])

module _ (fl : Floats) (backend : Backend fl.F) where
  open fl use {F, lit}

  unfoldable pub process_audio_raw : Bytes → ℕ → VadProcessor F → VadProcessor F × List Content
  process_audio_raw audio now p =
      let a = analyze fl backend audio p.analyzer in
      let heard = report_state a.machine.state now (record p { analyzer = a }) in
      if length audio == 0 then (p, []) else heard

  -- The parameters after an update in milliseconds, 0 for one that stays.
  unfoldable pub updated : ℕ → ℕ → Params F → Params F
  updated stop_ms start_ms params = record params {
    stop_secs = if leb 1 stop_ms then lit stop_ms 1000 else params.stop_secs;
    start_secs = if leb 1 start_ms then lit start_ms 1000 else params.start_secs;
  }

  -- The switch on the frame
  unfoldable pub detect : Input → ℕ → VadProcessor F → VadProcessor F × List Content
  detect (start rate) now p = (
    if leb 1 rate then record p { analyzer = set_sample_rate fl backend rate p.analyzer } else p,
    [],
  )
  detect (params_update stop_ms start_ms) now p =
      let a = p.analyzer in
      (record p { analyzer = set_params fl backend (updated stop_ms start_ms a.params) a }, [])
  detect (audio_raw audio) now p = process_audio_raw audio now p
  detect (frame f) now p = (p, [])

  -- ProcessFrame, where the next processor fails or does not. A frame that goes up goes no further.
  unfoldable pub process_frame :
      Bool → Input → Direction → ℕ → VadProcessor F → VadProcessor F × List Pushed
  process_frame failed f upstream now p = (p, [])
  process_frame failed f downstream now p =
      let (q, fs) = detect f now p in
      if failed then (p, forwarded f ∷ []) else (q, forwarded f ∷ voices fs)

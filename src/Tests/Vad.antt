-- ===== src/Tests/Vad.antt =====
-- pkg/audio/vad at concrete streams.
use voxray.Base.{ℕ, true, some, [], ◌∷◌, ◌≡◌, refl, length}
use voxray.Audio.Pcm.{Bytes, sample_of}
use voxray.Audio.Vad.{
  Machine, Backend, Analyzer, quiet, speaking, analyze, analyze_loop, analyze_window,
  calculate_volume, step, set_sample_rate, new_base_analyzer,
}
use voxray.Audio.Vad.Energy.{new_energy_detector, energy_backend, num_frames_required}
use voxray.Audio.Vad.Loop.{configured, analyze-append}
use voxray.Audio.Vad.Windows.{windows, judgements, analyze_machine}
use voxray.Audio.Vad.Transitions.{run}
use voxray.Tests.Toy.{toy}

-- A backend with windows of two samples, sure of every window.
abbrev pub sure : Backend ℕ
sure = record { num_frames_required = λ rate. 2; voice_confidence = λ buf rate. some 100 }

abbrev pub ready : Analyzer ℕ
ready = set_sample_rate toy sure 100 (new_base_analyzer toy)

abbrev noise : Bytes
noise = 0 ∷ 64 ∷ 0 ∷ 64 ∷ 0 ∷ 64 ∷ []

pub ready-configured : configured toy sure ready ≡ true
unfolding configured set_sample_rate new_base_analyzer
ready-configured = refl

-- Three windows of noise, in one call and cut in the middle of the second.
analyze-append_example :
    analyze toy sure
      (64 ∷ 0 ∷ 64 ∷ 0 ∷ 64 ∷ 0 ∷ 64 ∷ [])
      (analyze toy sure (0 ∷ 64 ∷ 0 ∷ 64 ∷ 0 ∷ []) ready)
    ≡ analyze toy sure (0 ∷ 64 ∷ 0 ∷ 64 ∷ 0 ∷ 64 ∷ 0 ∷ 64 ∷ 0 ∷ 64 ∷ 0 ∷ 64 ∷ []) ready
analyze-append_example =
    analyze-append toy sure (0 ∷ 64 ∷ 0 ∷ 64 ∷ 0 ∷ []) (64 ∷ 0 ∷ 64 ∷ 0 ∷ 64 ∷ 0 ∷ 64 ∷ []) ready

analyze_machine_example :
    (analyze toy sure noise ready).machine
    ≡ run ready.start_frames ready.stop_frames ready.machine (
        judgements toy sure ready.params ready.sample_rate ready.prev_volume
          (windows (length noise) ready.vad_frames_num_byte noise))
unfolding new_base_analyzer set_sample_rate
analyze_machine_example = analyze_machine toy sure noise ready ready-configured

-- Smoothing holds the volume of the first loud windows below the threshold.
onset_smoothed : (analyze toy sure noise ready).machine.state ≡ quiet
unfolding analyze analyze_loop analyze_window calculate_volume set_sample_rate new_base_analyzer
    step sample_of
onset_smoothed = refl

abbrev silent : Machine
silent = record { state = quiet; starting_count = 0; stopping_count = 0 }

abbrev talking : Machine
talking = record { state = speaking; starting_count = 0; stopping_count = 0 }

-- The detector's analyzer has windows of 10 ms at 16 kHz, and 20 of them start or stop speech.
detector_windows : (new_energy_detector toy ready.params).vad_frames_num_byte ≡ 320
unfolding new_energy_detector set_sample_rate new_base_analyzer energy_backend num_frames_required
detector_windows = refl

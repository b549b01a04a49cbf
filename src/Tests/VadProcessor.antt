-- ===== src/Tests/VadProcessor.antt =====
-- pkg/processors/audio/vad_processor.go at a concrete stream.
use voxray.Base.{ℕ, [], ◌∷◌, ◌≡◌, refl, arith}
use voxray.Audio.Vad.{set_sample_rate, new_base_analyzer}
use voxray.Processors.VadProcessor.{VadProcessor, new_vad_processor}
use voxray.Processors.VadProcessor.Silence.{IsSettled, run, all_within, stops, never_stops}
use voxray.Tests.Toy.{toy}
use voxray.Tests.Vad.{sure, ready, ready-configured}

abbrev listening : VadProcessor ℕ
listening = new_vad_processor ready 200

settled : IsSettled toy sure listening
unfolding set_sample_rate new_base_analyzer
settled = record { set = ready-configured; two = omega arith; short = omega arith; same = refl }

-- Two windows of silence.
never_stops_example :
    stops (run toy sure ((0 ∷ 0 ∷ 0 ∷ 0 ∷ [], 20) ∷ (0 ∷ 0 ∷ 0 ∷ 0 ∷ [], 40) ∷ []) listening) ≡ 0
unfolding all_within set_sample_rate new_base_analyzer
never_stops_example =
    never_stops toy sure ((0 ∷ 0 ∷ 0 ∷ 0 ∷ [], 20) ∷ (0 ∷ 0 ∷ 0 ∷ 0 ∷ [], 40) ∷ []) listening
      settled refl

-- ===== src/Audio/Vad/Windows.antt =====
-- Analyze refines the state machine: it cuts the stream into windows, judges each, and runs the
-- machine over the judgements.
use voxray.Base.{
  ℕ, zero, suc, ◌≡◌, refl, ap, ◌∙◌, Bool, true, ◌&&◌, List, [], ◌∷◌, ◌++◌, leb, length, take, drop,
  if◌then◌else◌, Bool-cases, inl, inr,
}
use voxray.Audio.Pcm.{Bytes}
use voxray.Audio.Floats.{Floats}
use voxray.Audio.Vad.{
  Params, Backend, Analyzer, calculate_volume, confidence_of, exp_smoothing, analyze_window,
  analyze_loop, analyze,
}
use voxray.Audio.Vad.Loop.{configured, analyze-configured, extend}
use voxray.Audio.Vad.Transitions.{run}

-- The whole windows of `n` bytes at the front of a buffer of at most `fuel` bytes.
pub windows : ℕ → ℕ → Bytes → List Bytes
windows zero n buf = []
windows (suc fuel) n buf =
    let rest = take n buf ∷ windows fuel n (drop n buf) in if leb n (length buf) then rest else []

module _ (fl : Floats) (backend : Backend fl.F) where
  open fl use {F, lit, le}

  smoothed : F → Bytes → F
  smoothed prev w = exp_smoothing fl (calculate_volume fl w) prev (lit 2 10)

  judge : Params F → ℕ → F → Bytes → Bool
  judge p rate volume w =
      le p.confidence (confidence_of fl backend (backend.voice_confidence w rate))
      && le p.min_volume volume

  -- Which windows are speech: confident enough, and loud enough once smoothed.
  pub judgements : Params F → ℕ → F → List Bytes → List Bool
  judgements p rate prev [] = []
  judgements p rate prev (w ∷ ws) =
      judge p rate (smoothed prev w) w ∷ judgements p rate (smoothed prev w) ws

  machine_loop :
      (f n : ℕ) (a : Analyzer F)
      → (analyze_loop fl backend f n a).machine
        ≡ run a.start_frames a.stop_frames a.machine
            (judgements a.params a.sample_rate a.prev_volume (windows f n a.buf))
  unfolding analyze_loop windows judgements run analyze_window judge smoothed
  machine_loop zero n a = refl
  machine_loop (suc f) n a = elim (Bool-cases (leb n (length a.buf))) [
    | inr stop ↦ rw stop
    | inl more ↦ rw more (
        machine_loop f n
          (record (analyze_window fl backend (take n a.buf) a) { buf = drop n a.buf }))
  ]

  -- On a configured analyzer, Analyze leaves the state machine where a run over the judgements of the
  -- whole windows of the waiting and the new bytes leaves it.
  pub analyze_machine :
      (xs : Bytes) (a : Analyzer F)
      → configured fl backend a ≡ true
      → (analyze fl backend xs a).machine
        ≡ run a.start_frames a.stop_frames a.machine (
            judgements a.params a.sample_rate a.prev_volume
              (windows (length (a.buf ++ xs)) a.vad_frames_num_byte (a.buf ++ xs)))
  analyze_machine xs a set =
      ap (λ (b : Analyzer F). b.machine) (analyze-configured fl backend xs a set)
      ∙ machine_loop (length (a.buf ++ xs)) a.vad_frames_num_byte (extend fl backend xs a)

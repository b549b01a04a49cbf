-- ===== src/Turn/Processor.antt =====
-- pkg/processors/voice/turn.go: TurnProcessor, over the detector's and the analyzer's interfaces. It
-- has a next and a previous processor, and what it hands to them is its output. Logging is left out,
-- with the fields that only it reads, and so are the controller's timers, whose frames have no audio.
use voxray.Base.{
  ℕ, Bool, true, false, not, ◌&&◌, Option, none, some, List, [], ◌∷◌, ◌++◌, map, length, ◌==◌,
  if◌then◌else◌,
}
use voxray.Audio.Pcm.{Bytes}
use voxray.Frames.{
  Content, Direction, downstream, upstream, Out, down, up, cancel, audio_raw, vad_params_update,
}
use voxray.Turn.Controller.{
  Controller, vad_start_strategy, silence_stop_strategy, process_vad_update,
}
use voxray.Turn.Silence.{EndOfTurnState, incomplete, complete}

-- vad.Detector; `none` is an error.
pub record Detector (D : Type 0) : Type 0 where
  pub is_speech : Bytes → D → D × Option Bool

-- turn.Analyzer, with the clock's readings among its state.
pub record TurnAnalyzer (A : Type 0) : Type 0 where
  pub append_audio : Bytes → Bool → A → A × EndOfTurnState
  pub speech_triggered : A → Bool
  pub clear : A → A
  pub update_stop : ℕ → A → A  -- UpdateParams(Params{StopSecs: …})
  pub update_vad_start : ℕ → A → A

pub record TurnProcessor (D A : Type 0) : Type 0 where
  pub vad : D
  pub analyzer : A
  pub buffer : Bytes
  pub use_async : Bool
  pub pending : Bool  -- pendingResult != nil
  pub controller : Controller Bool Bool

-- What the non-blocking receive on the pending channel finds: nothing yet, or a result, complete and
-- without an error or not (a closed channel counts as not).
abbrev pub Poll : Type 0
Poll = Option Bool

module _ {D A : Type 0} (detector : Detector D) (analysis : TurnAnalyzer A)
    (push_fails : Content → Bool) where
  -- Whether a chunk is speech; an error counts as silence.
  heard_speech : Option Bool → Bool
  heard_speech none = false
  heard_speech (some b) = b

  -- The accumulated audio goes out, and the turn's state is cleared. In synchronous mode nothing is
  -- ever pending, so clearing it there changes nothing.
  unfoldable pub finish_turn : TurnProcessor D A → TurnProcessor D A × List Out
  finish_turn p = (
    record p { buffer = []; analyzer = analysis.clear p.analyzer; pending = false },
    down (audio_raw p.buffer) ∷ [],
  )

  start_analysis : TurnProcessor D A → TurnProcessor D A × List Out
  start_analysis p = (
    if not p.pending && analysis.speech_triggered p.analyzer
        then record p { pending = true }
        else p,
    [],
  )

  poll_result : Poll → TurnProcessor D A → TurnProcessor D A × List Out
  unfolding finish_turn start_analysis
  poll_result (some true) p = finish_turn p
  poll_result (some false) p = start_analysis (record p { pending = false })
  poll_result none p = start_analysis p

  -- What follows AppendAudio: the synchronous end, the pending result, the next analysis.
  unfoldable pub end_of_chunk :
      EndOfTurnState → Poll → TurnProcessor D A → TurnProcessor D A × List Out
  unfolding finish_turn poll_result start_analysis
  end_of_chunk complete poll p = finish_turn p
  end_of_chunk incomplete poll p =
      if not p.use_async
      then (p, [])
      else if p.pending
      then poll_result poll p
      else start_analysis p

  unfoldable pub process_audio : Bytes → Poll → TurnProcessor D A → TurnProcessor D A × List Out
  unfolding heard_speech end_of_chunk
  process_audio chunk poll p =
      if length chunk == 0
      then (p, [])
      else let (vad, verdict) = detector.is_speech chunk p.vad in
        let is_speech = heard_speech verdict in
        let turn =
          process_vad_update vad_start_strategy silence_stop_strategy (some push_fails) [] is_speech
            p.controller in
        let (analyzer, state) = analysis.append_audio chunk is_speech p.analyzer in
        let (q, outs) = end_of_chunk state poll (record p {
          vad = vad;
          controller = turn.controller;
          buffer = p.buffer ++ chunk;
          analyzer = analyzer;
        }) in
        (q, map down turn.pushed ++ outs)

  -- UpdateParams, and UpdateVADStartSecs if StartSecs is not 0
  apply_vad_params : ℕ → ℕ → TurnProcessor D A → TurnProcessor D A
  apply_vad_params stop start p =
      let a = analysis.update_stop stop p.analyzer in
      record p { analyzer = if start == 0 then a else analysis.update_vad_start start a }

  unfoldable pub process_frame :
      Direction → Content → Poll → TurnProcessor D A → TurnProcessor D A × List Out
  unfolding process_audio apply_vad_params
  process_frame upstream (vad_params_update stop start) poll p = (apply_vad_params stop start p, [])
  process_frame upstream f poll p = (p, up f ∷ [])
  process_frame downstream (vad_params_update stop start) poll p =
      (apply_vad_params stop start p, down (vad_params_update stop start) ∷ [])
  process_frame downstream cancel poll p = (
    record p { buffer = []; analyzer = analysis.clear p.analyzer; pending = false },
    down cancel ∷ [],
  )
  process_frame downstream (audio_raw chunk) poll p = process_audio chunk poll p
  process_frame downstream f poll p = (p, down f ∷ [])

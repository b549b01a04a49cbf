-- ===== src/Processors/Interruption.antt =====
-- pkg/processors/voice/interruption_controller.go: user transcripts may interrupt the bot. The
-- errors of pushing a frame are the caller's and change nothing here. Frames that go upstream pass to
-- the previous processor.
pub mod Words
pub mod Budget
pub mod Threshold
use voxray.Base.{
  Bool, true, false, not, ◌&&◌, Option, none, some, List, [], ◌∷◌, ◌++◌, if◌then◌else◌,
}
use voxray.Audio.Interruptions.{Strategy}
use voxray.Texts.{is_blank}
use voxray.Frames.{
  Text, Content, Direction, downstream, upstream, Out, down, up, start, end_frame, stop_frame,
  cancel, interruption, transcription, bot_started_speaking, bot_stopped_speaking,
  user_started_speaking,
}

-- The strategy's own state is `heard`, if it has a strategy.
pub record InterruptionController (S : Type 0) : Type 0 where
  pub heard : Option S
  pub allow_interruptions : Bool
  pub bot_speaking : Bool
  pub interruption_sent : Bool

unfoldable pub new_interruption_controller : {S : Type 0} → Option S → InterruptionController S
new_interruption_controller heard = record {
  heard = heard;
  allow_interruptions = false;
  bot_speaking = false;
  interruption_sent = false;
}

module _ {S : Type 0} (strategy : Strategy S) where
  unfoldable pub reset_heard : Option S → Option S
  reset_heard none = none
  reset_heard (some s) = some (strategy.reset s)

  -- A bot turn begins or ends.
  unfoldable pub bot_turn : Bool → InterruptionController S → InterruptionController S
  bot_turn speaking p = record p {
    bot_speaking = speaking;
    interruption_sent = false;
    heard = reset_heard p.heard;
  }

  -- The strategy hears a final transcript.
  unfoldable pub hear : S → Text → InterruptionController S → InterruptionController S × List Out
  hear s text p =
      let s' = if is_blank text then s else strategy.append_text text s in
      if strategy.should_interrupt s'
      then (
        record p { interruption_sent = true; heard = some (strategy.reset s') },
        down interruption ∷ [],
      )
      else (record p { heard = some s' }, [])

  unfoldable pub consider :
      Option S → Text → Bool → InterruptionController S → InterruptionController S × List Out
  consider none text finalized p = (p, [])
  consider (some s) text finalized p =
      if p.allow_interruptions && (p.bot_speaking && (not p.interruption_sent && finalized))
      then hear s text p
      else (p, [])

  unfoldable pub observe : Content → InterruptionController S → InterruptionController S × List Out
  observe (start allow) p = (record (bot_turn false p) { allow_interruptions = allow }, [])
  observe bot_started_speaking p = (bot_turn true p, [])
  observe bot_stopped_speaking p = (bot_turn false p, [])
  observe cancel p = (bot_turn false p, [])
  observe end_frame p = (bot_turn false p, [])
  observe stop_frame p = (bot_turn false p, [])
  observe user_started_speaking p = (record p { heard = reset_heard p.heard }, [])
  observe (transcription user text finalized) p = consider p.heard text finalized p
  observe _ p = (p, [])

  unfoldable pub process_frame :
      Direction → Content → InterruptionController S → InterruptionController S × List Out
  process_frame upstream f p = (p, up f ∷ [])
  process_frame downstream f p = let (q, outs) = observe f p in (q, outs ++ down f ∷ [])

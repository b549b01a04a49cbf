-- ===== src/Processors/Dtmf.antt =====
-- pkg/processors/aggregators/dtmf/dtmf.go: DTMF keys are gathered into a transcription. A key is one
-- character. A method, or the timer's callback, is one step, also handleDTMF, which unlocks its mutex
-- while it pushes an interruption: a timer that fires just then is taken to fire before or after it.
-- The timer is whether it will still fire. `fails` says on which frames the next processor returns an
-- error, which only the key's own push reports. Frames that go upstream pass to the previous processor.
pub mod Digits
use voxray.Base.{ℕ, Bool, true, false, ◌&&◌, List, [], ◌∷◌, ◌++◌, ◌==◌, if◌then◌else◌}
use voxray.Frames.{
  Text, Content, Direction, downstream, upstream, Out, down, up, start, end_frame, cancel,
  interruption, transcription, input_dtmf,
}

pub record Dtmf : Type 0 where
  pub termination_digit : ℕ
  pub prefix : Text
  pub push_interruption : Bool
  pub buf : Text
  pub timer : Bool
  pub started : Bool

-- New, with a positive timeout and given texts
abbrev pub new_dtmf : ℕ → Text → Dtmf
new_dtmf termination_digit prefix = record {
  termination_digit = termination_digit;
  prefix = prefix;
  push_interruption = true;
  buf = [];
  timer = false;
  started = false;
}

unfoldable pub is_empty : Text → Bool
is_empty [] = true
is_empty (_ ∷ _) = false

unfoldable pub flush : Dtmf → Dtmf × List Out
flush p = (
  record p { buf = []; timer = false },
  if is_empty p.buf then [] else down (transcription "" (p.prefix ++ p.buf) true) ∷ [],
)

-- handleDTMF
unfoldable pub handle_dtmf : ℕ → Dtmf → Dtmf × List Out
handle_dtmf digit p =
    let alert = if is_empty p.buf && p.push_interruption then down interruption ∷ [] else [] in
    let q : Dtmf = record p { buf = p.buf ++ digit ∷ [] } in
    if digit == p.termination_digit
    then (let (r, outs) = flush q in (r, alert ++ outs))
    else (record q { timer = true }, alert)

-- flushAndForward with a frame, on EndFrame and CancelFrame
unfoldable pub end_with : Content → Dtmf → Dtmf × List Out
end_with f p = let (q, outs) = flush p in (record q { started = false }, outs ++ down f ∷ [])

module _ (fails : Content → Bool) where
  unfoldable pub process_frame : Direction → Content → Dtmf → Dtmf × List Out
  process_frame downstream (start a) p = (record p { started = true }, down (start a) ∷ [])
  process_frame downstream end_frame p = end_with end_frame p
  process_frame downstream cancel p = end_with cancel p
  process_frame downstream (input_dtmf digit) p =
      let (q, outs) = handle_dtmf digit p in
      if fails (input_dtmf digit)
      then (p, down (input_dtmf digit) ∷ [])
      else (q, down (input_dtmf digit) ∷ outs)
  process_frame downstream f p = (p, down f ∷ [])
  process_frame upstream f p = (p, up f ∷ [])

-- The timer's callback, if it is armed.
unfoldable pub on_timeout : Dtmf → Dtmf × List Out
on_timeout p = if p.timer then flush p else (p, [])

unfoldable pub cleanup : Dtmf → Dtmf
cleanup p = record p { timer = false; buf = []; started = false }

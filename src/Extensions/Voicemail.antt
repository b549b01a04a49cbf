-- ===== src/Extensions/Voicemail.antt =====
-- pkg/extensions/voicemail/gates.go and pkg/sync/notifier. Setup starts a goroutine for each notifier
-- that a gate waits for: it reacts to the notification once, unless Cleanup has cancelled it. Only
-- frames that go down reach a gate's own code; a frame that goes up is forwarded.
pub mod Classification
pub mod Gating
use voxray.Base.{Bool, true, false, not, ◌&&◌, List, [], ◌∷◌, ◌++◌, if◌then◌else◌}
use voxray.Frames.{
  Content, Frame, start, end_frame, cancel, stop_frame, tts_audio_raw, bot_started_speaking,
  bot_stopped_speaking, user_started_speaking, user_stopped_speaking,
}

unfoldable pub passes_closed : Content → Bool
passes_closed (start _) = true
passes_closed end_frame = true
passes_closed cancel = true
passes_closed stop_frame = true
passes_closed _ = false

-- NotifierGate, and ConversationGate, which is a NotifierGate for the notifier of voicemail.
pub record NotifierGate : Type 0 where
  pub gate_closed : Bool
  pub waiting : Bool  -- the goroutine runs

abbrev pub new_notifier_gate : NotifierGate
new_notifier_gate = record { gate_closed = false; waiting = false }

unfoldable pub setup_gate : NotifierGate → NotifierGate
setup_gate g = record g { waiting = true }

unfoldable pub cleanup_gate : NotifierGate → NotifierGate
cleanup_gate g = record g { waiting = false }

-- The goroutine's reaction to its notifier.
unfoldable pub close_gate : NotifierGate → NotifierGate
close_gate g = if g.waiting then record { gate_closed = true; waiting = false } else g

-- ProcessFrame of a frame that goes down: the frames pushed.
unfoldable pub notifier_gate_frame : Frame → NotifierGate → List Frame
notifier_gate_frame f g =
    if not g.gate_closed then f ∷ [] else if passes_closed f.content then f ∷ [] else []

pub record ClassifierGate : Type 0 where
  pub gate : NotifierGate
  pub conversation_detected : Bool
  pub conv_waiting : Bool

abbrev pub new_classifier_gate : ClassifierGate
new_classifier_gate = record {
  gate = new_notifier_gate;
  conversation_detected = false;
  conv_waiting = false;
}

unfoldable pub setup_classifier_gate : ClassifierGate → ClassifierGate
setup_classifier_gate g = record g { gate = setup_gate g.gate; conv_waiting = true }

unfoldable pub cleanup_classifier_gate : ClassifierGate → ClassifierGate
cleanup_classifier_gate g = record g { gate = cleanup_gate g.gate; conv_waiting = false }

unfoldable pub detect_conversation : ClassifierGate → ClassifierGate
detect_conversation g =
    if g.conv_waiting then record g { conversation_detected = true; conv_waiting = false } else g

unfoldable pub is_user_speaking_frame : Content → Bool
is_user_speaking_frame user_started_speaking = true
is_user_speaking_frame user_stopped_speaking = true
is_user_speaking_frame _ = false

unfoldable pub classifier_gate_frame : Frame → ClassifierGate → List Frame
classifier_gate_frame f g =
    if not g.gate.gate_closed
    then f ∷ []
    else if is_user_speaking_frame f.content
    then (if not g.conversation_detected then f ∷ [] else [])
    else if passes_closed f.content
    then f ∷ []
    else []

pub record TtsGate : Type 0 where
  pub buf : List Frame
  pub gating_active : Bool
  pub conv_waiting : Bool
  pub vm_waiting : Bool

abbrev pub new_tts_gate : TtsGate
new_tts_gate = record { buf = []; gating_active = true; conv_waiting = false; vm_waiting = false }

unfoldable pub setup_tts_gate : TtsGate → TtsGate
setup_tts_gate g = record g { conv_waiting = true; vm_waiting = true }

unfoldable pub cleanup_tts_gate : TtsGate → TtsGate
cleanup_tts_gate g = record g { conv_waiting = false; vm_waiting = false }

-- The goroutines' reactions, with the frames pushed.
unfoldable pub on_conversation : TtsGate → TtsGate × List Frame
on_conversation g =
    if g.conv_waiting
    then (record g { buf = []; gating_active = false; conv_waiting = false }, g.buf)
    else (g, [])

unfoldable pub on_voicemail : TtsGate → TtsGate × List Frame
on_voicemail g =
    if g.vm_waiting
    then (record g { buf = []; gating_active = false; vm_waiting = false }, [])
    else (g, [])

pub data Signal : Type 0 where
  conversation voicemail : Signal

unfoldable pub on_signal : Signal → TtsGate → TtsGate × List Frame
on_signal conversation g = on_conversation g
on_signal voicemail g = on_voicemail g

unfoldable pub on_signals : List Signal → TtsGate → TtsGate × List Frame
on_signals [] g = (g, [])
on_signals (s ∷ ss) g =
    let (h, sent) = on_signal s g in let (k, more) = on_signals ss h in (k, sent ++ more)

unfoldable pub is_tts_frame : Content → Bool
is_tts_frame (tts_audio_raw _) = true
is_tts_frame bot_started_speaking = true
is_tts_frame bot_stopped_speaking = true
is_tts_frame _ = false

-- ProcessFrame of a frame that goes down. It takes the lock to read whether the gate is active and takes
-- it again to append: `between` are the signals that arrive meanwhile.
unfoldable pub tts_gate_frame : Frame → List Signal → TtsGate → TtsGate × List Frame
tts_gate_frame f between g =
    let (h, sent) = on_signals between g in
    if g.gating_active && is_tts_frame f.content
    then (record h { buf = h.buf ++ f ∷ [] }, sent)
    else (h, sent ++ f ∷ [])

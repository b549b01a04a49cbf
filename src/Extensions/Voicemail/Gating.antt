-- ===== src/Extensions/Voicemail/Gating.antt =====
-- What the gates let through, over histories of frames and signals.
use voxray.Base.{
  true, false, List, [], ◌∷◌, ◌++◌, ◌≡◌, ◌⊎◌, refl, ◌∙◌, arith, append-nil, append_assoc, inl, inr,
  Bool-cases, if◌then◌else◌,
}
use voxray.Frames.{Frame}
use voxray.Extensions.Voicemail.{
  TtsGate, Signal, conversation, voicemail, new_tts_gate, setup_tts_gate, on_signal, on_signals,
  on_conversation, on_voicemail, is_tts_frame, tts_gate_frame,
}

-- A frame with the signals that arrive while it is handled, or a signal.
pub data Event : Type 0 where
  received : Frame → List Signal → Event
  signalled : Signal → Event

unfoldable pub step : Event → TtsGate → TtsGate × List Frame
step (received f between) g = tts_gate_frame f between g
step (signalled s) g = on_signal s g

unfoldable pub run : List Event → TtsGate → TtsGate × List Frame
run [] g = (g, [])
run (e ∷ es) g = let (h, sent) = step e g in let (k, more) = run es h in (k, sent ++ more)

unfoldable pub undisturbed : List Frame → List Event
undisturbed [] = []
undisturbed (f ∷ fs) = received f [] ∷ undisturbed fs

unfoldable pub speech : List Frame → List Frame
speech [] = []
speech (f ∷ fs) = let rest = speech fs in if is_tts_frame f.content then f ∷ rest else rest

unfoldable pub without_speech : List Frame → List Frame
without_speech [] = []
without_speech (f ∷ fs) =
    let rest = without_speech fs in if is_tts_frame f.content then rest else f ∷ rest

-- What a decision lets go of the frames held back.
unfoldable pub released : Signal → List Frame → List Frame
released conversation fs = fs
released voicemail fs = []

pub run-append :
    (xs ys : List Event) (g : TtsGate)
    → let r = run xs g in let q = run ys r.0 in run (xs ++ ys) g ≡ (q.0, r.1 ++ q.1)
unfolding run
run-append [] ys g = refl
run-append (x ∷ xs) ys g =
    let (h, sent) = step x g in
    rw (run-append xs ys h, append_assoc sent (run xs h).1 (run ys (run xs h).0).1) refl

-- One step and the rest of the history.
run-step :
    (e : Event) (es : List Event) (g h : TtsGate) (sent : List Frame)
    → step e g ≡ (h, sent)
    → run (e ∷ es) g ≡ (let r = run es h in (r.0, sent ++ r.1))
unfolding run
run-step e es g h sent stepped = rw stepped refl

held :
    (f : Frame) (g : TtsGate)
    → g.gating_active ≡ true
    → step (received f []) g
      ≡ (if is_tts_frame f.content then (record g { buf = g.buf ++ f ∷ [] }, []) else (g, f ∷ []))
unfolding step tts_gate_frame on_signals
held f g e = ground arith

gated :
    (fs : List Frame) (g : TtsGate)
    → g.gating_active ≡ true
    → run (undisturbed fs) g ≡ (record g { buf = g.buf ++ speech fs }, without_speech fs)
unfolding run undisturbed speech without_speech
gated [] g e = rw append-nil refl
gated (f ∷ fs) g e =
    let h = record g { buf = g.buf ++ f ∷ [] } in
    elim (Bool-cases (is_tts_frame f.content)) [
      | inl tts ↦
          run-step (received f []) (undisturbed fs) g h [] (held f g e ∙ rw tts refl)
          ∙ rw (gated fs h e, tts, append_assoc g.buf (f ∷ []) (speech fs)) refl
      | inr plain ↦
          run-step (received f []) (undisturbed fs) g g (f ∷ []) (held f g e ∙ rw plain refl)
          ∙ rw (gated fs g e, plain) refl
    ]

-- The frames of a history.
unfoldable pub frames_of : List Event → List Frame
frames_of [] = []
frames_of (received f between ∷ es) = f ∷ frames_of es
frames_of (signalled s ∷ es) = frames_of es

-- The gate is open for good: nothing that it still holds can be released.
abbrev IsSettled : TtsGate → Type 0
IsSettled g = (g.gating_active ≡ false) × ((g.conv_waiting ≡ false) ⊎ (g.buf ≡ []))

on_signal-IsSettled :
    (s : Signal) (g : TtsGate)
    → IsSettled g
    → ((on_signal s g).1 ≡ []) × IsSettled (on_signal s g).0
unfolding on_signal on_conversation on_voicemail
on_signal-IsSettled conversation g h = ground arith
on_signal-IsSettled voicemail g h = ground arith

on_signals-IsSettled :
    (ss : List Signal) (g : TtsGate)
    → IsSettled g
    → ((on_signals ss g).1 ≡ []) × IsSettled (on_signals ss g).0
unfolding on_signals
on_signals-IsSettled [] g h = (refl, h)
on_signals-IsSettled (s ∷ ss) g h =
    let (silent, settled) = on_signal-IsSettled s g h in
    let (silent', settled') = on_signals-IsSettled ss (on_signal s g).0 settled in
    (rw (silent, silent') refl, settled')

open_gate_frame :
    (f : Frame) (between : List Signal) (g : TtsGate)
    → g.gating_active ≡ false
    → let r = on_signals between g in tts_gate_frame f between g ≡ (r.0, r.1 ++ f ∷ [])
unfolding tts_gate_frame
open_gate_frame f between g e = ground arith

step-IsSettled :
    (e : Event) (g : TtsGate)
    → IsSettled g
    → ((step e g).1 ≡ frames_of (e ∷ [])) × IsSettled (step e g).0
unfolding step frames_of
step-IsSettled (received f between) g h =
    let (silent, settled) = on_signals-IsSettled between g h in
    rw (open_gate_frame f between g h.0, silent) (refl, settled)
step-IsSettled (signalled s) g h = on_signal-IsSettled s g h

run-IsSettled : (es : List Event) (g : TtsGate) → IsSettled g → (run es g).1 ≡ frames_of es
unfolding run frames_of
run-IsSettled [] g h = refl
run-IsSettled (received f between ∷ es) g h =
    let (sent, settled) = step-IsSettled (received f between) g h in
    rw (sent, run-IsSettled es (step (received f between) g).0 settled) refl
run-IsSettled (signalled s ∷ es) g h =
    let (sent, settled) = step-IsSettled (signalled s) g h in
    rw (sent, run-IsSettled es (step (signalled s) g).0 settled) refl

decided :
    (s : Signal) (fs : List Frame) (g : TtsGate)
    → g.conv_waiting ≡ true
    → g.vm_waiting ≡ true
    → ((step (signalled s) g).1 ≡ released s g.buf) × IsSettled (step (signalled s) g).0
unfolding step on_signal on_conversation on_voicemail released
decided conversation fs g c v = ground arith
decided voicemail fs g c v = ground arith

-- A gate that has been set up holds the frames of the bot's speech back until a decision and pushes all
-- others at once, if no signal arrives while one of them is handled: conversation releases those held
-- back, in their order, voicemail drops them, and after the decision every frame is pushed, whatever
-- signals follow.
pub decision :
    (fs : List Frame) (s : Signal) (es : List Event)
    → (run (undisturbed fs ++ signalled s ∷ es) (setup_tts_gate new_tts_gate)).1
      ≡ without_speech fs ++ (released s (speech fs) ++ frames_of es)
unfolding setup_tts_gate
decision fs s es =
    let g = setup_tts_gate new_tts_gate in
    let h = record g { buf = speech fs } in
    let (sent, settled) = decided s fs h refl refl in
    rw
      (
        run-append (undisturbed fs) (signalled s ∷ es) g,
        gated fs g refl,
        run-step (signalled s) es h (step (signalled s) h).0 (step (signalled s) h).1 refl,
        sent,
        run-IsSettled es (step (signalled s) h).0 settled,
      )
      refl

late :
    (f : Frame) (g : TtsGate)
    → is_tts_frame f.content ≡ true
    → g.gating_active ≡ true
    → g.conv_waiting ≡ true
    → step (received f (conversation ∷ [])) g
      ≡ (record g { buf = f ∷ []; gating_active = false; conv_waiting = false }, g.buf)
unfolding step tts_gate_frame on_signals on_signal on_conversation
late f g tts active waits =
    let released_all : on_signal conversation g
        ≡ (record g { buf = []; gating_active = false; conv_waiting = false }, g.buf) =
      ground arith in
    rw (released_all, append-nil) (ground arith)

-- When conversation is signalled between the two times that ProcessFrame takes the lock for a frame of
-- the bot's speech, those held back are released, but that frame is never pushed: what is pushed are
-- they and the frames that follow.
pub late_frame_lost :
    (f : Frame) (es : List Event) (g : TtsGate)
    → is_tts_frame f.content ≡ true
    → g.gating_active ≡ true
    → g.conv_waiting ≡ true
    → (run (received f (conversation ∷ []) ∷ es) g).1 ≡ g.buf ++ frames_of es
late_frame_lost f es g tts active waits =
    let h = record g { buf = f ∷ []; gating_active = false; conv_waiting = false } in
    rw
      (
        run-step (received f (conversation ∷ [])) es g h g.buf (late f g tts active waits),
        run-IsSettled es h (refl, inl refl),
      )
      refl

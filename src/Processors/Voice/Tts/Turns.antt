-- ===== src/Processors/Voice/Tts/Turns.antt =====
-- What the processor of speech does over a history, and after the user starts to speak.
use voxray.Base.{
  ℕ, false, List, [], ◌∷◌, ◌++◌, ◌≡◌, refl, ap, ◌∙◌, inl, inr, Option-cases, arith, append_assoc,
}
use voxray.Frames.{Text, text, llm_text, user_started_speaking, start}
use voxray.Texts.{trim_space}
use voxray.Processors.Voice.Tts.{
  Tts, Input, tts_speak, frame, Service, Spoken, spoken_audio, speak, idle, flush, try_flush,
  then_push, then_speak, process_frame,
}

-- A frame, and how the service answers on it.
pub record Turn : Type 0 where
  pub input : Input
  pub service : Service

-- The state after a history, with all texts that the service is asked for and all frames pushed.
unfoldable pub run : List Turn → Tts → Spoken
run [] p = idle p
run (t ∷ ts) p =
    let s = process_frame t.service t.input p in
    let rest = run ts s.state in
    record { state = rest.state; asked = s.asked ++ rest.asked; pushed = s.pushed ++ rest.pushed }

-- One history after another.
abbrev pub both : Spoken → Spoken → Spoken
both s u = record { state = u.state; asked = s.asked ++ u.asked; pushed = s.pushed ++ u.pushed }

run-append :
    (xs ys : List Turn) (p : Tts) → run (xs ++ ys) p ≡ both (run xs p) (run ys (run xs p).state)
unfolding run
run-append [] ys p = refl
run-append (x ∷ xs) ys p =
    let s = process_frame x.service x.input p in
    let mid = run xs s.state in
    let end = run ys mid.state in
    ap (both s) (run-append xs ys s.state)
    ∙ rw (append_assoc s.asked mid.asked end.asked, append_assoc s.pushed mid.pushed end.pushed)
        refl

speak-limit :
    (service : Service) (t : Text) (p : Tts)
    → (speak service t p).state.max_batch_runes ≡ p.max_batch_runes
unfolding speak spoken_audio
speak-limit service t p = elim (Option-cases (service t)) [
  | inl fails ↦ rw fails refl
  | inr (audio, given) ↦ rw given refl
]

flush-limit :
    (service : Service) (p : Tts) → (flush service p).state.max_batch_runes ≡ p.max_batch_runes
unfolding flush
flush-limit service p =
    ground (arith, speak-limit service (trim_space p.buf) (record p { buf = [] }))

try_flush-limit :
    (service : Service) (p : Tts) → (try_flush service p).state.max_batch_runes ≡ p.max_batch_runes
unfolding try_flush
try_flush-limit service p = ground (arith, flush-limit service p)

process_frame-limit :
    (service : Service) (f : Input) (p : Tts)
    → (process_frame service f p).state.max_batch_runes ≡ p.max_batch_runes
unfolding process_frame then_push then_speak
process_frame-limit service (tts_speak t) p =
    ground (arith, flush-limit service p, speak-limit service t (flush service p).state)
process_frame-limit service (frame (llm_text t)) p =
    try_flush-limit service (record p { buf = p.buf ++ t })
process_frame-limit service (frame (text t)) p =
    try_flush-limit service (record p { buf = p.buf ++ t })
process_frame-limit service (frame user_started_speaking) p = refl
process_frame-limit service (frame (start a)) p = refl
process_frame-limit service (frame _) p = flush-limit service p

run-limit : (ts : List Turn) (p : Tts) → (run ts p).state.max_batch_runes ≡ p.max_batch_runes
unfolding run
run-limit [] p = refl
run-limit (t ∷ ts) p =
    run-limit ts (process_frame t.service t.input p).state ∙ process_frame-limit t.service t.input p

-- The frame on which the user starts to speak; the service is not asked on it.
abbrev pub barge : Service → Turn
barge service = record { input = frame user_started_speaking; service = service }

-- A processor that has heard nothing yet.
abbrev pub fresh : ℕ → Tts
fresh limit = record { max_batch_runes = limit; buf = []; bot_speaking = false }

-- When the user starts to speak, the history before leaves nothing behind: what is asked for and pushed
-- from there on is what a processor that has heard nothing would ask for and push. No text buffered
-- before is spoken.
pub run-barge_in :
    (xs ys : List Turn) (service : Service) (p : Tts)
    → run (xs ++ barge service ∷ ys) p
      ≡ both (run xs p) (
          both
            (record { state = p; asked = []; pushed = user_started_speaking ∷ [] })
            (run ys (fresh p.max_batch_runes)))
unfolding run process_frame then_push
run-barge_in xs ys service p =
    run-append xs (barge service ∷ ys) p
    ∙ ap
        (λ (n : ℕ). both (run xs p) (
          both (record { state = p; asked = []; pushed = user_started_speaking ∷ [] })
            (run ys (fresh n))))
        (run-limit xs p)

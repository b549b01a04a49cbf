-- ===== src/Processors/Voice/Tts/Reports.antt =====
-- How often the processor of speech reports that the bot starts to speak.
use voxray.Base.{
  ℕ, suc, ◌+◌, ◌≤◌, Bool, true, false, ◌&&◌, ◌||◌, not, List, [], ◌∷◌, ◌++◌, length, ◌==◌, ◌≡◌,
  refl, inl, inr, Bool-cases, Option-cases, if◌then◌else◌, arith,
}
use voxray.Frames.{
  Text, Content, text, llm_text, user_started_speaking, start, bot_started_speaking,
}
use voxray.Texts.{is_blank, trim_space}
use voxray.Processors.Voice.Tts.{
  Tts, Input, tts_speak, frame, Service, Spoken, push_audio, spoken_audio, speak, flush, must_flush,
  try_flush, then_push, then_speak, process_frame,
}
use voxray.Processors.Voice.Tts.Turns.{Turn, run}

-- How often the bot is reported to start.
unfoldable pub starts : List Content → ℕ
starts [] = 0
starts (bot_started_speaking ∷ fs) = suc (starts fs)
starts (_ ∷ fs) = starts fs

-- The inputs that neither reset the report nor are one.
unfoldable pub is_plain : Input → Bool
is_plain (frame user_started_speaking) = false
is_plain (frame (start _)) = false
is_plain (frame bot_started_speaking) = false
is_plain _ = true

unfoldable pub all_plain : List Turn → Bool
all_plain [] = true
all_plain (t ∷ ts) = is_plain t.input && all_plain ts

abbrev one_if : Bool → ℕ
one_if b = if b then 1 else 0

starts-append : (xs ys : List Content) → starts (xs ++ ys) ≡ starts xs + starts ys
unfolding starts
starts-append [] ys = omega arith
starts-append (bot_started_speaking ∷ xs) ys = omega (arith, starts-append xs ys)
starts-append (_ ∷ xs) ys = starts-append xs ys

-- What a step reports, and whether the bot is taken for speaking, before and after.
abbrev Reports : Tts → Spoken → Type 0
Reports p s = starts s.pushed + one_if p.bot_speaking ≤ one_if s.state.bot_speaking

starts-push_audio-true : (audio : List Text) → starts (push_audio true audio) ≡ 0
unfolding starts push_audio
starts-push_audio-true [] = refl
starts-push_audio-true (a ∷ as') = ground (arith, starts-push_audio-true as')

starts-push_audio :
    (speaking : Bool) (audio : List Text)
    → starts (push_audio speaking audio) + one_if speaking
      ≤ one_if (speaking || not (length audio == 0))
unfolding starts push_audio
starts-push_audio true audio = omega (arith, starts-push_audio-true audio)
starts-push_audio false [] = ground arith
starts-push_audio false (a ∷ as') = ground (arith, starts-push_audio-true as')

speak-Reports : (service : Service) (t : Text) (p : Tts) → Reports p (speak service t p)
unfolding speak spoken_audio starts
speak-Reports service t p = elim (Option-cases (service t)) [
  | inl fails ↦ rw fails (omega arith)
  | inr (audio, given) ↦ rw given (starts-push_audio p.bot_speaking audio)
]

flush-Reports : (service : Service) (p : Tts) → Reports p (flush service p)
unfolding flush starts
flush-Reports service p =
    let t = trim_space p.buf in
    elim (Bool-cases (length p.buf == 0 || is_blank t)) [
      | inl nothing ↦ rw nothing (omega arith)
      | inr something ↦ rw something (speak-Reports service t (record p { buf = [] }))
    ]

try_flush-Reports : (service : Service) (p : Tts) → Reports p (try_flush service p)
unfolding try_flush starts
try_flush-Reports service p = elim (Bool-cases (must_flush p)) [
  | inl flushes ↦ rw flushes (flush-Reports service p)
  | inr waits ↦ rw waits (omega arith)
]

then_speak-Reports :
    (service : Service) (t : Text) (p : Tts) (s : Spoken)
    → Reports p s
    → Reports p (then_speak service t s)
unfolding then_speak
then_speak-Reports service t p s h =
    let u = speak service t s.state in
    elim (Bool-cases (length t == 0)) [
      | inl empty ↦ rw empty h
      | inr words ↦
          rw words (omega (arith, starts-append s.pushed u.pushed, speak-Reports service t s.state))
    ]

then_push-Reports :
    (f : Content) (p : Tts) (s : Spoken)
    → starts (f ∷ []) ≡ 0
    → Reports p s
    → Reports p (then_push f s)
unfolding then_push
then_push-Reports f p s none' h = omega (arith, starts-append s.pushed (f ∷ []))

process_frame-Reports :
    (service : Service) (f : Input) (p : Tts)
    → is_plain f ≡ true
    → Reports p (process_frame service f p)
unfolding process_frame is_plain starts
process_frame-Reports service (tts_speak t) p h =
    then_speak-Reports service t p (flush service p) (flush-Reports service p)
process_frame-Reports service (frame (llm_text t)) p h =
    try_flush-Reports service (record p { buf = p.buf ++ t })
process_frame-Reports service (frame (text t)) p h =
    try_flush-Reports service (record p { buf = p.buf ++ t })
process_frame-Reports service (frame user_started_speaking) p h = cc
process_frame-Reports service (frame (start a)) p h = cc
process_frame-Reports service (frame bot_started_speaking) p h = cc
process_frame-Reports service (frame f) p h =
    then_push-Reports f p (flush service p) refl (flush-Reports service p)

run-Reports : (ts : List Turn) (p : Tts) → all_plain ts ≡ true → Reports p (run ts p)
unfolding run all_plain starts
run-Reports [] p h = omega arith
run-Reports (t ∷ ts) p h =
    let s = process_frame t.service t.input p in
    let first : is_plain t.input ≡ true = ground arith in
    let rest : all_plain ts ≡ true = ground arith in
    omega (
      arith,
      process_frame-Reports t.service t.input p first,
      run-Reports ts s.state rest,
      starts-append s.pushed (run ts s.state).pushed,
    )

-- Until the user starts to speak or a StartFrame comes, the bot is reported to start at most once, and
-- not at all if it is taken for speaking already, however many texts are spoken.
pub run-one_start :
    (ts : List Turn) (p : Tts)
    → all_plain ts ≡ true
    → starts (run ts p).pushed + one_if p.bot_speaking ≤ 1
run-one_start ts p h = ground (arith, run-Reports ts p h)

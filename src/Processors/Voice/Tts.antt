-- ===== src/Processors/Voice/Tts.antt =====
-- pkg/processors/voice/tts.go: TTSProcessor. The audio that the service gives for a text is a list of
-- frames' bytes, or none for its error. A limit that is not positive is 0. The frames are those
-- that go down; others pass to the previous processor unchanged.
pub mod Turns
pub mod Reports
use voxray.Base.{
  ℕ, Bool, true, false, ◌&&◌, ◌||◌, not, Option, none, some, List, [], ◌∷◌, ◌++◌, length, leb, ltb,
  ◌==◌, if◌then◌else◌,
}
use voxray.Frames.{
  Text, Content, text, llm_text, tts_audio_raw, user_started_speaking, start, bot_started_speaking,
  bot_stopped_speaking, error,
}
use voxray.Texts.{is_blank, trim_space, has_char}

pub record Tts : Type 0 where
  pub max_batch_runes : ℕ
  pub buf : Text
  pub bot_speaking : Bool

-- NewTTSProcessor
abbrev pub new_tts : Tts
new_tts = record { max_batch_runes = 120; buf = []; bot_speaking = false }

-- TTSSpeakFrame with its text, and every other frame
pub data Input : Type 0 where
  tts_speak : Text → Input
  frame : Content → Input

-- A service, and what a step comes to: the state, the texts sent to it and the frames pushed.
abbrev pub Service : Type 0
Service = Text → Option (List Text)

pub record Spoken : Type 0 where
  pub state : Tts
  pub asked : List Text
  pub pushed : List Content

-- The frames of a text's audio: the bot starts, unless it speaks, and stops behind the last.
unfoldable pub push_audio : Bool → List Text → List Content
push_audio speaking [] = []
push_audio speaking (a ∷ as') =
    let rest = push_audio true as' in
    (if speaking then [] else bot_started_speaking ∷ [])
    ++ tts_audio_raw a ∷ (if length as' == 0 then bot_stopped_speaking ∷ [] else rest)

unfoldable pub spoken_audio : Option (List Text) → Text → Tts → Spoken
spoken_audio none t p = record { state = p; asked = t ∷ []; pushed = error false ∷ [] }
spoken_audio (some audio) t p = record {
  state = record p { bot_speaking = p.bot_speaking || not (length audio == 0) };
  asked = t ∷ [];
  pushed = push_audio p.bot_speaking audio;
}

unfoldable pub speak : Service → Text → Tts → Spoken
speak service t p = spoken_audio (service t) t p

abbrev pub idle : Tts → Spoken
idle p = record { state = p; asked = []; pushed = [] }

unfoldable pub flush : Service → Tts → Spoken
flush service p =
    let t = trim_space p.buf in
    let q = record p { buf = [] } in
    if length p.buf == 0 || is_blank t then idle q else speak service t q

-- ttsSentenceEnd, with the Devanagari danda
abbrev pub sentence_end : Text
sentence_end = 46 ∷ 33 ∷ 63 ∷ 10 ∷ 2404 ∷ []

-- ContainsRune, of any of some
unfoldable pub has_any : Text → Text → Bool
has_any [] s = false
has_any (c ∷ cs) s = has_char c s || has_any cs s

unfoldable pub must_flush : Tts → Bool
must_flush p =
    let count = length p.buf in
    let max_runes = if leb 1 p.max_batch_runes then p.max_batch_runes else 120 in
    leb 1 count && (leb max_runes count || (has_any sentence_end p.buf && leb 30 count))

unfoldable pub try_flush : Service → Tts → Spoken
try_flush service p = if must_flush p then flush service p else idle p

unfoldable pub then_push : Content → Spoken → Spoken
then_push f s = record s { pushed = s.pushed ++ f ∷ [] }

unfoldable pub then_speak : Service → Text → Spoken → Spoken
then_speak service t s =
    let u = speak service t s.state in
    if length t == 0
    then s
    else record { state = u.state; asked = s.asked ++ u.asked; pushed = s.pushed ++ u.pushed }

-- ProcessFrame of a frame that goes down
unfoldable pub process_frame : Service → Input → Tts → Spoken
process_frame service (tts_speak t) p = then_speak service t (flush service p)
process_frame service (frame (llm_text t)) p = try_flush service (record p { buf = p.buf ++ t })
process_frame service (frame (text t)) p = try_flush service (record p { buf = p.buf ++ t })
process_frame service (frame user_started_speaking) p =
    then_push user_started_speaking (idle (record p { buf = []; bot_speaking = false }))
process_frame service (frame (start a)) p =
    then_push (start a) (idle (record p { bot_speaking = false }))
process_frame service (frame f) p = then_push f (flush service p)

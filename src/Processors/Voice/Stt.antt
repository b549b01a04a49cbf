-- ===== src/Processors/Voice/Stt.antt =====
-- pkg/processors/voice/stt.go: STTProcessor. A rate, a number of channels or of milliseconds that is not
-- positive is 0. The frames are those that go down; others pass to the previous processor unchanged.
pub mod Chunks
use voxray.Base.{
  ℕ, ◌*◌, ◌/◌, String, Bool, true, false, Option, none, some, List, [], ◌∷◌, ◌++◌, length, leb, ltb,
  if◌then◌else◌,
}
use voxray.Frames.{Text, Content, audio_raw, transcription, error}
use voxray.Texts.{is_blank, trim_space}

pub record Transcript : Type 0 where
  pub user_id : String
  pub spoken : Text
  pub finalized : Bool

pub record Stt : Type 0 where
  pub min_buffer_bytes : ℕ
  pub buf : Text

abbrev positive_or : ℕ → ℕ → ℕ
positive_or default n = if leb 1 n then n else default

-- NewSTTProcessorWithBuffer, and NewSTTProcessor with 500 milliseconds
unfoldable pub new_stt_with_buffer : ℕ → ℕ → ℕ → Stt
new_stt_with_buffer sample_rate channels min_buffer_ms =
    let min_bytes =
      positive_or 16000 sample_rate
      * positive_or 1 channels
      * 2
      * positive_or 500 min_buffer_ms
      / 1000 in
    record { min_buffer_bytes = if ltb min_bytes 3200 then 3200 else min_bytes; buf = [] }

unfoldable pub new_stt : ℕ → ℕ → Stt
unfolding new_stt_with_buffer
new_stt sample_rate channels = new_stt_with_buffer sample_rate channels 500

-- A transcript that says nothing is not forwarded; others are without the space around them.
unfoldable pub forwarded : List Transcript → List Content
forwarded [] = []
forwarded (t ∷ ts) =
    let said = trim_space t.spoken in
    let rest = forwarded ts in
    if is_blank said then rest else transcription t.user_id said t.finalized ∷ rest

unfoldable pub transcribed : Option (List Transcript) → List Content
transcribed none = error false ∷ []
transcribed (some ts) = forwarded ts

-- What a frame that goes down comes to: the state, the audio sent to the service and the frames pushed.
pub record Heard : Type 0 where
  pub state : Stt
  pub sent : Option Text
  pub pushed : List Content

unfoldable pub hear : (Text → Option (List Transcript)) → Text → Stt → Heard
hear transcribe audio p =
    let buf = p.buf ++ audio in
    if leb p.min_buffer_bytes (length buf)
    then record {
      state = record p { buf = [] };
      sent = some buf;
      pushed = transcribed (transcribe buf);
    }
    else record { state = record p { buf = buf }; sent = none; pushed = [] }

unfoldable pub process_frame : (Text → Option (List Transcript)) → Content → Stt → Heard
process_frame transcribe (audio_raw audio) p = hear transcribe audio p
process_frame transcribe f p = record { state = p; sent = none; pushed = f ∷ [] }

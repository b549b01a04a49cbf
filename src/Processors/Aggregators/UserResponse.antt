-- ===== src/Processors/Aggregators/UserResponse.antt =====
-- pkg/processors/aggregators/userresponse/userresponse.go. A frame made by the aggregator has the user id
-- "" and is final; its timestamp is left out.
pub mod Words
use voxray.Base.{
  String, Bool, true, false, List, [], ◌∷◌, ◌++◌, ◌≡◌, refl, ap, ◌∙◌, arith, append-nil,
  append_assoc, inl, inr, Bool-cases, if◌then◌else◌,
}
use voxray.Frames.{Text, Content, transcription, user_stopped_speaking, end_frame, cancel}
use voxray.Texts.{is_blank, trim_space}

-- The buffer after one more text.
unfoldable pub append_text : Text → Text → Text
append_text buf t = if is_blank buf then t else buf ++ 32 ∷ t

unfoldable pub flush_then_forward : Content → Text → Text × List Content
flush_then_forward boundary buf =
    let text = trim_space buf in
    ([], if is_blank text then boundary ∷ [] else transcription "" text true ∷ boundary ∷ [])

-- ProcessFrame of a frame that goes down: the buffer, and the frames pushed.
unfoldable pub process_frame : Content → Text → Text × List Content
process_frame (transcription user t final) buf = (append_text buf t, [])
process_frame user_stopped_speaking buf = flush_then_forward user_stopped_speaking buf
process_frame end_frame buf = flush_then_forward end_frame buf
process_frame cancel buf = flush_then_forward cancel buf
process_frame f buf = (buf, f ∷ [])

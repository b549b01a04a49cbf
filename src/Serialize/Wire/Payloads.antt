-- ===== src/Serialize/Wire/Payloads.antt =====
-- A frame that is encoded is decoded to the frame that its receiver is to see.
use voxray.Base.{
  ℕ, zero, ◌<◌, ◌≤◌, Option, none, some, [], ◌++◌, length, true, false, ◌≡◌, refl, ap, sym, ◌∙◌,
  arith, append-nil, append_assoc, length-append, Bool, if◌then◌else◌, ◌==◌,
}
use voxray.Base.Int.{ℤ, pos, negsuc}
use voxray.Audio.Pcm.{Bytes}
use voxray.Texts.{codes}
use voxray.Serialize.Varint.{ok, varint, two64}
use voxray.Serialize.Wire.{
  tag, length_delimited, varint_field, FrameBase, WireFrame, text_frame, transcription_frame,
  audio_frame, message_frame, other_frame, audio_raw, uint64, frame_name, audio_frame_type,
  head_fields, encode_text_frame, encode_transcription_frame,
}
use voxray.Serialize.Wire.Decoding.{
  read_length_delimited, read_fields, of_uint64, uint32, FoundFields, nothing_found, text_varint,
  text_bytes, transcription_bytes, decoded_base, num_frames, decode_text_frame,
  decode_transcription_frame, decode_field, decode_frame_wire, decode_tagged,
}
use voxray.Serialize.Wire.Fields.{
  read_tag-tag, read_length_delimited-append, read_fields-varint_field,
  read_fields-length_delimited, read_fields_empty,
}

pub length-length_delimited :
    (k : ℕ) (payload : Bytes) → length payload ≤ length (length_delimited k payload)
unfolding length_delimited
length-length_delimited k payload = omega (
  arith,
  length-append (tag k 2) (varint (length payload) ++ payload),
  length-append (varint (length payload)) payload,
)

-- The range of int64
abbrev pub IsInt64 : ℤ → Type 0
IsInt64 (pos n) = n < 9223372036854775808
IsInt64 (negsuc n) = n < 9223372036854775808

pub uint64-lt : (z : ℤ) → IsInt64 z → uint64 z < two64
unfolding uint64
uint64-lt (pos n) h = omega arith
uint64-lt (negsuc n) h = omega arith

pub of_uint64-uint64 : (z : ℤ) → IsInt64 z → of_uint64 (uint64 z) ≡ z
unfolding of_uint64 uint64
of_uint64-uint64 (pos n) h = ground arith
of_uint64-uint64 (negsuc n) h = ground arith

unfoldable pub named : ℕ → FrameBase → Option ℤ → Bytes → FrameBase
named fresh base pts frame_type = record {
  id = if base.id == 0 then fresh else base.id;
  pts = pts;
  name = frame_name frame_type base.id;
}

unfoldable pub nonzero : Option ℤ → Option ℤ
nonzero (some (pos zero)) = none
nonzero pts = pts

-- The two fields that each frame begins with.
module _ (strict : Bool) (on_varint : ℕ → ℕ → FoundFields → FoundFields)
    (on_bytes : ℕ → Bytes → FoundFields → FoundFields) where
  pub read-head_fields :
      (frame_type : Bytes) (id : ℕ) (s : FoundFields) (rest : Bytes)
      → id < two64
      → length (frame_name frame_type id) ≤ 1000000000
      → read_fields strict on_varint on_bytes s (head_fields frame_type id ++ rest)
        ≡ read_fields strict on_varint on_bytes
            (on_bytes 2 (frame_name frame_type id) (on_varint 1 id s))
            rest
  unfolding head_fields
  read-head_fields frame_type id s rest hid hname =
      let name = frame_name frame_type id in
      rw (append_assoc (varint_field 1 id) (length_delimited 2 name) rest) (
        read_fields-varint_field strict on_varint on_bytes 1 id s (length_delimited 2 name ++ rest)
          (omega arith) hid
        ∙ read_fields-length_delimited strict on_varint on_bytes 2 name (on_varint 1 id s) rest
            (omega arith) hname)

  -- The last field that is bytes.
  pub read-last_bytes :
      (k : ℕ) (payload : Bytes) (s : FoundFields)
      → k < 1000
      → length payload ≤ 1000000000
      → read_fields strict on_varint on_bytes s (length_delimited k payload)
        ≡ ok (on_bytes k payload s)
  read-last_bytes k payload s hk h =
      ap (read_fields strict on_varint on_bytes s) (sym (append-nil (length_delimited k payload)))
      ∙ read_fields-length_delimited strict on_varint on_bytes k payload s [] hk h
      ∙ read_fields_empty strict on_varint on_bytes (on_bytes k payload s)

module _ {M : Type 0} (of_json : Bytes → Option M) (fresh : ℕ) where
  -- The outer field is taken off.
  pub decode-length_delimited :
      (k : ℕ) (payload : Bytes)
      → k < 1000
      → length payload ≤ 1000000000
      → decode_frame_wire of_json fresh (length_delimited k payload)
        ≡ decode_field of_json fresh k (ok payload)
  unfolding decode_frame_wire decode_tagged length_delimited
  decode-length_delimited k payload hk h =
      let body = varint (length payload) ++ payload in
      let read : read_length_delimited body ≡ (ok payload, []) =
        ap (λ bs. read_length_delimited (varint (length payload) ++ bs)) (sym (append-nil payload))
        ∙ read_length_delimited-append payload [] h in
      rw (read_tag-tag k 2 body hk (omega arith), read) refl

-- What the receiver gets: text, transcriptions and audio under their ids, a fresh one for 0, with the
-- name that was sent in the metadata; audio of each kind as AudioRawFrame, with its rates as uint32
-- and a PTS unless that is 0; a text that does not go to the context and a transcription that does;
-- and a message under a fresh id.
unfoldable pub received : {M : Type 0} → ℕ → WireFrame M → WireFrame M
received fresh (text_frame base text _) =
    text_frame (named fresh base none (codes "TextFrame")) text false
received fresh (transcription_frame base text _ user_id timestamp) =
    transcription_frame (named fresh base none (codes "TranscriptionFrame")) text true user_id
      timestamp
received fresh (audio_frame type base audio rate channels _) =
    let channels' = uint32 (uint64 channels) in
    audio_frame audio_raw (named fresh base (nonzero base.pts) (audio_frame_type type)) audio
      (pos (uint32 (uint64 rate))) (pos channels') (num_frames audio channels')
received fresh (message_frame _ message) =
    message_frame (record { id = fresh; pts = none; name = [] }) message
received fresh other_frame = other_frame

pub head_bound :
    (frame_type : Bytes) (id : ℕ) (rest : Bytes)
    → (length (frame_name frame_type id) ≤ length (head_fields frame_type id ++ rest))
      × (length rest ≤ length (head_fields frame_type id ++ rest))
unfolding head_fields
head_bound frame_type id rest =
    let name = frame_name frame_type id in
    let whole = length-append (varint_field 1 id ++ length_delimited 2 name) rest in
    let head = length-append (varint_field 1 id) (length_delimited 2 name) in
    (omega (arith, whole, head, length-length_delimited 2 name), omega (arith, whole, head))

module _ {M : Type 0} (fresh : ℕ) where
  pub text_read :
      (base : FrameBase) (text : Bytes) (to_context : Bool)
      → base.id < two64
      → length (encode_text_frame base.id text) ≤ 1000000000
      → decode_text_frame {M = M} fresh (encode_text_frame base.id text)
        ≡ ok (received fresh (text_frame base text to_context))
  unfolding decode_text_frame encode_text_frame received named decoded_base text_varint text_bytes
  text_read base text to_context hid h =
      let (hn, hr) = head_bound (codes "TextFrame") base.id (length_delimited 3 text) in
      rw
        (
          read-head_fields false text_varint text_bytes (codes "TextFrame") base.id nothing_found
              (length_delimited 3 text) hid (omega arith),
          read-last_bytes false text_varint text_bytes 3 text
              (text_bytes 2 (frame_name (codes "TextFrame") base.id)
                (text_varint 1 base.id nothing_found))
              (omega arith) (omega (arith, length-length_delimited 3 text)),
        )
        refl

  pub transcription_read :
      (base : FrameBase) (text : Bytes) (to_context : Bool) (user_id timestamp : Bytes)
      → base.id < two64
      → length (encode_transcription_frame base.id text user_id timestamp) ≤ 1000000000
      → decode_transcription_frame {M = M} fresh
          (encode_transcription_frame base.id text user_id timestamp)
        ≡ ok (received fresh (transcription_frame base text to_context user_id timestamp))
  unfolding decode_transcription_frame encode_transcription_frame received named decoded_base
      text_varint transcription_bytes
  transcription_read base text to_context user_id timestamp hid h =
      let type = codes "TranscriptionFrame" in
      let last = length_delimited 4 user_id ++ length_delimited 5 timestamp in
      let body = length_delimited 3 text ++ last in
      let (hn, hr) = head_bound type base.id body in
      let h3 = length-append (length_delimited 3 text) last in
      let h4 = length-append (length_delimited 4 user_id) (length_delimited 5 timestamp) in
      let b3 = length-length_delimited 3 text in
      let b4 = length-length_delimited 4 user_id in
      let b5 = length-length_delimited 5 timestamp in
      let s0 =
        transcription_bytes 2 (frame_name type base.id) (text_varint 1 base.id nothing_found) in
      let s1 = transcription_bytes 3 text s0 in
      let s2 = transcription_bytes 4 user_id s1 in
      let reads = read_fields false text_varint transcription_bytes in
      let all : reads nothing_found (head_fields type base.id ++ body)
          ≡ ok (transcription_bytes 5 timestamp s2) =
        read-head_fields false text_varint transcription_bytes type base.id nothing_found body hid
          (omega arith)
        ∙ read_fields-length_delimited false text_varint transcription_bytes 3 text s0 last
            (omega arith) (omega arith)
        ∙ read_fields-length_delimited false text_varint transcription_bytes 4 user_id s1
            (length_delimited 5 timestamp) (omega arith) (omega arith)
        ∙ read-last_bytes false text_varint transcription_bytes 5 timestamp s2 (omega arith)
            (omega arith) in
      rw all refl

-- ===== src/Serialize/Wire/Decoding.antt =====
-- The decoders of pkg/frames/serialize/wire.go, over the bytes that are left to read.
use voxray.Base.{
  ℕ, zero, suc, ◌-◌, ◌*◌, ◌/◌, ◌%◌, Bool, true, false, Option, none, some, [], length, ltb, ◌==◌,
  if◌then◌else◌,
}
use voxray.Base.Int.{ℤ, pos, negsuc}
use voxray.Audio.Pcm.{Bytes}
use voxray.Serialize.Varint.{
  eof, too_long, wrong_wire_type, unknown_field, bad_json, out_of_fuel, Result, ok, err, two64,
  read_varint, read_full,
}
use voxray.Serialize.Wire.{
  FrameBase, WireFrame, audio_frame, audio_raw, message_frame, text_frame, transcription_frame,
}

-- readTag: the field's number and the wire type
unfoldable pub read_tag : Bytes → Result (ℕ × ℕ) × Bytes
read_tag bs =
    let (v, rest) = read_varint bs in (elim v [ ok n ↦ ok (n / 8, n % 8) | err e ↦ err e ], rest)

unfoldable pub read_payload : Result ℕ → Bytes → Result Bytes × Bytes
read_payload (ok n) rest = if ltb 1000000000 n then (err too_long, rest) else read_full n rest
read_payload (err e) rest = (err e, rest)

unfoldable pub read_length_delimited : Bytes → Result Bytes × Bytes
read_length_delimited bs = let (v, rest) = read_varint bs in read_payload v rest

-- int64 of a uint64, and uint32
unfoldable pub of_uint64 : ℕ → ℤ
of_uint64 v = if ltb v 9223372036854775808 then pos v else negsuc (two64 - 1 - v)

unfoldable pub uint32 : ℕ → ℕ
uint32 v = v % 4294967296

-- One round of a loop that reads fields: it stops, or goes on with what is left.
pub data FieldRound (S : Type 0) : Type 0 where
  stop : Result S → FieldRound S
  next : S → Bytes → FieldRound S

-- The loops of the decoders, over what a field does to what has been read. The decoders of text and
-- transcriptions take a number that cannot be read as 0; that of audio is strict.
module _ {S : Type 0} (strict : Bool) (on_varint : ℕ → ℕ → S → S)
    (on_bytes : ℕ → Bytes → S → S) where
  unfoldable pub take_varint : ℕ → S → Result ℕ × Bytes → FieldRound S
  take_varint k s (ok v, rest) = next (on_varint k v s) rest
  take_varint k s (err e, rest) = if strict then stop (err e) else next (on_varint k 0 s) rest

  unfoldable pub take_bytes : ℕ → S → Result Bytes × Bytes → FieldRound S
  take_bytes k s (ok bs, rest) = next (on_bytes k bs s) rest
  take_bytes k s (err e, rest) = stop (err e)

  -- A field of another wire type is not skipped: its tag alone is.
  unfoldable pub take_field : S → Result (ℕ × ℕ) × Bytes → FieldRound S
  take_field s (ok (k, wire_type), rest) =
      if wire_type == 0
      then take_varint k s (read_varint rest)
      else if wire_type == 2
      then take_bytes k s (read_length_delimited rest)
      else next s rest
  take_field s (err eof, rest) = stop (ok s)
  take_field s (err e, rest) = stop (err e)

  unfoldable pub field_loop : ℕ → S → Bytes → Result S
  field_loop zero s bs = err out_of_fuel
  field_loop (suc n) s bs = elim (take_field s (read_tag bs)) [
    | stop r ↦ r
    | next s' rest ↦ field_loop n s' rest
  ]

  -- Each round but the last takes a byte.
  unfoldable pub read_fields : S → Bytes → Result S
  read_fields s bs = field_loop (suc (length bs)) s bs

-- What a decoder has read so far.
pub record FoundFields : Type 0 where
  pub id : ℕ
  pub name : Bytes
  pub content : Bytes  -- the text, or the audio
  pub user_id : Bytes
  pub timestamp : Bytes
  pub sample_rate : ℕ
  pub num_channels : ℕ
  pub pts : ℕ

abbrev pub nothing_found : FoundFields
nothing_found = record {
  id = 0;
  name = [];
  content = [];
  user_id = [];
  timestamp = [];
  sample_rate = 0;
  num_channels = 0;
  pts = 0;
}

-- The switches of decodeTextFrameWire
unfoldable pub text_varint : ℕ → ℕ → FoundFields → FoundFields
text_varint k v s = if k == 1 then record s { id = v } else s

unfoldable pub text_bytes : ℕ → Bytes → FoundFields → FoundFields
text_bytes k bs s =
    if k == 3 then record s { content = bs } else if k == 2 then record s { name = bs } else s

-- Of decodeTranscriptionFrameWire, whose numbers are those of text
unfoldable pub transcription_bytes : ℕ → Bytes → FoundFields → FoundFields
transcription_bytes k bs s =
    if k == 3
    then record s { content = bs }
    else if k == 4
    then record s { user_id = bs }
    else if k == 5
    then record s { timestamp = bs }
    else if k == 2
    then record s { name = bs }
    else s

-- Of decodeAudioFrameWire, whose bytes have the numbers of a text's
unfoldable pub audio_varint : ℕ → ℕ → FoundFields → FoundFields
audio_varint k v s =
    if k == 1
    then record s { id = v }
    else if k == 4
    then record s { sample_rate = uint32 v }
    else if k == 5
    then record s { num_channels = uint32 v }
    else if k == 6
    then record s { pts = v }
    else s

-- The base of a decoded frame; `fresh` is the id that the process gives next.
unfoldable pub decoded_base : ℕ → FoundFields → FrameBase
decoded_base fresh s = record { id = if s.id == 0 then fresh else s.id; pts = none; name = s.name }

unfoldable pub num_frames : Bytes → ℕ → ℕ
num_frames audio channels = if channels == 0 then 0 else length audio / (channels * 2)

unfoldable pub decoded_audio : {M : Type 0} → ℕ → FoundFields → WireFrame M
decoded_audio fresh s =
    audio_frame audio_raw
      (record (decoded_base fresh s) { pts = if s.pts == 0 then none else some (of_uint64 s.pts) })
      s.content (pos s.sample_rate) (pos s.num_channels) (num_frames s.content s.num_channels)

abbrev pub map_ok : {A B : Type 0} → (A → B) → Result A → Result B
map_ok f (ok a) = ok (f a)
map_ok f (err e) = err e

unfoldable pub decode_text_frame : {M : Type 0} → ℕ → Bytes → Result (WireFrame M)
decode_text_frame fresh payload =
    map_ok (λ s. text_frame (decoded_base fresh s) s.content false)
      (read_fields false text_varint text_bytes nothing_found payload)

unfoldable pub decode_transcription_frame : {M : Type 0} → ℕ → Bytes → Result (WireFrame M)
decode_transcription_frame fresh payload =
    map_ok (λ s. transcription_frame (decoded_base fresh s) s.content true s.user_id s.timestamp)
      (read_fields false text_varint transcription_bytes nothing_found payload)

unfoldable pub decode_audio_frame : {M : Type 0} → ℕ → Bytes → Result (WireFrame M)
decode_audio_frame fresh payload =
    map_ok (λ s. decoded_audio fresh s)
      (read_fields true audio_varint text_bytes nothing_found payload)

module _ {M : Type 0} (of_json : Bytes → Option M) (fresh : ℕ) where
  unfoldable pub new_message : Option M → Result (WireFrame M)
  new_message none = err bad_json
  new_message (some message) =
      ok (message_frame (record { id = fresh; pts = none; name = [] }) message)

  unfoldable pub parse_message : Result Bytes → Result (WireFrame M)
  parse_message (err e) = err e
  parse_message (ok bs) = new_message (of_json bs)

  unfoldable pub decode_message_tagged : Result (ℕ × ℕ) × Bytes → Result (WireFrame M)
  decode_message_tagged (err e, rest) = err e
  decode_message_tagged (ok (_, wire_type), rest) =
      if wire_type == 2 then parse_message (read_length_delimited rest).0 else err wrong_wire_type

  unfoldable pub decode_message_frame : Bytes → Result (WireFrame M)
  decode_message_frame payload = decode_message_tagged (read_tag payload)

  -- The switch of decodeFrameWire
  unfoldable pub decode_field : ℕ → Result Bytes → Result (WireFrame M)
  decode_field k (err e) = err e
  decode_field k (ok payload) =
      if k == 1
      then decode_text_frame fresh payload
      else if k == 3
      then decode_transcription_frame fresh payload
      else if k == 2
      then decode_audio_frame fresh payload
      else if k == 4
      then decode_message_frame payload
      else err unknown_field

  unfoldable pub decode_tagged : Result (ℕ × ℕ) × Bytes → Result (WireFrame M)
  decode_tagged (err e, rest) = err e
  decode_tagged (ok (k, wire_type), rest) =
      if wire_type == 2 then decode_field k (read_length_delimited rest).0 else err wrong_wire_type

  -- decodeFrameWire, which ignores what follows the frame
  unfoldable pub decode_frame_wire : Bytes → Result (WireFrame M)
  decode_frame_wire bs = decode_tagged (read_tag bs)

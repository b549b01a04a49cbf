-- ===== src/Serialize/Wire.antt =====
-- pkg/frames/serialize/wire.go: the binary frames. A text is the list of its bytes. A frame that is
-- decoded without an id gets the next id of the process, an argument; JSON of messages is a parameter.
-- Fields that are neither written nor read, such as Finalized and Language of a transcription, are
-- left out.
pub mod Decoding
pub mod Fields
pub mod Payloads
pub mod RoundTrip
pub mod Termination
use voxray.Base.{
  ℕ, zero, suc, ◌+◌, ◌-◌, ◌*◌, ◌/◌, ◌%◌, Bool, true, false, Option, none, some, List, [], ◌∷◌, ◌++◌,
  length, leb, ltb, ◌==◌, if◌then◌else◌,
}
use voxray.Base.Int.{ℤ, pos, negsuc}
use voxray.Audio.Pcm.{Bytes}
use voxray.Texts.{codes}
use voxray.Serialize.Varint.{
  WireError, eof, too_long, wrong_wire_type, unknown_field, bad_json, out_of_fuel, Result, ok, err,
  varint, two64, read_varint, read_full,
}

-- appendTag, for a field's number and a wire type
unfoldable pub tag : ℕ → ℕ → Bytes
tag field_num wire_type = varint (field_num * 8 + wire_type)

abbrev pub wire_varint : ℕ
wire_varint = 0

abbrev pub wire_length_delimited : ℕ
wire_length_delimited = 2

-- appendLengthDelimited; appendString and appendBytes are the same of bytes.
unfoldable pub length_delimited : ℕ → Bytes → Bytes
length_delimited field_num payload =
    tag field_num wire_length_delimited ++ (varint (length payload) ++ payload)

-- A number as a field: appendTag and appendVarint.
unfoldable pub varint_field : ℕ → ℕ → Bytes
varint_field field_num v = tag field_num wire_varint ++ varint v

-- uint64 of an int64
unfoldable pub uint64 : ℤ → ℕ
uint64 (pos n) = n
uint64 (negsuc n) = two64 - 1 - n

-- strconv.FormatUint in base 10, for a number of digits: 20 for a uint64
unfoldable pub format_digits : ℕ → ℕ → Bytes
format_digits zero n = []
format_digits (suc k) n =
    let front = format_digits k (n / 10) in
    if ltb n 10 then (48 + n) ∷ [] else front ++ (48 + n % 10) ∷ []

unfoldable pub frame_name : Bytes → ℕ → Bytes
frame_name frame_type id = frame_type ++ 35 ∷ format_digits 20 id

-- The audio frames, which are encoded alike.
pub data AudioType : Type 0 where
  audio_raw output_audio_raw tts_audio_raw : AudioType

unfoldable pub audio_frame_type : AudioType → Bytes
audio_frame_type audio_raw = codes "AudioRawFrame"
audio_frame_type output_audio_raw = codes "OutputAudioRawFrame"
audio_frame_type tts_audio_raw = codes "TTSAudioRawFrame"

-- What the frames have in common; the name is that in the metadata, empty where there is none.
pub record FrameBase : Type 0 where
  pub id : ℕ
  pub pts : Option ℤ
  pub name : Bytes

-- The frames that are encoded, with what is written or read of them: text and AppendToContext, then
-- user and time; audio, then SampleRate, NumChannels and NumFrames.
pub data WireFrame (M : Type 0) : Type 0 where
  text_frame : FrameBase → Bytes → Bool → WireFrame M
  transcription_frame : FrameBase → Bytes → Bool → Bytes → Bytes → WireFrame M
  audio_frame : AudioType → FrameBase → Bytes → ℤ → ℤ → ℕ → WireFrame M
  message_frame : FrameBase → M → WireFrame M
  other_frame : WireFrame M

unfoldable pub head_fields : Bytes → ℕ → Bytes
head_fields frame_type id = varint_field 1 id ++ length_delimited 2 (frame_name frame_type id)

unfoldable pub encode_text_frame : ℕ → Bytes → Bytes
encode_text_frame id text = head_fields (codes "TextFrame") id ++ length_delimited 3 text

unfoldable pub encode_transcription_frame : ℕ → Bytes → Bytes → Bytes → Bytes
encode_transcription_frame id text user_id timestamp =
    head_fields (codes "TranscriptionFrame") id
    ++ (length_delimited 3 text ++ (length_delimited 4 user_id ++ length_delimited 5 timestamp))

unfoldable pub pts_field : Option ℤ → Bytes
pts_field none = []
pts_field (some pts) = varint_field 6 (uint64 pts)

unfoldable pub encode_audio_frame : AudioType → FrameBase → Bytes → ℤ → ℤ → Bytes
encode_audio_frame type base audio sample_rate num_channels =
    head_fields (audio_frame_type type) base.id
    ++ (length_delimited 3 audio
        ++ (varint_field 4 (uint64 sample_rate)
            ++ (varint_field 5 (uint64 num_channels) ++ pts_field base.pts)))

unfoldable pub encode_message : Option Bytes → Result (Option Bytes)
encode_message none = err bad_json
encode_message (some json) = ok (some (length_delimited 4 (length_delimited 1 json)))

module _ {M : Type 0} (to_json : M → Option Bytes) where
  -- encodeFrameWire: nothing for a frame of another type.
  unfoldable pub encode_frame_wire : WireFrame M → Result (Option Bytes)
  encode_frame_wire (text_frame base text _) =
      ok (some (length_delimited 1 (encode_text_frame base.id text)))
  encode_frame_wire (transcription_frame base text _ user_id timestamp) =
      ok (some (length_delimited 3 (encode_transcription_frame base.id text user_id timestamp)))
  encode_frame_wire (audio_frame type base audio rate channels _) =
      ok (some (length_delimited 2 (encode_audio_frame type base audio rate channels)))
  encode_frame_wire (message_frame _ message) = encode_message (to_json message)
  encode_frame_wire other_frame = ok none

-- ===== src/Tests/Serialize.antt =====
-- pkg/frames/serialize and pkg/frames/proto/wire at concrete bytes.
use voxray.Serialize.Wire.Decoding.{
  decode_field, decode_frame_wire, decode_tagged, read_length_delimited, read_payload, read_tag,
}
use voxray.Serialize.Wire.{pts_field}
use voxray.Serialize.Wire.{uint64}
use voxray.Serialize.Wire.{format_digits}
use voxray.Serialize.Wire.{audio_frame_type}
use voxray.Serialize.Wire.{frame_name}
use voxray.Serialize.Wire.{varint_field}
use voxray.Serialize.Wire.{head_fields}
use voxray.Serialize.Wire.{tag}
use voxray.Serialize.Varint.{varint_bytes}
use voxray.Serialize.Envelope.{envelope_field}
use voxray.Serialize.Varint.{read_full}
use voxray.Serialize.Varint.{read_varint_loop}
use voxray.Base.{
  sym, subst, leb, ◌≤◌, some, Option, [], ◌∷◌, ◌++◌, length, true, ◌≡◌, ◌≢◌, refl, arith, leb→le,
}
use voxray.Base.Int.{ℤ, pos, negsuc}
use voxray.Audio.Pcm.{Bytes}
use voxray.Serialize.Varint.{
  ok, err, unexpected_eof, out_of_fuel, varint, length-varint, read_varint, read_varint-varint,
}
use voxray.Serialize.Wire.{
  WireFrame, audio_frame, tts_audio_raw, encode_frame_wire, length_delimited, encode_audio_frame,
}
use voxray.Serialize.Wire.Payloads.{received, IsInt64}
use voxray.Serialize.Wire.RoundTrip.{InRange, decode_frame_wire-encode_frame_wire}
use voxray.Serialize.Wire.Termination.{decode_frame_wire_ends}
use voxray.Serialize.Envelope.{marshal, unmarshal, parsed, panic, no_fuel}
use voxray.Serialize.Envelope.RoundTrip.{unmarshal-marshal, unmarshal_ends}
use voxray.Serialize.Envelope.Overflow.{unmarshal_panics}

read_varint-varint_example : read_varint (varint 300 ++ 7 ∷ []) ≡ (ok 300, 7 ∷ [])
read_varint-varint_example = read_varint-varint 300 (7 ∷ []) (omega arith)

-- A JSON that is its own text.
abbrev to_json : Bytes → Option Bytes
to_json m = some m

-- Speech with a PTS and a negative rate.
abbrev speech : WireFrame Bytes
speech =
    audio_frame tts_audio_raw (record { id = 9; pts = some (pos 5); name = [] }) (1 ∷ 2 ∷ [])
      (negsuc 0) (pos 1) 1

abbrev speech_bytes : Bytes
speech_bytes = length_delimited 2 (
    encode_audio_frame tts_audio_raw (record { id = 9; pts = some (pos 5); name = [] }) (1 ∷ 2 ∷ [])
      (negsuc 0) (pos 1))

five : (z : ℤ) → some (pos 5) ≡ some z → IsInt64 z
five z e = let same : pos 5 ≡ z = cc in subst (λ t. IsInt64 t) same (omega arith)

short_enough : leb (length speech_bytes) 1000000000 ≡ true
unfolding length_delimited tag varint varint_bytes encode_audio_frame head_fields varint_field
    frame_name audio_frame_type format_digits uint64 pts_field
short_enough = refl

speech_short : length speech_bytes ≤ 1000000000
speech_short = leb→le (length speech_bytes) 1000000000 short_enough

decode_frame_wire-encode_frame_wire_example :
    decode_frame_wire to_json 77 speech_bytes ≡ ok (received 77 speech)
unfolding InRange encode_frame_wire
decode_frame_wire-encode_frame_wire_example =
    decode_frame_wire-encode_frame_wire to_json to_json 77 (λ m bs e. sym e) speech speech_bytes
      (omega arith, omega arith, omega arith, λ z e. five z e) refl speech_short

decode_frame_wire_ends_example : decode_frame_wire to_json 77 (10 ∷ 3 ∷ 8 ∷ []) ≢ err out_of_fuel
decode_frame_wire_ends_example = decode_frame_wire_ends to_json 77 (10 ∷ 3 ∷ 8 ∷ [])

-- A frame cut short is refused.
cut_short : decode_frame_wire to_json 77 (10 ∷ 3 ∷ 8 ∷ []) ≡ err unexpected_eof
unfolding decode_frame_wire decode_tagged read_tag read_varint read_varint_loop decode_field
    read_length_delimited read_payload read_full
cut_short = refl

unmarshal-marshal_example :
    unmarshal (marshal (record { type = []; payload = 123 ∷ 125 ∷ [] }))
    ≡ parsed (record { type = []; payload = 123 ∷ 125 ∷ [] })
unfolding marshal envelope_field varint varint_bytes
unmarshal-marshal_example =
    unmarshal-marshal (record { type = []; payload = 123 ∷ 125 ∷ [] }) (omega arith)

unmarshal_ends_example : unmarshal (10 ∷ 9 ∷ []) ≢ no_fuel
unmarshal_ends_example = unmarshal_ends (10 ∷ 9 ∷ [])

unmarshal_panics_example : unmarshal (10 ∷ (varint 18446744073709551615 ++ 1 ∷ [])) ≡ panic
unmarshal_panics_example =
    unmarshal_panics 10 18446744073709551615 (1 ∷ []) (omega arith) (omega arith)
      (omega (arith, length-varint 18446744073709551615)) (omega arith)

-- ===== src/Serialize/Wire/RoundTrip.antt =====
-- Every frame that is encoded is decoded to the frame that its receiver is to see.
use voxray.Base.{
  ℕ, zero, suc, ◌<◌, ◌≤◌, Option, none, some, [], ◌++◌, length, inl, inr, Option-cases, true, ◌≡◌,
  ◌≢◌, refl, ap, sym, ◌∙◌, arith, append-nil, length-append, if◌then◌else◌, ◌==◌,
}
use voxray.Base.Int.{ℤ, pos, negsuc}
use voxray.Audio.Pcm.{Bytes}
use voxray.Serialize.Varint.{ok, varint, two64}
use voxray.Serialize.Wire.{
  length_delimited, varint_field, FrameBase, WireFrame, AudioType, text_frame, transcription_frame,
  audio_frame, message_frame, other_frame, uint64, frame_name, audio_frame_type, encode_text_frame,
  encode_transcription_frame, pts_field, encode_audio_frame, encode_frame_wire, encode_message,
}
use voxray.Serialize.Wire.Decoding.{
  read_length_delimited, read_fields, of_uint64, uint32, FoundFields, nothing_found, text_bytes,
  audio_varint, decoded_base, decoded_audio, map_ok, decode_audio_frame, parse_message,
  decode_message_frame, decode_field, decode_frame_wire, decode_message_tagged, new_message,
}
use voxray.Serialize.Wire.Fields.{
  read_tag-tag, read_length_delimited-append, read_fields-varint_field,
  read_fields-length_delimited, read_fields_empty,
}
use voxray.Serialize.Wire.Payloads.{
  IsInt64, length-length_delimited, uint64-lt, read-head_fields, head_bound, text_read,
  transcription_read, decode-length_delimited, received, named, nonzero,
}

pts_read :
    (pts : Option ℤ) (s : FoundFields)
    → ((z : ℤ) → pts ≡ some z → IsInt64 z)
    → read_fields true audio_varint text_bytes s (pts_field pts)
      ≡ ok (elim pts [ none ↦ s | some z ↦ record s { pts = uint64 z } ])
unfolding pts_field audio_varint
pts_read none s h = read_fields_empty true audio_varint text_bytes s
pts_read (some z) s h =
    ap (read_fields true audio_varint text_bytes s) (sym (append-nil (varint_field 6 (uint64 z))))
    ∙ read_fields-varint_field true audio_varint text_bytes 6 (uint64 z) s [] (omega arith)
        (uint64-lt z (h z refl))
    ∙ read_fields_empty true audio_varint text_bytes (audio_varint 6 (uint64 z) s)

audio_found : FrameBase → AudioType → Bytes → ℤ → ℤ → FoundFields
audio_found base type audio rate channels = record {
  id = base.id;
  name = frame_name (audio_frame_type type) base.id;
  content = audio;
  user_id = [];
  timestamp = [];
  sample_rate = uint32 (uint64 rate);
  num_channels = uint32 (uint64 channels);
  pts = 0;
}

audio_fields_read :
    (type : AudioType) (base : FrameBase) (audio : Bytes) (rate channels : ℤ)
    → base.id < two64
    → IsInt64 rate
    → IsInt64 channels
    → ((z : ℤ) → base.pts ≡ some z → IsInt64 z)
    → length (encode_audio_frame type base audio rate channels) ≤ 1000000000
    → read_fields true audio_varint text_bytes nothing_found
        (encode_audio_frame type base audio rate channels)
      ≡ ok (elim base.pts [
        | none ↦ audio_found base type audio rate channels
        | some z ↦ record (audio_found base type audio rate channels) { pts = uint64 z }
      ])
unfolding encode_audio_frame audio_varint text_bytes audio_found
audio_fields_read type base audio rate channels hid hr hc hp h =
    let name = audio_frame_type type in
    let c5 = varint_field 5 (uint64 channels) ++ pts_field base.pts in
    let c4 = varint_field 4 (uint64 rate) ++ c5 in
    let body = length_delimited 3 audio ++ c4 in
    let (hn, hb) = head_bound name base.id body in
    let h3 = length-append (length_delimited 3 audio) c4 in
    let b3 = length-length_delimited 3 audio in
    let s0 = text_bytes 2 (frame_name name base.id) (audio_varint 1 base.id nothing_found) in
    let s1 = text_bytes 3 audio s0 in
    let s2 = audio_varint 4 (uint64 rate) s1 in
    let s3 = audio_varint 5 (uint64 channels) s2 in
    read-head_fields true audio_varint text_bytes name base.id nothing_found body hid (omega arith)
    ∙ read_fields-length_delimited true audio_varint text_bytes 3 audio s0 c4 (omega arith)
        (omega arith)
    ∙ read_fields-varint_field true audio_varint text_bytes 4 (uint64 rate) s1 c5 (omega arith)
        (uint64-lt rate hr)
    ∙ read_fields-varint_field true audio_varint text_bytes 5 (uint64 channels) s2
        (pts_field base.pts) (omega arith) (uint64-lt channels hc)
    ∙ pts_read base.pts s3 hp

-- A PTS comes back, but for 0.
pts_back :
    (z : ℤ)
    → IsInt64 z
    → (if uint64 z == 0 then none else some (of_uint64 (uint64 z))) ≡ nonzero (some z)
unfolding nonzero uint64 of_uint64
pts_back (pos zero) h = refl
pts_back (pos (suc n)) h = ground arith
pts_back (negsuc n) h = ground arith

module _ {M : Type 0} (fresh : ℕ) where
  audio_back :
      (type : AudioType) (base : FrameBase) (audio : Bytes) (rate channels : ℤ) (count : ℕ)
      (pts : Option ℤ)
      → ((z : ℤ) → pts ≡ some z → IsInt64 z)
      → decoded_audio {M = M} fresh (elim pts [
        | none ↦ audio_found base type audio rate channels
        | some z ↦ record (audio_found base type audio rate channels) { pts = uint64 z }
      ])
        ≡ received fresh (audio_frame type (record base { pts = pts }) audio rate channels count)
  unfolding received named decoded_audio decoded_base audio_found nonzero
  audio_back type base audio rate channels count none h = refl
  audio_back type base audio rate channels count (some z) h = rw (pts_back z (h z refl)) refl

  audio_read :
      (type : AudioType) (base : FrameBase) (audio : Bytes) (rate channels : ℤ) (count : ℕ)
      → base.id < two64
      → IsInt64 rate
      → IsInt64 channels
      → ((z : ℤ) → base.pts ≡ some z → IsInt64 z)
      → length (encode_audio_frame type base audio rate channels) ≤ 1000000000
      → decode_audio_frame {M = M} fresh (encode_audio_frame type base audio rate channels)
        ≡ ok (received fresh (audio_frame type base audio rate channels count))
  unfolding decode_audio_frame
  audio_read type base audio rate channels count hid hr hc hp h =
      ap (map_ok (decoded_audio fresh))
        (audio_fields_read type base audio rate channels hid hr hc hp h)
      ∙ ap ok (audio_back type base audio rate channels count base.pts hp)

message_read :
    {M : Type 0} (of_json : Bytes → Option M) (fresh : ℕ) (message : M) (json : Bytes)
    → length json ≤ 1000000000
    → of_json json ≡ some message
    → decode_message_frame of_json fresh (length_delimited 1 json)
      ≡ ok (message_frame (record { id = fresh; pts = none; name = [] }) message)
unfolding decode_message_frame decode_message_tagged parse_message new_message length_delimited
message_read of_json fresh message json h back =
    let body = varint (length json) ++ json in
    let read : read_length_delimited body ≡ (ok json, []) =
      ap (λ bs. read_length_delimited (varint (length json) ++ bs)) (sym (append-nil json))
      ∙ read_length_delimited-append json [] h in
    rw (read_tag-tag 1 2 body (omega arith) (omega arith), read)
      (ap (new_message of_json fresh) back)

none_sent : (bs : Bytes) → encode_message none ≢ ok (some bs)
unfolding encode_message
none_sent bs e = cc

message_sent :
    (json bs : Bytes)
    → encode_message (some json) ≡ ok (some bs)
    → bs ≡ length_delimited 4 (length_delimited 1 json)
unfolding encode_message
message_sent json bs e = cc

-- The numbers of a frame are those of their Go types.
unfoldable pub InRange : {M : Type 0} → WireFrame M → Type 0
InRange (text_frame base _ _) = base.id < two64
InRange (transcription_frame base _ _ _ _) = base.id < two64
InRange (audio_frame _ base _ rate channels _) =
    (base.id < two64) × IsInt64 rate × IsInt64 channels × ((z : ℤ) → base.pts ≡ some z → IsInt64 z)
InRange (message_frame _ _) = Unit {0}
InRange other_frame = Unit {0}

module _ {M : Type 0} (to_json : M → Option Bytes) (of_json : Bytes → Option M) (fresh : ℕ)
    (json_back : (m : M) (bs : Bytes) → to_json m ≡ some bs → of_json bs ≡ some m) where
  -- If JSON that is written is read back, what a frame in range is encoded to, of a gigabyte at most,
  -- is decoded to what `received` says of it: text comes back with its text, transcriptions also with
  -- the speaker and the time, audio with its bytes and with the rate and the channels modulo 2^32 and
  -- the number of samples computed from them; these keep an id that is not 0 and get the name that was
  -- sent. A message comes back with a fresh id and no name, and so does the id of 0 of another frame.
  -- Lost are the PTS of texts, of transcriptions and of messages and a PTS of 0, which kind of audio
  -- it was, and whether a text or a transcription goes to the context: the one comes back without, the
  -- other with it.
  pub decode_frame_wire-encode_frame_wire :
      (f : WireFrame M) (bs : Bytes)
      → InRange f
      → encode_frame_wire to_json f ≡ ok (some bs)
      → length bs ≤ 1000000000
      → decode_frame_wire of_json fresh bs ≡ ok (received fresh f)
  unfolding encode_frame_wire InRange decode_field received
  decode_frame_wire-encode_frame_wire (text_frame base text to_context) bs hid e h =
      let payload = encode_text_frame base.id text in
      let same : bs ≡ length_delimited 1 payload = cc in
      let short : length payload ≤ 1000000000 =
        omega (arith, ap length same, length-length_delimited 1 payload) in
      ap (decode_frame_wire of_json fresh) same
      ∙ decode-length_delimited of_json fresh 1 payload (omega arith) short
      ∙ text_read fresh base text to_context hid short
  decode_frame_wire-encode_frame_wire (transcription_frame base text to_context user time) bs hid e
        h =
      let payload = encode_transcription_frame base.id text user time in
      let same : bs ≡ length_delimited 3 payload = cc in
      let short : length payload ≤ 1000000000 =
        omega (arith, ap length same, length-length_delimited 3 payload) in
      ap (decode_frame_wire of_json fresh) same
      ∙ decode-length_delimited of_json fresh 3 payload (omega arith) short
      ∙ transcription_read fresh base text to_context user time hid short
  decode_frame_wire-encode_frame_wire (audio_frame type base audio rate channels count) bs hr e h =
      let payload = encode_audio_frame type base audio rate channels in
      let same : bs ≡ length_delimited 2 payload = cc in
      let short : length payload ≤ 1000000000 =
        omega (arith, ap length same, length-length_delimited 2 payload) in
      ap (decode_frame_wire of_json fresh) same
      ∙ decode-length_delimited of_json fresh 2 payload (omega arith) short
      ∙ audio_read fresh type base audio rate channels count hr.0 hr.1 hr.2 hr.3 short
  decode_frame_wire-encode_frame_wire (message_frame base message) bs hr e h =
      elim (Option-cases (to_json message)) [
        | inl fails ↦ absurd (none_sent bs (sym (ap encode_message fails) ∙ e))
        | inr (json, written) ↦
            let payload = length_delimited 1 json in
            let sent : encode_message (some json) ≡ ok (some bs) =
              sym (ap encode_message written) ∙ e in
            let same : bs ≡ length_delimited 4 payload = message_sent json bs sent in
            let outer = length-length_delimited 4 payload in
            let inner = length-length_delimited 1 json in
            let short : length payload ≤ 1000000000 = omega (arith, ap length same) in
            ap (decode_frame_wire of_json fresh) same
            ∙ decode-length_delimited of_json fresh 4 payload (omega arith) short
            ∙ message_read of_json fresh message json (omega arith) (json_back message json written)
      ]
  decode_frame_wire-encode_frame_wire other_frame bs hr e h = cc

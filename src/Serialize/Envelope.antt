-- ===== src/Serialize/Envelope.antt =====
-- FrameEnvelope of pkg/frames/proto/wire/envelope.go, and the length-prefixed envelopes of
-- pkg/frames/serialize/protobuf.go. A type and a payload are the lists of their bytes; nil is [].
pub mod RoundTrip
pub mod Overflow
use voxray.Base.{
  ℕ, zero, suc, ◌+◌, ◌*◌, ◌/◌, ◌%◌, Bool, true, false, ◌&&◌, ◌||◌, not, Option, none, some, List,
  [], ◌∷◌, ◌++◌, length, take, drop, leb, ltb, ◌==◌, if◌then◌else◌,
}
use voxray.Audio.Pcm.{Bytes}
use voxray.Serialize.Varint.{too_long, Result, ok, err, varint, two64, read_varint, read_full}

pub record FrameEnvelope : Type 0 where
  pub type : Bytes
  pub payload : Bytes

-- One field of appendEnvelope: nothing for an empty one. The tag is 0x0a or 0x12.
unfoldable pub envelope_field : ℕ → Bytes → Bytes
envelope_field tag bs = if ltb 0 (length bs) then tag ∷ (varint (length bs) ++ bs) else []

-- Marshal and appendEnvelope
unfoldable pub marshal : FrameEnvelope → Bytes
marshal m = envelope_field 10 m.type ++ envelope_field 18 m.payload

-- The loop of readVarint, for a number of rounds and the bytes read so far: the value and how many
-- bytes it takes, or none where the code returns -1.
unfoldable pub scan_varint : ℕ → ℕ → ℕ → ℕ → Bytes → Option (ℕ × ℕ)
scan_varint zero n weight x bs = none
scan_varint (suc rounds) n weight x [] = none
scan_varint (suc rounds) n weight x (b ∷ bs) =
    let y = x + b % 128 * weight % two64 in
    let more = scan_varint rounds (n + 1) (weight * 128) y bs in
    if ltb b 128 then some (y, n + 1) else more

-- What Unmarshal comes to: the envelope, or a slice out of bounds.
pub data Parsed : Type 0 where
  parsed : FrameEnvelope → Parsed
  panic : Parsed
  no_fuel : Parsed  -- of the model's loop only

-- The switch over the number of a field
unfoldable pub set_field : ℕ → Bytes → FrameEnvelope → FrameEnvelope
set_field field_num val m =
    if field_num == 1
    then record m { type = val }
    else if field_num == 2
    then record m { payload = val }
    else m

-- parseEnvelope behind a field's tag: the rest, or none where the loop breaks. The sum that the code
-- compares with len(b) is a uint64; b[:v] panics where v is greater than what is left.
pub data Taken : Type 0 where
  broken overrun : Taken
  field : Bytes → Bytes → Taken

unfoldable pub take_value : Option (ℕ × ℕ) → Bytes → Taken
take_value none b = broken
take_value (some (v, n)) b =
    if ltb (length b) ((n + v) % two64)
    then broken
    else let left = drop n b in
      if leb v (length left) then field (take v left) (drop v left) else overrun

-- What a round does with the value; `parse` is the rounds that follow.
unfoldable pub after_value : (FrameEnvelope → Bytes → Parsed) → ℕ → FrameEnvelope → Taken → Parsed
after_value parse tag m broken = parsed m
after_value parse tag m overrun = panic
after_value parse tag m (field val left) = parse (set_field (tag / 8) val m) left

unfoldable pub parse_loop : ℕ → FrameEnvelope → Bytes → Parsed
parse_loop zero m bs = no_fuel
parse_loop (suc fuel) m [] = parsed m
parse_loop (suc fuel) m (tag ∷ b) =
    let more = after_value (parse_loop fuel) tag m (take_value (scan_varint 10 0 1 0 b) b) in
    if ltb (length (tag ∷ b)) 2 || not (tag % 8 == 2) then parsed m else more

-- Unmarshal; each round takes two bytes at least.
unfoldable pub unmarshal : Bytes → Parsed
unmarshal bs = parse_loop (suc (length bs)) (record { type = []; payload = [] }) bs

-- readLengthPrefixed, of the bytes that the stream delivers; `too_long` is io.ErrShortBuffer.
unfoldable pub prefixed_payload : Result ℕ → Bytes → Result Bytes × Bytes
prefixed_payload (ok n) rest = if ltb 1000000000 n then (err too_long, rest) else read_full n rest
prefixed_payload (err e) rest = (err e, rest)

unfoldable pub read_length_prefixed : Bytes → Result Bytes × Bytes
read_length_prefixed bs = let (v, rest) = read_varint bs in prefixed_payload v rest

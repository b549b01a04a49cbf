-- ===== src/Serialize/Envelope/Overflow.antt =====
-- A length that overflows the sum in parseEnvelope.
use voxray.Base.{
  ℕ, ◌+◌, ◌%◌, ◌<◌, ◌≤◌, false, not, ◌||◌, some, ◌∷◌, ◌++◌, length, ◌≡◌, refl, leb, ltb, ◌==◌,
  arith, length-append, drop-append_length,
}
use voxray.Audio.Pcm.{Bytes}
use voxray.Serialize.Varint.{varint, two64, length-varint}
use voxray.Serialize.Envelope.{panic, overrun, take_value, after_value, parse_loop, unmarshal}
use voxray.Serialize.Envelope.RoundTrip.{scan_varint-varint}

take_value_overflows :
    (v : ℕ) (rest : Bytes)
    → v < two64
    → two64 ≤ length (varint v) + v
    → length rest < v
    → take_value (some (v, length (varint v))) (varint v ++ rest) ≡ overrun
unfolding take_value
take_value_overflows v rest hv over short =
    let whole = length-append (varint v) rest in
    let size = length-varint v in
    let goes : ltb (length (varint v ++ rest)) ((length (varint v) + v) % two64) ≡ false =
      ground (arith, whole, size) in
    let past : leb v (length rest) ≡ false = ground arith in
    rw (goes, drop-append_length (varint v) rest, past) refl

-- A message panics Unmarshal whose first field has a length that, added to the bytes of its varint,
-- overflows a uint64, if fewer bytes than that follow.
pub unmarshal_panics :
    (tag v : ℕ) (rest : Bytes)
    → tag % 8 ≡ 2
    → v < two64
    → two64 ≤ length (varint v) + v
    → length rest < v
    → unmarshal (tag ∷ (varint v ++ rest)) ≡ panic
unfolding unmarshal parse_loop after_value
unmarshal_panics tag v rest ht hv over short =
    let b = varint v ++ rest in
    let size = length-varint v in
    let whole = length-append (varint v) rest in
    let goes : (ltb (length (tag ∷ b)) 2 || not (tag % 8 == 2)) ≡ false =
      ground (arith, ht, whole, size) in
    rw (goes, scan_varint-varint v rest hv, take_value_overflows v rest hv over short) refl

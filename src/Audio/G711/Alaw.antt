-- ===== src/Audio/G711/Alaw.antt =====
-- pkg/audio/alaw.go: the table and the encoder of a sample.
use voxray.Base.{
  ℕ, zero, suc, ◌+◌, ◌-◌, ◌*◌, ◌/◌, ◌%◌, ◌&&◌, List, [], ◌∷◌, leb, ltb, if◌then◌else◌,
}
use voxray.Base.Int.{ℤ}
use voxray.Audio.G711.{both_signs, sign_bit, magnitude, encode, decode}
use voxray.Audio.Pcm.{Bytes}

-- alawDecodeTable: its first half holds negative samples, its second half these without the sign.
unfoldable pub alaw_decode_table : List ℤ
alaw_decode_table = both_signs (
    (5504 ∷ 5248 ∷ 6016 ∷ 5760 ∷ 4480 ∷ 4224 ∷ 4992 ∷ 4736 ∷ [])
    ∷ (7552 ∷ 7296 ∷ 8064 ∷ 7808 ∷ 6528 ∷ 6272 ∷ 7040 ∷ 6784 ∷ [])
    ∷ (2752 ∷ 2624 ∷ 3008 ∷ 2880 ∷ 2240 ∷ 2112 ∷ 2496 ∷ 2368 ∷ [])
    ∷ (3776 ∷ 3648 ∷ 4032 ∷ 3904 ∷ 3264 ∷ 3136 ∷ 3520 ∷ 3392 ∷ [])
    ∷ (22016 ∷ 20992 ∷ 24064 ∷ 23040 ∷ 17920 ∷ 16896 ∷ 19968 ∷ 18944 ∷ [])
    ∷ (30208 ∷ 29184 ∷ 32256 ∷ 31232 ∷ 26112 ∷ 25088 ∷ 28160 ∷ 27136 ∷ [])
    ∷ (11008 ∷ 10496 ∷ 12032 ∷ 11520 ∷ 8960 ∷ 8448 ∷ 9984 ∷ 9472 ∷ [])
    ∷ (15104 ∷ 14592 ∷ 16128 ∷ 15616 ∷ 13056 ∷ 12544 ∷ 14080 ∷ 13568 ∷ [])
    ∷ (344 ∷ 328 ∷ 376 ∷ 360 ∷ 280 ∷ 264 ∷ 312 ∷ 296 ∷ [])
    ∷ (472 ∷ 456 ∷ 504 ∷ 488 ∷ 408 ∷ 392 ∷ 440 ∷ 424 ∷ [])
    ∷ (88 ∷ 72 ∷ 120 ∷ 104 ∷ 24 ∷ 8 ∷ 56 ∷ 40 ∷ [])
    ∷ (216 ∷ 200 ∷ 248 ∷ 232 ∷ 152 ∷ 136 ∷ 184 ∷ 168 ∷ [])
    ∷ (1376 ∷ 1312 ∷ 1504 ∷ 1440 ∷ 1120 ∷ 1056 ∷ 1248 ∷ 1184 ∷ [])
    ∷ (1888 ∷ 1824 ∷ 2016 ∷ 1952 ∷ 1632 ∷ 1568 ∷ 1760 ∷ 1696 ∷ [])
    ∷ (688 ∷ 656 ∷ 752 ∷ 720 ∷ 560 ∷ 528 ∷ 624 ∷ 592 ∷ [])
    ∷ (944 ∷ 912 ∷ 1008 ∷ 976 ∷ 816 ∷ 784 ∷ 880 ∷ 848 ∷ [])
    ∷ [])

-- The loop on exp: the exponent and the sample shifted by it, in at most 7 rounds.
unfoldable pub shifted : ℕ → ℕ → ℕ → ℕ × ℕ
shifted zero sample exp = (exp, sample)
shifted (suc fuel) sample exp =
    let rest = shifted fuel (sample / 2) (exp + 1) in
    if leb 256 sample && ltb exp 7 then rest else (exp, sample)

unfoldable pub encode_alaw_magnitude : ℕ → ℕ → ℕ
encode_alaw_magnitude sign m =
    if ltb m 8
    then 255 - (sign + m * 16)
    else let r = shifted 7 m 0 in 255 - (sign + r.0 * 16 + r.1 / 16 % 16)

-- encodeALawSample
unfoldable pub encode_alaw_sample : ℤ → ℕ
encode_alaw_sample s = encode_alaw_magnitude (sign_bit s) (magnitude s)

unfoldable pub encode_alaw : Bytes → Bytes
encode_alaw pcm = encode encode_alaw_sample pcm

unfoldable pub decode_alaw : Bytes → Bytes
decode_alaw alaw = decode alaw_decode_table alaw

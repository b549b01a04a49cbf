-- ===== src/Audio/Wav/RoundTrip.antt =====
-- What is written as a WAV file is read back.
use voxray.Base.{
  ℕ, suc, ◌+◌, ◌*◌, ◌/◌, ◌%◌, ◌<◌, ◌≤◌, false, Option, none, some, [], ◌∷◌, ◌≡◌, refl, ap, ◌∙◌,
  arith, length, take, drop, ltb, ◌==◌, if◌then◌else◌,
}
use voxray.Audio.Pcm.{Bytes}
use voxray.Audio.Wav.{
  uint16_at, uint32_at, put_uint16, put_uint32, same_bytes, decoded, Found, read_chunk, finish,
  read_chunks, decode_wav_to_pcm, pcm16_mono_wav,
}
use voxray.Audio.Wav.Chunks.{read_chunks-read_chunk, read_chunks-finish}

uint32_digits :
    (n : ℕ)
    → n < 4294967296
    → n % 256 + 256 * (n / 256 % 256) + 65536 * (n / 65536 % 256) + 16777216 * (n / 16777216 % 256)
      ≡ n
uint32_digits n h = omega arith

take_all : (bs : Bytes) → take (length bs) bs ≡ bs
take_all [] = refl
take_all (b ∷ bs) = ap (λ t. b ∷ t) (take_all bs)

drop_all : (bs : Bytes) → drop (length bs) bs ≡ []
drop_all [] = refl
drop_all (b ∷ bs) = drop_all bs

-- The chunks that the writer makes.
abbrev data_chunk : Bytes → Bytes
data_chunk pcm = 100 ∷ 97 ∷ 116 ∷ 97 ∷ put_uint32 (length pcm) pcm

abbrev fmt_chunk : ℕ → Bytes → Bytes
fmt_chunk rate rest =
    102
    ∷ 109
    ∷ 116
    ∷ 32
    ∷ put_uint32 16 (
        put_uint16 1 (
          put_uint16 1 (
            put_uint32 rate
              (put_uint32 (rate * 1 * 16 / 8) (put_uint16 (1 * 16 / 8) (put_uint16 16 rest))))))

abbrev found : Option Bytes → ℕ → Found
found pcm rate = record { pcm = pcm; sample_rate = rate }

data_read :
    (fuel : ℕ) (b : ℕ) (bs : Bytes) (rate : ℕ)
    → length (b ∷ bs) < 4294967296
    → read_chunks (suc fuel) (data_chunk (b ∷ bs)) (found none rate)
      ≡ finish (found (some (b ∷ bs)) rate)
unfolding uint32_at put_uint32 read_chunk same_bytes
data_read fuel b bs rate h =
    let pcm = b ∷ bs in
    let size : uint32_at 4 (data_chunk pcm) ≡ length pcm = uint32_digits (length pcm) h in
    let whole = ap (λ n. take n pcm) size ∙ take_all pcm in
    let left = ap (λ n. drop n pcm) size ∙ drop_all pcm in
    read_chunks-read_chunk fuel (data_chunk pcm) (found none rate) (found (some pcm) rate)
      (omega arith) (rw whole (ground arith))
    ∙ ap (λ rest. read_chunks fuel rest (found (some pcm) rate)) left
    ∙ read_chunks-finish fuel [] (found (some pcm) rate) (omega arith)

fmt_read :
    (fuel : ℕ) (rate : ℕ) (rest : Bytes)
    → rate < 4294967296
    → read_chunks (suc fuel) (fmt_chunk rate rest) (found none 0)
      ≡ read_chunks fuel rest (found none rate)
unfolding uint32_at put_uint32 read_chunk same_bytes uint16_at put_uint16
fmt_read fuel rate rest h =
    read_chunks-read_chunk fuel (fmt_chunk rate rest) (found none 0) (found none rate) (omega arith)
      (rw (uint32_digits rate h) refl)

lt→ltb_false : (a b : ℕ) → b ≤ a → ltb a b ≡ false
lt→ltb_false a b h = ground arith

length-pcm16_mono_wav : (pcm : Bytes) (rate : ℕ) → 44 ≤ length (pcm16_mono_wav pcm rate)
unfolding pcm16_mono_wav put_uint32 put_uint16
length-pcm16_mono_wav pcm rate = omega arith

-- The samples and the rate that are written as a WAV file are read back, if there is a sample and both
-- the rate and the number of bytes fit their fields of 32 bits; a rate of 0 is read as 48000.
pub decode_wav_to_pcm-pcm16_mono_wav :
    (b : ℕ) (bs : Bytes) (rate : ℕ)
    → length (b ∷ bs) < 4294967296
    → rate < 4294967296
    → decode_wav_to_pcm (pcm16_mono_wav (b ∷ bs) rate)
      ≡ decoded (b ∷ bs) (if rate == 0 then 48000 else rate)
unfolding decode_wav_to_pcm pcm16_mono_wav same_bytes put_uint32 put_uint16 finish
decode_wav_to_pcm-pcm16_mono_wav b bs rate h k =
    let pcm = b ∷ bs in
    let long : ltb (length (pcm16_mono_wav pcm rate)) 44 ≡ false =
      lt→ltb_false (length (pcm16_mono_wav pcm rate)) 44 (length-pcm16_mono_wav pcm rate) in
    rw long (fmt_read _ rate (data_chunk pcm) k ∙ data_read _ b bs rate h)

-- ===== src/Recording/Recorder/Headers.antt =====
-- The header that wav.go writes and completes.
use voxray.Base.{ℕ, ◌+◌, ◌*◌, ◌/◌, ◌%◌, ◌≡◌, refl, true, [], ◌∷◌, length, arith}
use voxray.Audio.Pcm.{Bytes}
use voxray.Audio.Wav.{put_uint16, put_uint32, pcm16_mono_wav}
use voxray.Recording.Files.{perform, perform_op, write, first_fault, empty_file, at_end}
use voxray.Recording.Recorder.{write_empty_wav_header, finalize_wav}

uint32_mod : (n : ℕ) (rest : Bytes) → put_uint32 (n % 4294967296) rest ≡ put_uint32 n rest
unfolding put_uint32
uint32_mod n rest =
    let zeroth : n % 4294967296 % 256 ≡ n % 256 = omega arith in
    let first : n % 4294967296 / 256 % 256 ≡ n / 256 % 256 = omega arith in
    let second : n % 4294967296 / 65536 % 256 ≡ n / 65536 % 256 = omega arith in
    let third : n % 4294967296 / 16777216 % 256 ≡ n / 16777216 % 256 = omega arith in
    rw (zeroth, first, second, third) refl

-- The header with the sizes of the two chunks.
abbrev pub header : ℕ → ℕ → ℕ → Bytes → Bytes
header rate riff_size data_size pcm =
    82
    ∷ 73
    ∷ 70
    ∷ 70
    ∷ put_uint32 riff_size (
        87
        ∷ 65
        ∷ 86
        ∷ 69
        ∷ 102
        ∷ 109
        ∷ 116
        ∷ 32
        ∷ put_uint32 16 (
            put_uint16 1 (
              put_uint16 1 (
                put_uint32 (rate % 4294967296) (
                  put_uint32 (rate % 4294967296 * 1 * (16 / 8) % 4294967296) (
                    put_uint16 (1 * (16 / 8))
                      (put_uint16 16 (100 ∷ 97 ∷ 116 ∷ 97 ∷ put_uint32 data_size pcm))))))))

pub written_header :
    (rate : ℕ)
    → perform [] (write_empty_wav_header rate) empty_file ≡ (at_end (header rate 0 0 []), true)
unfolding perform perform_op write first_fault write_empty_wav_header put_uint32 put_uint16
written_header rate = refl

-- The sizes are put in front of the samples.
pub sized :
    (rate : ℕ) (n : ℕ) (pcm : Bytes)
    → (finalize_wav [] n 1 (at_end (header rate 0 0 pcm))).0.bytes
      ≡ header rate
          ((4 + 8 + 16 + 8 + n * 1 * (16 / 8) % 4294967296) % 4294967296)
          (n * 1 * (16 / 8) % 4294967296)
          pcm
unfolding perform perform_op write first_fault finalize_wav put_uint32 put_uint16
sized rate n pcm = refl

pub header-pcm16_mono_wav :
    (rate : ℕ) (n : ℕ) (pcm : Bytes)
    → n * 2 ≡ length pcm
    → header rate
        ((4 + 8 + 16 + 8 + n * 1 * (16 / 8) % 4294967296) % 4294967296)
        (n * 1 * (16 / 8) % 4294967296)
        pcm
      ≡ pcm16_mono_wav pcm rate
unfolding pcm16_mono_wav
header-pcm16_mono_wav rate n pcm h =
    let data_size : n * 1 * 2 % 4294967296 ≡ length pcm % 4294967296 = omega (arith, h) in
    let riff_size : (36 + n * 1 * 2 % 4294967296) % 4294967296 ≡ (36 + length pcm) % 4294967296 =
      omega (arith, h) in
    let byte_rate : rate % 4294967296 * 1 * 2 % 4294967296 ≡ rate * 1 * 16 / 8 % 4294967296 =
      omega arith in
    rw (riff_size, data_size, byte_rate) (simp uint32_mod)

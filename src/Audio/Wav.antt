-- ===== src/Audio/Wav.antt =====
-- pkg/audio/wav.go and the WAV writer of dtmf_wav.go. A WAV file is the list of its bytes; the writer
-- is what it puts into the file. The position in the file is what is left of it. A sample rate is not
-- negative.
pub mod Chunks
pub mod RoundTrip
use voxray.Base.{
  ℕ, zero, suc, ◌+◌, ◌*◌, ◌/◌, ◌%◌, Bool, true, false, not, ◌&&◌, ◌||◌, Option, none, some, List,
  [], ◌∷◌, ◌++◌, length, take, drop, get_or, ltb, leb, ◌==◌, if◌then◌else◌,
}
use voxray.Audio.Pcm.{Bytes}

-- binary.LittleEndian, Uint16 and Uint32, at an index, and PutUint16 and PutUint32
unfoldable pub uint16_at : ℕ → Bytes → ℕ
uint16_at i bs = get_or bs i 0 + 256 * get_or bs (i + 1) 0

unfoldable pub uint32_at : ℕ → Bytes → ℕ
uint32_at i bs =
    get_or bs i 0
    + 256 * get_or bs (i + 1) 0
    + 65536 * get_or bs (i + 2) 0
    + 16777216 * get_or bs (i + 3) 0

unfoldable pub put_uint16 : ℕ → Bytes → Bytes
put_uint16 n rest = n % 256 ∷ n / 256 % 256 ∷ rest

unfoldable pub put_uint32 : ℕ → Bytes → Bytes
put_uint32 n rest = n % 256 ∷ n / 256 % 256 ∷ n / 65536 % 256 ∷ n / 16777216 % 256 ∷ rest

unfoldable pub same_bytes : Bytes → Bytes → Bool
same_bytes [] [] = true
same_bytes (x ∷ xs) (y ∷ ys) = (x == y) && same_bytes xs ys
same_bytes _ _ = false

-- "RIFF", "WAVE", "fmt " and "data"
abbrev pub riff_id : Bytes
riff_id = 82 ∷ 73 ∷ 70 ∷ 70 ∷ []

abbrev pub wave_id : Bytes
wave_id = 87 ∷ 65 ∷ 86 ∷ 69 ∷ []

abbrev pub fmt_id : Bytes
fmt_id = 102 ∷ 109 ∷ 116 ∷ 32 ∷ []

abbrev pub data_id : Bytes
data_id = 100 ∷ 97 ∷ 116 ∷ 97 ∷ []

pub data WavError : Type 0 where
  too_short invalid_header only_pcm no_data_chunk : WavError

pub data WavResult : Type 0 where
  decoded : Bytes → ℕ → WavResult
  failed : WavError → WavResult

-- What the loop has found so far.
pub record Found : Type 0 where
  pub pcm : Option Bytes
  pub sample_rate : ℕ

-- One chunk: none if its format is not PCM.
unfoldable pub read_chunk : Bytes → Bytes → Found → Option Found
read_chunk id payload s =
    if length payload == 0
    then some s
    else if same_bytes id fmt_id
    then (if leb 16 (length payload)
        then (if uint16_at 0 payload == 1
            then some (record s { sample_rate = uint32_at 4 payload })
            else none)
        else some s)
    else if same_bytes id data_id
    then some (record s { pcm = some payload })
    else some s

unfoldable pub finish : Found → WavResult
finish s = elim s.pcm [
  | none ↦ failed no_data_chunk
  | some pcm ↦ decoded pcm (if s.sample_rate == 0 then 48000 else s.sample_rate)
]

unfoldable pub found_or : Option Found → Found → Found
found_or none s = s
found_or (some t) s = t

unfoldable pub is_none : Option Found → Bool
is_none none = true
is_none (some t) = false

-- The loop on the chunks, with what is left of the file. A size beyond the end is cut by `take`.
unfoldable pub read_chunks : ℕ → Bytes → Found → WavResult
read_chunks zero rest s = finish s
read_chunks (suc fuel) rest s =
    let size = uint32_at 4 rest in
    let next = read_chunk (take 4 rest) (take size (drop 8 rest)) s in
    let more = read_chunks fuel (drop size (drop 8 rest)) (found_or next s) in
    if ltb (length rest) 8 then finish s else if is_none next then failed only_pcm else more

-- DecodeWAVToPCM; the fuel is the length of the file.
unfoldable pub decode_wav_to_pcm : Bytes → WavResult
decode_wav_to_pcm wav =
    if ltb (length wav) 44
    then failed too_short
    else if not (same_bytes (take 4 wav) riff_id) || not (same_bytes (take 4 (drop 8 wav)) wave_id)
    then failed invalid_header
    else read_chunks (length wav) (drop 12 wav) (record { pcm = none; sample_rate = 0 })

-- WritePCM16MonoWAV: one channel of 16 bits
unfoldable pub pcm16_mono_wav : Bytes → ℕ → Bytes
pcm16_mono_wav pcm rate =
    riff_id
    ++ put_uint32 (36 + length pcm) (
        wave_id
        ++ fmt_id
        ++ put_uint32 16 (
            put_uint16 1 (
              put_uint16 1 (
                put_uint32 rate (
                  put_uint32 (rate * 1 * 16 / 8) (
                    put_uint16 (1 * 16 / 8)
                      (put_uint16 16 (data_id ++ put_uint32 (length pcm) pcm))))))))

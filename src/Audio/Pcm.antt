-- ===== src/Audio/Pcm.antt =====
-- 16-bit little-endian PCM as pkg/audio reads and writes it: a sample is an integer, a buffer the
-- list of its bytes.
use voxray.Base.{ℕ, ◌+◌, ◌-◌, ◌*◌, ◌/◌, ◌%◌, ◌<◌, ◌≡◌, List, leb, arith, if◌then◌else◌}
use voxray.Base.Int.{ℤ, pos, negsuc}

abbrev pub Bytes : Type 0
Bytes = List ℕ

-- int16(uint16(lo) | uint16(hi)<<8)
unfoldable pub sample_of : ℕ → ℕ → ℤ
sample_of lo hi = let u = lo + 256 * hi in if leb 32768 u then negsuc (65535 - u) else pos u

-- The two's complement pattern of an int16.
abbrev pub pattern_of : ℤ → ℕ
pattern_of (pos n) = n
pattern_of (negsuc n) = 65535 - n

-- byte(s) and byte(s >> 8)
unfoldable pub low_byte : ℤ → ℕ
low_byte s = pattern_of s % 256

unfoldable pub high_byte : ℤ → ℕ
high_byte s = pattern_of s / 256 % 256

abbrev pub IsInt16 : ℤ → Type 0
IsInt16 (pos n) = n < 32768
IsInt16 (negsuc n) = n < 32768

pub sample_of-bytes : (s : ℤ) → IsInt16 s → sample_of (low_byte s) (high_byte s) ≡ s
unfolding sample_of low_byte high_byte
sample_of-bytes (pos n) h = ground arith
sample_of-bytes (negsuc n) h = ground arith

pub sample_of-IsInt16 : (lo hi : ℕ) → lo < 256 → hi < 256 → IsInt16 (sample_of lo hi)
unfolding sample_of
sample_of-IsInt16 lo hi hl hh = ground arith

pub low_byte-sample_of : (lo hi : ℕ) → lo < 256 → hi < 256 → low_byte (sample_of lo hi) ≡ lo
unfolding sample_of low_byte
low_byte-sample_of lo hi hl hh = ground arith

pub high_byte-sample_of : (lo hi : ℕ) → lo < 256 → hi < 256 → high_byte (sample_of lo hi) ≡ hi
unfolding sample_of high_byte
high_byte-sample_of lo hi hl hh = ground arith

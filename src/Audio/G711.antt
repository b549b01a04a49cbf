-- ===== src/Audio/G711.antt =====
-- pkg/audio/ulaw.go and alaw.go: G.711 encoding and decoding of 16-bit PCM. The bits of a code are
-- disjoint, so they are added; ^ is the complement of a byte.
pub mod Ulaw
pub mod Alaw
pub mod Codes
pub mod Loudness
use voxray.Base.{ℕ, zero, suc, ◌+◌, List, [], ◌∷◌, ◌++◌, map, get_or, leb, if◌then◌else◌}
use voxray.Base.Int.{ℤ, pos, negsuc}
use voxray.Audio.Pcm.{Bytes, sample_of, low_byte, high_byte}

unfoldable pub negative : ℕ → ℤ
negative zero = pos 0
negative (suc n) = negsuc n

unfoldable pub rows_joined : List (List ℕ) → List ℕ
rows_joined [] = []
rows_joined (row ∷ rows) = row ++ rows_joined rows

-- A table of magnitudes by rows, with a minus and without.
unfoldable pub both_signs : List (List ℕ) → List ℤ
both_signs rows = let values = rows_joined rows in map negative values ++ map pos values

-- The sign bit, and the magnitude of a sample; that of -32768 is 32767.
unfoldable pub sign_bit : ℤ → ℕ
sign_bit (pos n) = 0
sign_bit (negsuc n) = 128

unfoldable pub magnitude : ℤ → ℕ
magnitude (pos n) = n
magnitude (negsuc n) = if leb 32768 (suc n) then 32767 else suc n

-- The loops of EncodeULaw and EncodeALaw, over the encoder of a sample; an odd last byte is not read.
unfoldable pub encode : (ℤ → ℕ) → Bytes → Bytes
encode sample (lo ∷ hi ∷ pcm) = sample (sample_of lo hi) ∷ encode sample pcm
encode sample _ = []

-- The loops of DecodeULaw and DecodeALaw, over the table.
unfoldable pub decode : List ℤ → Bytes → Bytes
decode table [] = []
decode table (b ∷ code) =
    let s = get_or table b (pos 0) in low_byte s ∷ high_byte s ∷ decode table code

-- ===== src/Audio/Mix.antt =====
-- pkg/audio/mix.go: two buffers of 16-bit mono PCM mixed into one, or interleaved as stereo. An index
-- that runs through both is what is left of each.
pub mod Samples
use voxray.Base.{ℕ, zero, suc, ◌+◌, ◌-◌, ◌*◌, ◌/◌, ◌%◌, max, List, [], ◌∷◌, ◌++◌, length, drop}
use voxray.Base.Int.{ℤ, pos, negsuc, pos_part, neg_part, sub_ℕ, ◌+ℤ◌, ltb_ℤ}
use voxray.Base.{if◌then◌else◌}
use voxray.Audio.Pcm.{Bytes, sample_of, low_byte, high_byte}

-- The sample at the index, 0 where the buffer ends.
unfoldable pub next_sample : Bytes → ℤ
next_sample (lo ∷ hi ∷ rest) = sample_of lo hi
next_sample _ = pos 0

-- Division by 2 as Go rounds it, towards 0.
unfoldable pub half : ℤ → ℤ
half s = sub_ℕ (pos_part s / 2) (neg_part s / 2)

unfoldable pub clamp16 : ℤ → ℤ
clamp16 s =
    let t = if ltb_ℤ (pos 32767) s then pos 32767 else s in
    if ltb_ℤ t (negsuc 32767) then negsuc 32767 else t

unfoldable pub mixed_sample : ℤ → ℤ → ℤ
mixed_sample u b = clamp16 (half (u +ℤ b))

-- The loop of MixMono, for a number of samples.
unfoldable pub mix_samples : ℕ → Bytes → Bytes → Bytes
mix_samples zero user bot = []
mix_samples (suc n) user bot =
    let s = mixed_sample (next_sample user) (next_sample bot) in
    low_byte s ∷ high_byte s ∷ mix_samples n (drop 2 user) (drop 2 bot)

-- An odd last byte stays 0.
unfoldable pub zeros : ℕ → Bytes
zeros zero = []
zeros (suc n) = 0 ∷ zeros n

unfoldable pub mix_mono : Bytes → Bytes → Bytes
mix_mono user bot =
    let n = max (length user) (length bot) in mix_samples (n / 2) user bot ++ zeros (n % 2)

-- The two bytes of a channel at the index, 0 where it ends.
unfoldable pub next_bytes : Bytes → Bytes
next_bytes (lo ∷ hi ∷ rest) = lo ∷ hi ∷ []
next_bytes _ = 0 ∷ 0 ∷ []

unfoldable pub interleave_samples : ℕ → Bytes → Bytes → Bytes
interleave_samples zero left right = []
interleave_samples (suc n) left right =
    next_bytes left ++ next_bytes right ++ interleave_samples n (drop 2 left) (drop 2 right)

unfoldable pub interleave_stereo : Bytes → Bytes → Bytes
interleave_stereo left right =
    interleave_samples (max (length left / 2) (length right / 2)) left right

-- ===== src/Tests/Recording.antt =====
-- pkg/recording at a concrete recording: the second call names another rate.
use voxray.Audio.Pcm.{high_byte}
use voxray.Audio.Pcm.{low_byte}
use voxray.Recording.Recorder.Samples.{accepted}
use voxray.Recording.Recorder.{sample_bytes}
use voxray.Base.{List, [], ◌∷◌, some, ◌≡◌, arith, ℕ}
use voxray.Base.Int.{ℤ, pos, negsuc}
use voxray.Audio.Wav.{decoded, pcm16_mono_wav}
use voxray.Recording.Recorder.Samples.{
  recorded, read_back, recorded-pcm16_mono_wav, read_back-recorded,
}

abbrev calls : List (List ℤ × ℕ)
calls = (pos 1 ∷ negsuc 0 ∷ [], 8000) ∷ (pos 7 ∷ [], 16000) ∷ (pos 256 ∷ [], 8000) ∷ []

abbrev heard : List ℕ
heard = 1 ∷ 0 ∷ 255 ∷ 255 ∷ 0 ∷ 1 ∷ []

recorded-pcm16_mono_wav_example :
    recorded "call.wav" 8000 1 5 calls ≡ some (pcm16_mono_wav heard 8000)
unfolding sample_bytes accepted low_byte high_byte
recorded-pcm16_mono_wav_example = recorded-pcm16_mono_wav "call.wav" 8000 1 5 calls (omega arith)

read_back-recorded_example :
    read_back (recorded "call.wav" 8000 1 5 calls) ≡ some (decoded heard 8000)
unfolding accepted sample_bytes low_byte high_byte
read_back-recorded_example =
    read_back-recorded "call.wav" 8000 1 5 calls (omega arith) (omega arith) (omega arith)
      (omega arith)

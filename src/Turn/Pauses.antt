-- ===== src/Turn/Pauses.antt =====
-- What a listener of AppendAudio sees.
use mathlib.Core.Path.{ap₂}
use voxray.Base.{ℕ, ◌<◌, ◌≡◌, Bool, true, false, List, [], ◌∷◌, ◌++◌, map, ap, arith, length}
use voxray.Audio.Pcm.{Bytes}
use voxray.Audio.Floats.{Floats}
use voxray.Turn.Silence.{
  EndOfTurnState, incomplete, complete, SilenceAnalyzer, append_audio, chunk_ms,
}

-- A chunk as it arrives: the time, the bytes, the VAD's verdict.
pub record Arrival : Type 0 where
  pub now : ℕ
  pub bytes : Bytes
  pub is_speech : Bool

module _ (fl : Floats) where
  open fl use {F, lit, add, mul, le}

  unfoldable pub run : List Arrival → SilenceAnalyzer F → SilenceAnalyzer F × List EndOfTurnState
  run [] s = (s, [])
  run (x ∷ xs) s =
      let (t, state) = append_audio fl x.now x.bytes x.is_speech s in
      let (u, states) = run xs t in (u, state ∷ states)

  -- Chunks of silence, none of them empty.
  abbrev pub AllSilent : List Arrival → Type 0
  AllSilent [] = Unit
  AllSilent (x ∷ xs) = (x.is_speech ≡ false) × (0 < length x.bytes) × AllSilent xs

  abbrev pub AllIncomplete : List EndOfTurnState → Type 0
  AllIncomplete [] = Unit
  AllIncomplete (r ∷ rs) = (r ≡ incomplete) × AllIncomplete rs

  silent_step :
      (x : Arrival) (s : SilenceAnalyzer F)
      → s.speech_triggered ≡ false
      → x.is_speech ≡ false
      → 0 < length x.bytes
      → ((append_audio fl x.now x.bytes x.is_speech s).1 ≡ incomplete)
        × ((append_audio fl x.now x.bytes x.is_speech s).0.speech_triggered ≡ false)
  unfolding append_audio
  silent_step x s h e p = ground arith

  -- With no speech since the start, a Clear or the last end of a turn, silence never ends a turn.
  no_end_without_speech :
      (xs : List Arrival) (s : SilenceAnalyzer F)
      → s.speech_triggered ≡ false
      → AllSilent xs
      → AllIncomplete (run xs s).1 × ((run xs s).0.speech_triggered ≡ false)
  unfolding run
  no_end_without_speech [] s h a = (tt, h)
  no_end_without_speech (x ∷ xs) s h a =
      let here = silent_step x s h a.0 a.1 in
      let (rest, end) =
        no_end_without_speech xs (append_audio fl x.now x.bytes x.is_speech s).0 here.1 a.2 in
      ((here.0, rest), end)

  -- The silence after each chunk stays short of the stop time.
  abbrev pub StaysBelow : F → ℕ → F → List Arrival → Type 0
  StaysBelow stop rate total [] = Unit
  StaysBelow stop rate total (x ∷ xs) =
      (le stop (add total (chunk_ms fl x.bytes rate)) ≡ false)
      × StaysBelow stop rate (add total (chunk_ms fl x.bytes rate)) xs

  unfoldable pub total_silence : ℕ → F → List Arrival → F
  total_silence rate total [] = total
  total_silence rate total (x ∷ xs) = total_silence rate (add total (chunk_ms fl x.bytes rate)) xs

  -- The facts about the analyzer within a pause, at given values of what it reads.
  abbrev pub IsPausing : F → ℕ → F → SilenceAnalyzer F → Type 0
  IsPausing stop rate total s =
      (s.speech_triggered ≡ true)
      × (mul s.params.stop_secs (lit 1000 1) ≡ stop)
      × (s.sample_rate ≡ rate)
      × (s.silence_ms ≡ total)

  IsPausing-step :
      (stop : F) (rate : ℕ) (total : F) (x : Arrival) (s : SilenceAnalyzer F)
      → IsPausing stop rate total s
      → 0 < rate
      → x.is_speech ≡ false
      → 0 < length x.bytes
      → le stop (add total (chunk_ms fl x.bytes rate)) ≡ false
      → let t = append_audio fl x.now x.bytes x.is_speech s in
        (t.1 ≡ incomplete) × IsPausing stop rate (add total (chunk_ms fl x.bytes rate)) t.0
  unfolding append_audio
  IsPausing-step stop rate total x s h r e p b = ground arith

  ending_step :
      (stop : F) (rate : ℕ) (total : F) (x : Arrival) (s : SilenceAnalyzer F)
      → IsPausing stop rate total s
      → 0 < rate
      → x.is_speech ≡ false
      → 0 < length x.bytes
      → le stop (add total (chunk_ms fl x.bytes rate)) ≡ true
      → let t = append_audio fl x.now x.bytes x.is_speech s in
        (t.1 ≡ complete) × (t.0.speech_triggered ≡ false)
  unfolding append_audio
  ending_step stop rate total x s h r e p b = ground arith

  -- Once speech has been heard, chunks of silence report an incomplete turn as long as their summed
  -- duration stays below the stop time, and the first chunk that reaches it completes the turn, after
  -- which speech must be heard again.
  ends_at_stop_time :
      (stop : F) (rate : ℕ) (total : F) (xs : List Arrival) (x : Arrival) (s : SilenceAnalyzer F)
      → IsPausing stop rate total s
      → 0 < rate
      → AllSilent (xs ++ x ∷ [])
      → StaysBelow stop rate total xs
      → le stop (add (total_silence rate total xs) (chunk_ms fl x.bytes rate)) ≡ true
      → ((run (xs ++ x ∷ []) s).1 ≡ map (λ _. incomplete) xs ++ complete ∷ [])
        × ((run (xs ++ x ∷ []) s).0.speech_triggered ≡ false)
  unfolding run total_silence
  ends_at_stop_time stop rate total [] x s h r a b e =
      let end = ending_step stop rate total x s h r a.0 a.1 e in (ap (λ st. st ∷ []) end.0, end.1)
  ends_at_stop_time stop rate total (y ∷ ys) x s h r a b e =
      let here = IsPausing-step stop rate total y s h r a.0 a.1 b.0 in
      let later =
        ends_at_stop_time stop rate (add total (chunk_ms fl y.bytes rate)) ys x
          (append_audio fl y.now y.bytes y.is_speech s).0 here.1 r a.2 b.1 e in
      (ap₂ (λ st sts. st ∷ sts) here.0 later.0, later.1)

-- ===== src/Processors/VadProcessor/Silence.antt =====
-- The end of speech as the processor reports it.
use voxray.Base.{
  ℕ, zero, suc, ◌+◌, ◌-◌, ◌≤◌, ◌<◌, Bool, true, false, ◌&&◌, List, [], ◌∷◌, ◌++◌, length, drop, ◌≡◌,
  refl, ap, subst, sym, ◌∙◌, ◌⊎◌, inl, inr, Bool-cases, leb, ◌==◌, leb→le, lt→leb_false, arith,
  length-append, length-drop,
}
use voxray.Audio.Pcm.{Bytes}
use voxray.Audio.Floats.{Floats}
use voxray.Audio.Vad.{
  State, quiet, Backend, Analyzer, Machine, step, analyze, analyze_loop, analyze_window,
}
use voxray.Audio.Vad.Loop.{
  extend, round_on, loop, loop_done, configured, analyze-configured, configured-analyze,
  num_byte-analyze, positive, analyze_leftover,
}
use voxray.Frames.{Content, vad_user_stopped_speaking}
use voxray.Processors.VadProcessor.{
  VadProcessor, in_speech, is_quiet, report_state, process_audio_raw,
}

-- One window does not take the machine from speech to quiet, if two are needed.
step-speaking :
    (sf st : ℕ) (m : Machine) (w : Bool)
    → 2 ≤ st
    → in_speech m.state ≡ true
    → is_quiet (step sf st m w).state ≡ false
unfolding step in_speech is_quiet
step-speaking sf st m w h s = ground arith

-- How often the end of speech is reported.
unfoldable pub stops : List Content → ℕ
stops [] = 0
stops (vad_user_stopped_speaking ∷ fs) = suc (stops fs)
stops (_ ∷ fs) = stops fs

stops-append : (fs gs : List Content) → stops (fs ++ gs) ≡ stops fs + stops gs
unfolding stops
stops-append [] gs = omega arith
stops-append (vad_user_stopped_speaking ∷ fs) gs = omega (arith, stops-append fs gs)
stops-append (_ ∷ fs) gs = stops-append fs gs

report_state-stops :
    {F : Type 0} (state : State) (now : ℕ) (p : VadProcessor F)
    → (is_quiet state && in_speech p.prev_state) ≡ false
    → (stops (report_state state now p).1 ≡ 0)
      × ((report_state state now p).0.prev_state ≡ state)
      × ((report_state state now p).0.analyzer ≡ p.analyzer)
unfolding report_state stops
report_state-stops state now p h = ground arith

not_both : (s : State) → (is_quiet s && in_speech s) ≡ false
unfolding is_quiet in_speech
not_both quiet = refl
not_both _ = refl

no_stop :
    (s t : State) → (in_speech s ≡ true → is_quiet t ≡ false) → (is_quiet t && in_speech s) ≡ false
no_stop s t h = elim (Bool-cases (in_speech s)) [
  | inl speaks ↦ rw (speaks, h speaks) refl
  | inr silent ↦ rw silent (and_false (is_quiet t))
]
  where
    and_false : (b : Bool) → (b && false) ≡ false
    and_false true = refl
    and_false false = refl

module _ (fl : Floats) (backend : Backend fl.F) where
  open fl use {F}

  round_buf : (n : ℕ) (a : Analyzer F) → (round_on fl backend n a).buf ≡ drop n a.buf
  unfolding analyze_window
  round_buf n a = refl

  one_round :
      (f n : ℕ) (a : Analyzer F)
      → 0 < f
      → n ≤ length a.buf
      → length a.buf < n + n
      → loop fl backend f n a ≡ round_on fl backend n a
  unfolding analyze_loop
  one_round zero n a hf h less = absurd (omega arith)
  one_round (suc f) n a hf h less =
      let goes : leb n (length a.buf) ≡ true = ground arith in
      let size : length (round_on fl backend n a).buf ≡ length a.buf - n =
        ap length (round_buf n a) ∙ length-drop n a.buf in
      rw goes (
        loop_done fl backend f n (round_on fl backend n a)
          (lt→leb_false n (length (round_on fl backend n a).buf) (omega (arith, size))))

  -- A buffer with less than two windows comes to one round at most.
  analyze_rounds :
      (xs : Bytes) (a : Analyzer F)
      → configured fl backend a ≡ true
      → length a.buf < a.vad_frames_num_byte
      → length xs ≤ a.vad_frames_num_byte
      → (analyze fl backend xs a ≡ extend fl backend xs a)
        ⊎ (analyze fl backend xs a
            ≡ round_on fl backend a.vad_frames_num_byte (extend fl backend xs a))
  analyze_rounds xs a set short few =
      let n = a.vad_frames_num_byte in
      let b = extend fl backend xs a in
      let whole = analyze-configured fl backend xs a set in
      let size = length-append a.buf xs in
      elim (Bool-cases (leb n (length b.buf))) [
        | inl window ↦
            let enough : n ≤ length b.buf = leb→le n (length b.buf) window in
            inr (
              whole
              ∙ one_round (length b.buf) n b (omega (arith, positive fl backend a set)) enough
                  (omega (arith, size)))
        | inr less ↦ inl (whole ∙ loop_done fl backend (length b.buf) n b less)
      ]

  -- What the processor keeps between the frames.
  pub record IsSettled (p : VadProcessor F) : Type 0 where
    pub set : configured fl backend p.analyzer ≡ true
    pub two : 2 ≤ p.analyzer.stop_frames
    pub short : length p.analyzer.buf < p.analyzer.vad_frames_num_byte
    pub same : p.prev_state ≡ p.analyzer.machine.state

  -- What a frame's audio does to a settled analyzer.
  after_audio :
      (xs : Bytes) (a : Analyzer F)
      → configured fl backend a ≡ true
      → 2 ≤ a.stop_frames
      → length a.buf < a.vad_frames_num_byte
      → length xs ≤ a.vad_frames_num_byte
      → (2 ≤ (analyze fl backend xs a).stop_frames)
        × ((is_quiet (analyze fl backend xs a).machine.state && in_speech a.machine.state) ≡ false)
  unfolding analyze_window
  after_audio xs a set two short few = elim (analyze_rounds xs a set short few) [
    | inl waits ↦ rw waits (two, not_both a.machine.state)
    | inr steps ↦ rw steps (
      two,
      no_stop a.machine.state _ (step-speaking a.start_frames a.stop_frames a.machine _ two),
    )
  ]

  process_audio_raw-IsSettled :
      (xs : Bytes) (now : ℕ) (p : VadProcessor F)
      → IsSettled p
      → length xs ≤ p.analyzer.vad_frames_num_byte
      → (stops (process_audio_raw fl backend xs now p).1 ≡ 0)
        × (IsSettled (process_audio_raw fl backend xs now p).0)
        × ((process_audio_raw fl backend xs now p).0.analyzer.vad_frames_num_byte
            ≡ p.analyzer.vad_frames_num_byte)
  unfolding process_audio_raw stops
  process_audio_raw-IsSettled xs now p settled few = elim (Bool-cases (length xs == 0)) [
    | inl nothing ↦ rw nothing (refl, settled, refl)
    | inr some' ↦
        let a = analyze fl backend xs p.analyzer in
        let (two, none') = after_audio xs p.analyzer settled.set settled.two settled.short few in
        let silent : (is_quiet a.machine.state && in_speech p.prev_state) ≡ false =
          rw settled.same none' in
        let (zero', prev, kept) =
          report_state-stops a.machine.state now (record p { analyzer = a }) silent in
        let bytes = num_byte-analyze fl backend xs p.analyzer settled.set in
        rw some' (
          zero',
          record {
            set =
                ap (configured fl backend) kept
                ∙ configured-analyze fl backend xs p.analyzer
                ∙ settled.set;
            two = subst (λ b. 2 ≤ b.stop_frames) (sym kept) two;
            short =
                subst (λ b. length b.buf < b.vad_frames_num_byte) (sym kept)
                  (subst (λ (n : ℕ). length a.buf < n) (sym bytes)
                    (analyze_leftover fl backend xs p.analyzer settled.set));
            same = prev ∙ ap (λ b. b.machine.state) (sym kept);
          },
          ap (λ b. b.vad_frames_num_byte) kept ∙ bytes,
        )
  ]

  -- The frames of audio that come, with their times, and what is reported on them.
  unfoldable pub run : List (Bytes × ℕ) → VadProcessor F → List Content
  run [] p = []
  run ((xs, now) ∷ rest) p = let (q, fs) = process_audio_raw fl backend xs now p in fs ++ run rest q

  unfoldable pub all_within : ℕ → List (Bytes × ℕ) → Bool
  all_within n [] = true
  all_within n ((xs, now) ∷ rest) = leb (length xs) n && all_within n rest

  -- If it takes two windows of silence at least to leave speech, less than a window waits, and the
  -- processor knows the state of the analyzer, then over any frames of audio that are no longer than a
  -- window the end of speech is never reported, however long the silence.
  pub never_stops :
      (calls : List (Bytes × ℕ)) (p : VadProcessor F)
      → IsSettled p
      → all_within p.analyzer.vad_frames_num_byte calls ≡ true
      → stops (run calls p) ≡ 0
  unfolding run all_within stops
  never_stops [] p settled h = refl
  never_stops ((xs, now) ∷ rest) p settled h =
      let few : length xs ≤ p.analyzer.vad_frames_num_byte = ground (arith, h) in
      let later : all_within p.analyzer.vad_frames_num_byte rest ≡ true = ground (arith, h) in
      let q = (process_audio_raw fl backend xs now p).0 in
      let fs = (process_audio_raw fl backend xs now p).1 in
      let (zero', next, bytes) = process_audio_raw-IsSettled xs now p settled few in
      let rest_zero : stops (run rest q) ≡ 0 =
        never_stops rest q next (subst (λ (n : ℕ). all_within n rest ≡ true) (sym bytes) later) in
      stops-append fs (run rest q) ∙ omega (arith, zero', rest_zero)

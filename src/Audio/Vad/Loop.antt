-- ===== src/Audio/Vad/Loop.antt =====
-- The buffering of Analyze: how the bytes are cut into windows does not depend on the calls that
-- brought them.
use mathlib.Core.Path.{ap₂}
use voxray.Base.{
  ℕ, zero, suc, ◌≤◌, ◌<◌, ◌≡◌, refl, sym, ap, ◌∙◌, true, false, ◌++◌, arith, leb, length, take,
  drop, Bool, not, ◌||◌, ◌==◌, length-drop, length-append, take-append, drop-append, leb→le, le→leb,
  lt→leb_false, Bool-cases, inl, inr, append_assoc,
}
use voxray.Audio.Pcm.{Bytes}
use voxray.Audio.Floats.{Floats}
use voxray.Audio.Vad.{Backend, Analyzer, analyze_window, analyze_loop, analyze}

module _ (fl : Floats) (backend : Backend fl.F) where
  open fl use {F}

  abbrev pub window : Bytes → Analyzer F → Analyzer F
  window = analyze_window fl backend

  abbrev pub loop : ℕ → ℕ → Analyzer F → Analyzer F
  loop = analyze_loop fl backend

  -- The bytes of a later call, behind those that wait.
  abbrev pub extend : Bytes → Analyzer F → Analyzer F
  extend ys a = record a { buf = a.buf ++ ys }

  -- The analyzer after one round.
  abbrev pub round_on : ℕ → Analyzer F → Analyzer F
  round_on n a = window (take n a.buf) (record a { buf = drop n a.buf })

  pub loop_done : (f n : ℕ) (a : Analyzer F) → leb n (length a.buf) ≡ false → loop f n a ≡ a
  unfolding analyze_loop
  loop_done zero n a h = refl
  loop_done (suc f) n a h = rw h

  loop_round :
      (f n : ℕ) (a : Analyzer F)
      → leb n (length a.buf) ≡ true
      → loop (suc f) n a ≡ loop f n (round_on n a)
  unfolding analyze_loop
  loop_round f n a h = rw h

  buf_round : (n : ℕ) (a : Analyzer F) → (round_on n a).buf ≡ drop n a.buf
  unfolding analyze_window
  buf_round n a = refl

  shorter :
      (f n : ℕ) (a : Analyzer F)
      → 0 < n
      → leb n (length a.buf) ≡ true
      → length a.buf ≤ suc f
      → length (round_on n a).buf ≤ f
  shorter f n a p h k =
      rw (buf_round n a) (omega (arith, length-drop n a.buf, leb→le n (length a.buf) h))

  too_short : (n : ℕ) (a : Analyzer F) → 0 < n → length a.buf ≤ 0 → leb n (length a.buf) ≡ false
  too_short n a p h = lt→leb_false n (length a.buf) (omega arith)

  -- Fuel beyond the length of the buffer changes nothing.
  loop_fuel :
      (f g n : ℕ) (a : Analyzer F)
      → 0 < n
      → length a.buf ≤ f
      → length a.buf ≤ g
      → loop f n a ≡ loop g n a
  loop_fuel zero g n a p hf hg =
      let stop = too_short n a p hf in loop_done zero n a stop ∙ sym (loop_done g n a stop)
  loop_fuel (suc f) zero n a p hf hg =
      let stop = too_short n a p hg in loop_done (suc f) n a stop ∙ sym (loop_done zero n a stop)
  loop_fuel (suc f) (suc g) n a p hf hg = elim (Bool-cases (leb n (length a.buf))) [
    | inr stop ↦ loop_done (suc f) n a stop ∙ sym (loop_done (suc g) n a stop)
    | inl more ↦
        loop_round f n a more
        ∙ loop_fuel f g n (round_on n a) p (shorter f n a p more hf) (shorter g n a p more hg)
        ∙ sym (loop_round g n a more)
  ]

  round_extend :
      (n : ℕ) (ys : Bytes) (a : Analyzer F)
      → n ≤ length a.buf
      → round_on n (extend ys a) ≡ extend ys (round_on n a)
  unfolding analyze_window
  round_extend n ys a h = rw (take-append n a.buf ys h, drop-append n a.buf ys h)

  -- The loop with the fuel that Analyze gives it.
  abbrev pub rounds : ℕ → Analyzer F → Analyzer F
  rounds n a = loop (length a.buf) n a

  rounds_done : (n : ℕ) (a : Analyzer F) → leb n (length a.buf) ≡ false → rounds n a ≡ a
  rounds_done n a h = loop_done (length a.buf) n a h

  rounds_round :
      (n : ℕ) (a : Analyzer F)
      → 0 < n
      → leb n (length a.buf) ≡ true
      → rounds n a ≡ rounds n (round_on n a)
  rounds_round n a p h =
      loop_fuel (length a.buf) (suc (length a.buf)) n a p (omega arith) (omega arith)
      ∙ loop_round (length a.buf) n a h
      ∙ loop_fuel (length a.buf) (length (round_on n a).buf) n (round_on n a) p
          (shorter (length a.buf) n a p h (omega arith)) (omega arith)

  fits_extended :
      (n : ℕ) (ys : Bytes) (a : Analyzer F)
      → leb n (length a.buf) ≡ true
      → leb n (length (extend ys a).buf) ≡ true
  fits_extended n ys a h =
      le→leb _ _ (omega (arith, leb→le n (length a.buf) h, length-append a.buf ys))

  -- The loop over the bytes of two calls is the loop over those of the first, then the rest.
  rounds-extend :
      (f n : ℕ) (ys : Bytes) (a : Analyzer F)
      → 0 < n
      → length a.buf ≤ f
      → rounds n (extend ys (rounds n a)) ≡ rounds n (extend ys a)
  rounds-extend zero n ys a p h =
      ap (λ (b : Analyzer F). rounds n (extend ys b)) (rounds_done n a (too_short n a p h))
  rounds-extend (suc f) n ys a p h = elim (Bool-cases (leb n (length a.buf))) [
    | inr stop ↦ ap (λ (b : Analyzer F). rounds n (extend ys b)) (rounds_done n a stop)
    | inl more ↦
        ap (λ (b : Analyzer F). rounds n (extend ys b)) (rounds_round n a p more)
        ∙ rounds-extend f n ys (round_on n a) p (shorter f n a p more h)
        ∙ ap (rounds n) (sym (round_extend n ys a (leb→le n (length a.buf) more)))
        ∙ sym (rounds_round n (extend ys a) p (fits_extended n ys a more))
  ]

  rounds_leftover :
      (f n : ℕ) (a : Analyzer F) → 0 < n → length a.buf ≤ f → length (rounds n a).buf < n
  rounds_leftover zero n a p h = rw (rounds_done n a (too_short n a p h)) (omega arith)
  rounds_leftover (suc f) n a p h = elim (Bool-cases (leb n (length a.buf))) [
    | inr stop ↦ simp (rounds_done n a stop) (ground arith)
    | inl more ↦
        simp (rounds_round n a p more)
          (rounds_leftover f n (round_on n a) p (shorter f n a p more h))
  ]

  sample_rate_loop : (f n : ℕ) (a : Analyzer F) → (loop f n a).sample_rate ≡ a.sample_rate
  unfolding analyze_loop
  sample_rate_loop zero n a = refl
  sample_rate_loop (suc f) n a = elim (Bool-cases (leb n (length a.buf))) [
    | inr stop ↦ rw stop
    | inl more ↦ rw more (sample_rate_loop f n (round_on n a) ∙ unfold analyze_window in refl)
  ]

  pub num_byte_loop :
      (f n : ℕ) (a : Analyzer F) → (loop f n a).vad_frames_num_byte ≡ a.vad_frames_num_byte
  unfolding analyze_loop
  num_byte_loop zero n a = refl
  num_byte_loop (suc f) n a = elim (Bool-cases (leb n (length a.buf))) [
    | inr stop ↦ rw stop
    | inl more ↦ rw more (num_byte_loop f n (round_on n a) ∙ unfold analyze_window in refl)
  ]

  -- Whether Analyze reads the buffer at all.
  unfoldable pub configured : Analyzer F → Bool
  configured a = not (a.sample_rate == 0 || a.vad_frames_num_byte == 0)

  pub analyze-configured :
      (xs : Bytes) (a : Analyzer F)
      → configured a ≡ true
      → analyze fl backend xs a ≡ rounds a.vad_frames_num_byte (extend xs a)
  unfolding analyze configured
  analyze-configured xs a h = ground arith

  analyze_idle : (xs : Bytes) (a : Analyzer F) → configured a ≡ false → analyze fl backend xs a ≡ a
  unfolding analyze configured
  analyze_idle xs a h = ground arith

  pub positive : (a : Analyzer F) → configured a ≡ true → 0 < a.vad_frames_num_byte
  unfolding configured
  positive a h = ground arith

  pub configured-analyze :
      (xs : Bytes) (a : Analyzer F) → configured (analyze fl backend xs a) ≡ configured a
  configured-analyze xs a = elim (Bool-cases (configured a)) [
    | inr idle ↦ ap configured (analyze_idle xs a idle)
    | inl set ↦ simp (analyze-configured xs a set) (
        unfold configured in
        rw (
          sample_rate_loop (length (extend xs a).buf) a.vad_frames_num_byte (extend xs a),
          num_byte_loop (length (extend xs a).buf) a.vad_frames_num_byte (extend xs a),
        ))
  ]

  pub num_byte-analyze :
      (xs : Bytes) (a : Analyzer F)
      → configured a ≡ true
      → (analyze fl backend xs a).vad_frames_num_byte ≡ a.vad_frames_num_byte
  num_byte-analyze xs a set =
      simp (analyze-configured xs a set)
        (num_byte_loop (length (extend xs a).buf) a.vad_frames_num_byte (extend xs a))

  -- Analyzing a stream in two calls, cut anywhere, leaves the analyzer as one call on the whole does:
  -- the state, the counters, the volumes and the bytes that wait are the same.
  pub analyze-append :
      (xs ys : Bytes) (a : Analyzer F)
      → analyze fl backend ys (analyze fl backend xs a) ≡ analyze fl backend (xs ++ ys) a
  analyze-append xs ys a = elim (Bool-cases (configured a)) [
    | inr idle ↦
        ap (analyze fl backend ys) (analyze_idle xs a idle)
        ∙ analyze_idle ys a idle
        ∙ sym (analyze_idle (xs ++ ys) a idle)
    | inl set ↦
        analyze-configured ys (analyze fl backend xs a) (configured-analyze xs a ∙ set)
        ∙ ap₂ (λ n (b : Analyzer F). rounds n (extend ys b)) (num_byte-analyze xs a set)
            (analyze-configured xs a set)
        ∙ rounds-extend (length (extend xs a).buf) a.vad_frames_num_byte ys (extend xs a)
            (positive a set) (omega arith)
        ∙ ap (λ l. rounds a.vad_frames_num_byte (record a { buf = l })) (append_assoc a.buf xs ys)
        ∙ sym (analyze-configured (xs ++ ys) a set)
  ]

  -- On a configured analyzer less than one window of bytes waits after Analyze.
  pub analyze_leftover :
      (xs : Bytes) (a : Analyzer F)
      → configured a ≡ true
      → length (analyze fl backend xs a).buf < a.vad_frames_num_byte
  analyze_leftover xs a set = rw (analyze-configured xs a set) (
      rounds_leftover (length (extend xs a).buf) a.vad_frames_num_byte (extend xs a)
        (positive a set) (omega arith))

-- ===== src/Processors/Interruption/Threshold.antt =====
-- The words after which the controller interrupts the bot.
use voxray.Base.{
  ℕ, ◌+◌, ◌<◌, Bool, true, false, some, List, [], ◌∷◌, map, ◌≡◌, refl, sym, ap, ◌∙◌, arith, leb,
  if◌then◌else◌, Bool-cases, inl, inr, leb→le, le→leb, lt→leb_false,
}
use voxray.Audio.Interruptions.{
  MinWordsStrategy, min_words_strategy, word_count, fields_from, ended,
}
use voxray.Texts.{is_blank}
use voxray.Frames.{Text, downstream, transcription}
use voxray.Processors.Interruption.{InterruptionController, hear, consider, observe, process_frame}
use voxray.Processors.Interruption.Words.{
  Input, run, word_counter, counted, count_heard, run-word_counter,
}

-- What the user says: a text, and whether it is final.
pub record Utterance : Type 0 where
  pub text : Text
  pub final : Bool

abbrev pub say : Utterance → Input
say u = record { dir = downstream; content = transcription "" u.text u.final }

-- The words of the final texts.
unfoldable pub spoken : List Utterance → ℕ
spoken [] = 0
spoken (u ∷ us) = (if u.final then word_count u.text else 0) + spoken us

-- The controller while the bot speaks and may be interrupted, or has been.
abbrev listening : Bool → ℕ → InterruptionController ℕ
listening sent k = record {
  heard = some k;
  allow_interruptions = true;
  bot_speaking = true;
  interruption_sent = sent;
}

module _ (n : ℕ) where
  after_interruption :
      (us : List Utterance) (k : ℕ)
      → (run (word_counter n) (map say us) (listening true k)).0.interruption_sent ≡ true
  unfolding run process_frame observe consider
  after_interruption [] k = refl
  after_interruption (u ∷ us) k = after_interruption us k

  hear_counts :
      (t : Text) (k : ℕ)
      → (hear (word_counter n) k t (listening false k)).0 ≡ (
          if leb n (k + word_count t) then listening true 0 else listening false (k + word_count t))
  unfolding hear is_blank word_count fields_from ended
  hear_counts [] k = ground arith
  hear_counts (c ∷ cs) k = ground arith

  counter_interrupts :
      (us : List Utterance) (k : ℕ)
      → k < n
      → (run (word_counter n) (map say us) (listening false k)).0.interruption_sent
        ≡ leb n (k + spoken us)
  unfolding run process_frame observe consider spoken
  counter_interrupts [] k h = sym (lt→leb_false n (k + 0) (omega arith))
  counter_interrupts (u ∷ us) k h = elim (Bool-cases u.final) [
    | inr e ↦ rw e (counter_interrupts us k h ∙ ap (leb n) (omega arith))
    | inl e ↦
        rw (e, hear_counts u.text k)
          (elim (Bool-cases (leb n (k + word_count u.text))) [
            | inl d ↦
                let enough = leb→le n (k + word_count u.text) d in
                rw d (
                  after_interruption us 0
                  ∙ sym (le→leb n (k + (word_count u.text + spoken us)) (omega arith)))
            | inr d ↦
                let few : k + word_count u.text < n = ground arith in
                rw d (counter_interrupts us (k + word_count u.text) few ∙ ap (leb n) (omega arith))
          ])
  ]

  -- While the bot speaks and may be interrupted, and the user has so far said fewer words than the
  -- strategy's `n`, the controller interrupts within the next transcripts if and only if their final
  -- texts bring the words said to `n`.
  interrupts_at_min_words :
      (us : List Utterance) (s : MinWordsStrategy)
      → s.min_words ≡ n
      → word_count s.buf < n
      → (run min_words_strategy (map say us) record {
        heard = some s;
        allow_interruptions = true;
        bot_speaking = true;
        interruption_sent = false;
      }).0.interruption_sent
        ≡ leb n (word_count s.buf + spoken us)
  unfolding counted count_heard
  interrupts_at_min_words us s m h =
      let p : InterruptionController MinWordsStrategy = record {
        heard = some s;
        allow_interruptions = true;
        bot_speaking = true;
        interruption_sent = false;
      } in
      ap (λ r. r.0.interruption_sent) (sym (run-word_counter n (omega arith) (map say us) p m))
      ∙ counter_interrupts us (word_count s.buf) h

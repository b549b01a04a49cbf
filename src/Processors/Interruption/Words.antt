-- ===== src/Processors/Interruption/Words.antt =====
-- With MinWordsStrategy the controller counts words: what the text is made of does not matter.
use voxray.Base.{
  ℕ, ◌+◌, ◌<◌, Bool, true, false, not, ◌&&◌, Option, none, some, List, [], ◌∷◌, ◌++◌, ◌≡◌, refl,
  sym, ap, ◌∙◌, arith, subst, leb, if◌then◌else◌, Bool-cases, inl, inr,
}
use voxray.Audio.Interruptions.{
  Strategy, MinWordsStrategy, min_words_strategy, should_interrupt, reset, append_text, word_count,
  fields_from, ended, append_text-word_count, should_interrupt-word_count,
}
use voxray.Texts.{is_blank}
use voxray.Frames.{
  Text, Content, Direction, downstream, upstream, Out, down, start, transcription,
  bot_started_speaking, bot_stopped_speaking, user_started_speaking, cancel, end_frame, stop_frame,
  interruption,
}
use voxray.Processors.Interruption.{
  InterruptionController, reset_heard, bot_turn, hear, consider, observe, process_frame,
}

pub record Input : Type 0 where
  pub dir : Direction
  pub content : Content

module _ {S : Type 0} (strategy : Strategy S) where
  unfoldable pub run : List Input → InterruptionController S → InterruptionController S × List Out
  run [] p = (p, [])
  run (x ∷ xs) p =
      let (q, outs) = process_frame strategy x.dir x.content p in
      let (r, more) = run xs q in (r, outs ++ more)

-- The strategy that keeps the number of words heard.
abbrev pub word_counter : ℕ → Strategy ℕ
word_counter n = record {
  reset = λ k. 0;
  append_text = λ t k. k + word_count t;
  should_interrupt = λ k. leb n k;
}

unfoldable pub count_heard : Option MinWordsStrategy → Option ℕ
count_heard none = none
count_heard (some s) = some (word_count s.buf)

-- The controller as its word counter sees it.
unfoldable pub counted : InterruptionController MinWordsStrategy → InterruptionController ℕ
counted p = record {
  heard = count_heard p.heard;
  allow_interruptions = p.allow_interruptions;
  bot_speaking = p.bot_speaking;
  interruption_sent = p.interruption_sent;
}

-- The strategy, if there is one, waits for `n` words.
abbrev WaitsFor : ℕ → Option MinWordsStrategy → Type 0
WaitsFor n none = Unit
WaitsFor n (some s) = s.min_words ≡ n

abbrev pub NeedsWords : ℕ → InterruptionController MinWordsStrategy → Type 0
NeedsWords n p = WaitsFor n p.heard

-- A step of the controller as one of the counter.
abbrev Refines :
    ℕ
    → InterruptionController ℕ × List Out
    → InterruptionController MinWordsStrategy × List Out
    → Type 0
Refines n abstract r = (abstract ≡ (counted r.0, r.1)) × NeedsWords n r.0

text_heard : MinWordsStrategy → Text → MinWordsStrategy
text_heard s text = if is_blank text then s else append_text text s

text_heard-min_words :
    (s : MinWordsStrategy) (text : Text) → (text_heard s text).min_words ≡ s.min_words
unfolding text_heard append_text
text_heard-min_words s text = ground arith

text_heard-word_count :
    (s : MinWordsStrategy) (text : Text)
    → word_count (text_heard s text).buf
      ≡ (if is_blank text then word_count s.buf else word_count s.buf + word_count text)
unfolding text_heard
text_heard-word_count s text = ground (arith, append_text-word_count text s)

module _ (n : ℕ) (positive : 0 < n) where
  heard_counted :
      (o : Option MinWordsStrategy)
      → WaitsFor n o
      → (reset_heard (word_counter n) (count_heard o)
          ≡ count_heard (reset_heard min_words_strategy o))
        × WaitsFor n (reset_heard min_words_strategy o)
  unfolding reset_heard count_heard reset word_count fields_from ended
  heard_counted none h = (refl, tt)
  heard_counted (some s) h = (refl, h)

  turn_counted :
      (b : Bool) (p : InterruptionController MinWordsStrategy)
      → NeedsWords n p
      → Refines n
          (bot_turn (word_counter n) b (counted p), [])
          (bot_turn min_words_strategy b p, [])
  unfolding bot_turn counted
  turn_counted b p h = let r = heard_counted p.heard h in (rw r.0 refl, r.1)

  should_counted :
      (s : MinWordsStrategy) (text : Text)
      → s.min_words ≡ n
      → leb n (if is_blank text then word_count s.buf else word_count s.buf + word_count text)
        ≡ should_interrupt (text_heard s text)
  should_counted s text h =
      let m = text_heard-min_words s text ∙ h in
      sym (
        should_interrupt-word_count (text_heard s text) (subst (λ k. 0 < k) (sym m) positive)
        ∙ ap (λ k. leb k (word_count (text_heard s text).buf)) m
        ∙ ap (leb n) (text_heard-word_count s text))

  decided :
      (b : Bool) (k : ℕ) (s : MinWordsStrategy) (p : InterruptionController MinWordsStrategy)
      → k ≡ word_count s.buf
      → s.min_words ≡ n
      → let warn : List Out = down interruption ∷ [] in
        Refines n
          (if b
            then (record (counted p) { interruption_sent = true; heard = some 0 }, warn)
            else (record (counted p) { heard = some k }, []))
          (if b
            then (record p { interruption_sent = true; heard = some (reset s) }, warn)
            else (record p { heard = some s }, []))
  unfolding counted count_heard reset word_count fields_from ended
  decided true k s p e h = (refl, h)
  decided false k s p e h = (rw e refl, h)

  hear-counted :
      (s : MinWordsStrategy) (text : Text) (p : InterruptionController MinWordsStrategy)
      → s.min_words ≡ n
      → Refines n
          (hear (word_counter n) (word_count s.buf) text (counted p))
          (hear min_words_strategy s text p)
  unfolding hear text_heard
  hear-counted s text p h = rw (should_counted s text h) (
      decided (should_interrupt (text_heard s text))
        (if is_blank text then word_count s.buf else word_count s.buf + word_count text)
        (text_heard s text) p (sym (text_heard-word_count s text))
        (text_heard-min_words s text ∙ h))

  consider-counted :
      (o : Option MinWordsStrategy) (text : Text) (final : Bool)
      (p : InterruptionController MinWordsStrategy)
      → WaitsFor n o
      → NeedsWords n p
      → Refines n
          (consider (word_counter n) (count_heard o) text final (counted p))
          (consider min_words_strategy o text final p)
  unfolding consider count_heard counted
  consider-counted none text final p h k = (refl, k)
  consider-counted (some s) text final p h k =
      elim (Bool-cases
        (p.allow_interruptions && (p.bot_speaking && (not p.interruption_sent && final)))) [
          | inl e ↦ rw e (hear-counted s text p h)
          | inr e ↦ rw e (refl, k)
        ]

  observe-counted :
      (f : Content) (p : InterruptionController MinWordsStrategy)
      → NeedsWords n p
      → Refines n (observe (word_counter n) f (counted p)) (observe min_words_strategy f p)
  unfolding observe counted bot_turn
  observe-counted (start allow) p h = let r = heard_counted p.heard h in (rw r.0 refl, r.1)
  observe-counted bot_started_speaking p h = turn_counted true p h
  observe-counted bot_stopped_speaking p h = turn_counted false p h
  observe-counted cancel p h = turn_counted false p h
  observe-counted end_frame p h = turn_counted false p h
  observe-counted stop_frame p h = turn_counted false p h
  observe-counted user_started_speaking p h = let r = heard_counted p.heard h in (rw r.0 refl, r.1)
  observe-counted (transcription user text final) p h = consider-counted p.heard text final p h h
  observe-counted _ p h = (refl, h)

  frame_counted :
      (dir : Direction) (f : Content) (p : InterruptionController MinWordsStrategy)
      → NeedsWords n p
      → Refines n
          (process_frame (word_counter n) dir f (counted p))
          (process_frame min_words_strategy dir f p)
  unfolding process_frame
  frame_counted upstream f p h = (refl, h)
  frame_counted downstream f p h = let r = observe-counted f p h in (rw r.0 refl, r.1)

  -- Over every history the controller with a MinWordsStrategy of `n` words, at least one, sends what
  -- the controller sends that keeps only the number of words heard, and its state is then the one
  -- that this controller sees.
  pub run-word_counter :
      (xs : List Input) (p : InterruptionController MinWordsStrategy)
      → NeedsWords n p
      → run (word_counter n) xs (counted p)
        ≡ (counted (run min_words_strategy xs p).0, (run min_words_strategy xs p).1)
  unfolding run
  run-word_counter [] p h = refl
  run-word_counter (x ∷ xs) p h =
      let r = frame_counted x.dir x.content p h in
      rw (r.0, run-word_counter xs (process_frame min_words_strategy x.dir x.content p).0 r.1) refl

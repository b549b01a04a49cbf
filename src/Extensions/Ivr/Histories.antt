-- ===== src/Extensions/Ivr/Histories.antt =====
-- Every history of frames is processed.
use voxray.Base.{ℕ, ◌+◌, ◌≤◌, Option, some, List, [], ◌∷◌, ◌++◌, ◌>>=◌, length, ◌≡◌, refl, arith}
use voxray.Frames.{Text, Content, llm_text}
use voxray.Utils.Patterns.{new_aggregator, flush}
use voxray.Utils.Patterns.Loops.{feed-pieces}
use voxray.Extensions.Ivr.{
  IvrProcessor, Effect, new_ivr_processor, set_saved_messages, flush_then_forward, push_texts,
  handle_matches, process_frame,
}

module _ {M : Type 0} (system : Text → M) where
  unfoldable pub run : List Content → IvrProcessor M → Option (IvrProcessor M × List (Effect M))
  run [] p = some (p, [])
  run (f ∷ fs) p = do
    (q, effects) ← process_frame system f p
    (r, more) ← run fs q
    some (r, effects ++ more)

  abbrev HasDelims : IvrProcessor M → Type 0
  HasDelims p = 1 ≤ length p.agg.open_delim + length p.agg.close_delim

  Answers : Content → IvrProcessor M → Type 0
  Answers f p =
      (q : IvrProcessor M) × ((effects : List (Effect M)) × ((process_frame system f p
            ≡ some (q, effects))
          × HasDelims q))

  process_frame-Answers : (f : Content) (p : IvrProcessor M) → HasDelims p → Answers f p
  unfolding process_frame Answers flush_then_forward flush
  process_frame-Answers (llm_text t) p h =
      let (fed, (e, (ps, (segs, (ms, (source, (opens, closes))))))) = feed-pieces t p.agg h in
      (
        record p { agg = fed.aggregator },
        (
          push_texts system fed.segments ++ handle_matches system fed.matches p,
          (rw e refl, rw (opens, closes) h),
        ),
      )
  process_frame-Answers _ p h = (_, (_, (refl, h)))

  run-answers :
      (fs : List Content) (p : IvrProcessor M)
      → HasDelims p
      → (r : IvrProcessor M × List (Effect M)) × (run fs p ≡ some r)
  unfolding run Answers
  run-answers [] p h = (_, refl)
  run-answers (f ∷ fs) p h =
      let (q, (effects, (e, h'))) = process_frame-Answers f p h in
      let (r, rest) = run-answers fs q h' in ((r.0, effects ++ r.1), rw (e, rest) refl)

  -- From a new processor, whatever prompts and messages it has, every history of frames is processed:
  -- no text keeps Feed in its loop.
  pub new_ivr_processor-answers :
      (classifier_prompt ivr_prompt : Text) (vad_stop : ℕ) (ms : List M) (fs : List Content)
      → let p =
          set_saved_messages system ms
            (new_ivr_processor system classifier_prompt ivr_prompt vad_stop) in
        (r : IvrProcessor M × List (Effect M)) × (run fs p ≡ some r)
  unfolding new_ivr_processor set_saved_messages new_aggregator
  new_ivr_processor-answers classifier_prompt ivr_prompt vad_stop ms fs =
      run-answers fs
        (set_saved_messages system ms
          (new_ivr_processor system classifier_prompt ivr_prompt vad_stop))
        (omega arith)

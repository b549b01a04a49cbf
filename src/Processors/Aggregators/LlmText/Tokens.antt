-- ===== src/Processors/Aggregators/LlmText/Tokens.antt =====
-- What is emitted of a response does not depend on how the model cuts it into tokens.
use mathlib.Core.List.{map-append}
use voxray.Base.{
  Bool, false, List, [], ◌∷◌, ◌++◌, map, ◌≡◌, refl, ap, ◌∙◌, append-nil, append_assoc, inl, inr,
  Bool-cases, if◌then◌else◌,
}
use voxray.Frames.{Text, Content, llm_text, llm_full_response_end, aggregated_text}
use voxray.Texts.{is_blank, trim_space}
use voxray.Utils.Sentences.{SentenceAggregator, aggregate, flush}
use voxray.Utils.Sentences.Chunks.{unlimited, sentences, aggregate-append, aggregate-sentences}
use voxray.Processors.Aggregators.LlmText.{push_segments, push_last, process_frame}

-- The tokens of a response, and its text.
unfoldable pub tokens : List Text → List Content
tokens [] = []
tokens (t ∷ ts) = llm_text t ∷ tokens ts

unfoldable pub joined : List Text → Text
joined [] = []
joined (t ∷ ts) = t ++ joined ts

module _ (fails : Content → Bool) where
  unfoldable pub run : List Content → SentenceAggregator → SentenceAggregator × List Content
  run [] s = (s, [])
  run (f ∷ fs) s =
      let r = process_frame fails f s in
      let (after, more) = run fs r.aggregator in (after, r.pushed ++ more)

  module _ (accepts : (f : Content) → fails f ≡ false) where
    push_segments-accepted :
        (ts : List Text) (s : SentenceAggregator)
        → let r = push_segments fails ts s in
          (r.aggregator ≡ s) × (r.pushed ≡ map (λ t. aggregated_text t) ts)
    unfolding push_segments
    push_segments-accepted [] s = (refl, refl)
    push_segments-accepted (t ∷ ts) s =
        let (same, pushed) = push_segments-accepted ts s in
        rw (accepts (aggregated_text t)) (same, ap (λ fs. aggregated_text t ∷ fs) pushed)

    pushed_segments :
        (t : Text) (fs : List Content) (s : SentenceAggregator)
        → let r = aggregate t s in
          let q = run fs r.1 in
          run (llm_text t ∷ fs) s ≡ (q.0, map (λ x. aggregated_text x) r.0 ++ q.1)
    unfolding run process_frame
    pushed_segments t fs s =
        let r = aggregate t s in
        let (same, pushed) = push_segments-accepted r.0 r.1 in rw (same, pushed) refl

    run-empty : (s : SentenceAggregator) → run [] s ≡ (s, [])
    unfolding run
    run-empty s = refl

    run-joined :
        (t : Text) (ts : List Text) (ends buf : Text)
        → let r = aggregate (joined (t ∷ ts)) (unlimited ends buf) in
          run (tokens (t ∷ ts)) (unlimited ends buf) ≡ (r.1, map (λ x. aggregated_text x) r.0)
    unfolding tokens joined
    run-joined t [] ends buf =
        pushed_segments t [] (unlimited ends buf)
        ∙ rw
            (
              run-empty (aggregate t (unlimited ends buf)).1,
              append-nil (map (λ x. aggregated_text x) (aggregate t (unlimited ends buf)).0),
              append-nil t,
            )
            refl
    run-joined t (u ∷ us) ends buf =
        let rest = (sentences ends [] (buf ++ t)).1 in
        let state : (aggregate t (unlimited ends buf)).1 ≡ unlimited ends rest =
          ap (λ r. r.1) (aggregate-sentences ends buf t) in
        pushed_segments t (tokens (u ∷ us)) (unlimited ends buf)
        ∙ rw
            (
              aggregate-append ends buf t (joined (u ∷ us)),
              state,
              run-joined u us ends rest,
              map-append (λ x. aggregated_text x),
            )
            refl

    run-append :
        (fs gs : List Content) (s : SentenceAggregator)
        → let r = run fs s in let q = run gs r.0 in run (fs ++ gs) s ≡ (q.0, r.1 ++ q.1)
    unfolding run
    run-append [] gs s = refl
    run-append (f ∷ fs) gs s =
        let r = process_frame fails f s in
        rw
          (
            run-append fs gs r.aggregator,
            append_assoc r.pushed (run fs r.aggregator).1 (run gs (run fs r.aggregator).0).1,
          )
          refl

    pushed_last :
        (ends rest : Text)
        → (run (llm_full_response_end ∷ []) (unlimited ends rest)).1
          ≡ (if is_blank (trim_space rest) then [] else aggregated_text (trim_space rest) ∷ [])
            ++ llm_full_response_end ∷ []
    unfolding run process_frame flush push_last
    pushed_last ends rest = elim (Bool-cases (is_blank (trim_space rest))) [
      | inl blank ↦ rw blank refl
      | inr words ↦ rw (words, accepts (aggregated_text (trim_space rest))) refl
    ]

    -- If the next processor accepts every frame and there is no limit on the length, a response of a
    -- token or more pushes one frame for each sentence of its whole text, trimmed, one more for a rest
    -- that is not white space, and its end, however the text is cut into tokens.
    pub response-sentences :
        (t : Text) (ts : List Text) (ends : Text)
        → let (whole, rest) = sentences ends [] (joined (t ∷ ts)) in
          (run (tokens (t ∷ ts) ++ llm_full_response_end ∷ []) (unlimited ends [])).1
          ≡ map (λ x. aggregated_text x) (map trim_space whole)
            ++ ((if is_blank (trim_space rest) then [] else aggregated_text (trim_space rest) ∷ [])
                ++ llm_full_response_end ∷ [])
    response-sentences t ts ends =
        rw
          (
            run-append (tokens (t ∷ ts)) (llm_full_response_end ∷ []) (unlimited ends []),
            run-joined t ts ends [],
            aggregate-sentences ends [] (joined (t ∷ ts)),
          )
          (ap
            (λ l.
              map (λ x. aggregated_text x) (map trim_space (sentences ends [] (joined (t ∷ ts))).0)
              ++ l)
            (pushed_last ends (sentences ends [] (joined (t ∷ ts))).1))

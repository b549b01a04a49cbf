-- ===== src/Processors/Aggregators/LlmText.antt =====
-- pkg/processors/aggregators/llmtext/llmtext.go over a SentenceAggregator, which is its default. `fails`
-- says on which frames the next processor returns an error. SkipTTS is left out.
pub mod Tokens
use voxray.Base.{Bool, true, false, Option, none, some, List, [], ◌∷◌, ◌++◌, if◌then◌else◌}
use voxray.Frames.{
  Text, Content, interruption, end_frame, llm_text, llm_full_response_end, aggregated_text,
}
use voxray.Utils.Sentences.{SentenceAggregator, aggregate, flush, handle_interruption}

-- The aggregator after a call, the frames pushed downstream, and whether it returned an error.
pub record Result : Type 0 where
  pub aggregator : SentenceAggregator
  pub pushed : List Content
  pub failed : Bool

module _ (fails : Content → Bool) where
  push : Content → SentenceAggregator → Result
  push f s = record { aggregator = s; pushed = f ∷ []; failed = fails f }

  -- The segments, up to the first that fails.
  unfoldable pub push_segments : List Text → SentenceAggregator → Result
  push_segments [] s = record { aggregator = s; pushed = []; failed = false }
  push_segments (t ∷ ts) s =
      let rest = push_segments ts s in
      if fails (aggregated_text t)
      then record { aggregator = s; pushed = aggregated_text t ∷ []; failed = true }
      else record rest { pushed = aggregated_text t ∷ rest.pushed }

  -- The segment left over, if there is one, and then the frame.
  unfoldable pub push_last : Option Text → Content → SentenceAggregator → Result
  unfolding push
  push_last none f s = push f s
  push_last (some t) f s =
      if fails (aggregated_text t)
      then record { aggregator = s; pushed = aggregated_text t ∷ []; failed = true }
      else record (push f s) { pushed = aggregated_text t ∷ f ∷ [] }

  unfoldable pub process_frame : Content → SentenceAggregator → Result
  unfolding push
  process_frame interruption s = push interruption (handle_interruption s)
  process_frame (llm_text t) s = let (segments, r) = aggregate t s in push_segments segments r
  process_frame llm_full_response_end s =
      let (last, r) = flush s in push_last last llm_full_response_end r
  process_frame end_frame s = let (last, r) = flush s in push_last last end_frame r
  process_frame f s = push f s

-- ===== src/Processors/Aggregators/Buffer.antt =====
-- pkg/processors/aggregator/aggregator.go, and MatchEndOfSentence of pkg/utils/sentence.
use voxray.Base.{
  ℕ, Bool, false, ◌&&◌, List, [], ◌∷◌, ◌++◌, length, leb, ◌≡◌, refl, arith, if◌then◌else◌,
}
use voxray.Frames.{Text, Content, text, llm_text}
use voxray.Texts.{is_blank, trim_space, trim_left, trim_right, has_char}

-- The last character is one of some.
unfoldable pub ends_with_one : Text → Text → Bool
ends_with_one chars [] = false
ends_with_one chars (c ∷ []) = has_char c chars
ends_with_one chars (c ∷ d ∷ cs) = ends_with_one chars (d ∷ cs)

unfoldable pub or_sentence_end : Text → Text
or_sentence_end chars = if is_blank chars then 46 ∷ 33 ∷ 63 ∷ [] else chars

unfoldable pub match_end_of_sentence : Text → Text → Bool
match_end_of_sentence s end_chars = ends_with_one (or_sentence_end end_chars) (trim_space s)

pub record Aggregator : Type 0 where
  pub sentence_end : Text
  pub max_buffer : ℕ  -- 0 is no limit, as a negative number is
  pub buf : Text

abbrev pub new_aggregator : Text → ℕ → Aggregator
new_aggregator sentence_end max_buffer = record {
  sentence_end = or_sentence_end sentence_end;
  max_buffer = max_buffer;
  buf = [];
}

unfoldable pub flush : Aggregator → Aggregator × List Content
flush p =
    let t = trim_space p.buf in (record p { buf = [] }, if is_blank t then [] else text t ∷ [])

unfoldable pub try_flush : Aggregator → Aggregator × List Content
try_flush p =
    if leb 1 p.max_buffer && leb p.max_buffer (length p.buf)
    then flush p
    else if match_end_of_sentence p.buf p.sentence_end
    then flush p
    else (p, [])

-- ProcessFrame of a frame that goes down: the frames pushed.
unfoldable pub process_frame : Content → Aggregator → Aggregator × List Content
process_frame (text t) p = try_flush (record p { buf = p.buf ++ t })
process_frame (llm_text t) p = try_flush (record p { buf = p.buf ++ t })
process_frame f p = let (q, sent) = flush p in (q, sent ++ f ∷ [])

-- The buffer has not come to the end of a sentence, nor to the limit.
abbrev pub IsShort : Aggregator → Type 0
IsShort p =
    (match_end_of_sentence p.buf p.sentence_end ≡ false)
    × ((leb 1 p.max_buffer && leb p.max_buffer (length p.buf)) ≡ false)

flush-IsShort : (p : Aggregator) → IsShort (flush p).0
unfolding flush match_end_of_sentence ends_with_one trim_left trim_right
flush-IsShort p = (refl, ground arith)

try_flush-IsShort : (p : Aggregator) → IsShort (try_flush p).0
unfolding try_flush
try_flush-IsShort p = ground (arith, flush-IsShort p)

-- Whatever frame comes, what is left in the buffer neither ends a sentence, white space after it aside,
-- nor reaches the limit.
pub process_frame-IsShort : (f : Content) (p : Aggregator) → IsShort (process_frame f p).0
unfolding process_frame
process_frame-IsShort (text t) p = try_flush-IsShort (record p { buf = p.buf ++ t })
process_frame-IsShort (llm_text t) p = try_flush-IsShort (record p { buf = p.buf ++ t })
process_frame-IsShort _ p = flush-IsShort p

-- ===== src/Utils/Sentences.antt =====
-- pkg/utils/textaggregator/sentence.go: SentenceAggregator. A segment is its text: its type is always
-- "sentence".
pub mod Chunks
use voxray.Base.{
  ℕ, zero, suc, Bool, true, false, ◌&&◌, Option, none, some, List, [], ◌∷◌, ◌++◌, length, take,
  drop, leb, if◌then◌else◌,
}
use voxray.Frames.{Text}
use voxray.Texts.{is_blank, trim_space, has_char}

pub record SentenceAggregator : Type 0 where
  pub sentence_end : Text
  pub max_runes : ℕ  -- 0 is no limit, as a negative number is
  pub buf : Text

unfoldable pub new_sentence_aggregator : Text → ℕ → SentenceAggregator
new_sentence_aggregator sentence_end max_runes = record {
  sentence_end = if is_blank sentence_end then 46 ∷ 33 ∷ 63 ∷ [] else sentence_end;
  max_runes = max_runes;
  buf = [];
}

-- The length of the text up to its first end of a sentence.
unfoldable pub first_end : Text → Text → Option ℕ
first_end ends [] = none
first_end ends (c ∷ cs) =
    let rest = first_end ends cs in
    if has_char c ends then some 1 else elim rest [ none ↦ none | some n ↦ some (suc n) ]

-- The length of the next segment.
unfoldable pub next_cut : SentenceAggregator → Option ℕ
next_cut s =
    if is_blank s.buf
    then none
    else if leb 1 s.max_runes && leb s.max_runes (length s.buf)
    then some s.max_runes
    else first_end s.sentence_end s.buf

unfoldable pub cut_at : Option ℕ → SentenceAggregator → Option (Text × SentenceAggregator)
cut_at none s = none
cut_at (some n) s = some (trim_space (take n s.buf), record s { buf = drop n s.buf })

unfoldable pub try_cut : SentenceAggregator → Option (Text × SentenceAggregator)
try_cut s = cut_at (next_cut s) s

-- The loop of Aggregate, on fuel.
unfoldable pub cut_all : ℕ → SentenceAggregator → List Text × SentenceAggregator
cut_all zero s = ([], s)
cut_all (suc fuel) s = elim (try_cut s) [
  | none ↦ ([], s)
  | some (segment, t) ↦ let (more, u) = cut_all fuel t in (segment ∷ more, u)
]

-- A segment has a character at least, so there are not more of them than characters.
unfoldable pub aggregate : Text → SentenceAggregator → List Text × SentenceAggregator
aggregate text s = let t = record s { buf = s.buf ++ text } in cut_all (length t.buf) t

unfoldable pub flush : SentenceAggregator → Option Text × SentenceAggregator
flush s =
    let text = trim_space s.buf in
    (if is_blank text then none else some text, record s { buf = [] })

unfoldable pub handle_interruption : SentenceAggregator → SentenceAggregator
handle_interruption s = record s { buf = [] }

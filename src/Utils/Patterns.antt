-- ===== src/Utils/Patterns.antt =====
-- pkg/utils/patternaggregator/patternaggregator.go: Aggregator, which takes what stands between two
-- delimiters out of a text that comes in pieces. A Match is its content.
pub mod Pieces
pub mod Loops
use voxray.Base.{
  ℕ, zero, suc, ◌+◌, ◌-◌, Bool, true, false, Option, none, some, List, [], ◌∷◌, ◌++◌, length, take,
  drop, leb, ltb, if◌then◌else◌,
}
use voxray.Frames.{Text}
use voxray.Texts.{starts_with, same_text, is_blank}

pub record Aggregator : Type 0 where
  pub open_delim : Text  -- the field open
  pub close_delim : Text  -- the field close
  pub buf : Text

unfoldable pub new_aggregator : Text → Text → Aggregator
new_aggregator open_delim close_delim = record {
  open_delim = open_delim;
  close_delim = close_delim;
  buf = [];
}

-- The first place of a text in another; `none` is -1.
unfoldable pub find_substring : Text → Text → Option ℕ
find_substring part [] = if starts_with part [] then some 0 else none
find_substring part (c ∷ cs) =
    let rest = find_substring part cs in
    if starts_with part (c ∷ cs) then some 0 else elim rest [ none ↦ none | some i ↦ some (suc i) ]

-- The loop over the lengths from `i` of a suffix that may begin the delimiter, `left` lengths long: how
-- much of the text is safe.
unfoldable pub safe_length_from : ℕ → ℕ → Text → Text → ℕ
safe_length_from zero i open_delim buf = length buf
safe_length_from (suc left) i open_delim buf =
    let rest = safe_length_from left (i + 1) open_delim buf in
    if ltb (length buf) i
    then length buf
    else if same_text (drop (length buf - i) buf) (take i open_delim)
    then length buf - i
    else rest

abbrev pub safe_length : Text → Text → ℕ
safe_length open_delim buf = safe_length_from (length open_delim - 1) 1 open_delim buf

-- A text before a delimiter, unless it is empty.
unfoldable pub segment : Text → List Text
segment [] = []
segment (c ∷ cs) = (c ∷ cs) ∷ []

-- The text segments, the matches, and the aggregator afterwards.
pub record Fed : Type 0 where
  pub segments : List Text
  pub matches : List Text
  pub aggregator : Aggregator

unfoldable pub after_match : Text → Text → Fed → Fed
after_match before content rest = record rest {
  segments = segment before ++ rest.segments;
  matches = content ∷ rest.matches;
}

unfoldable pub after_loop : Text → Text → Option Fed → Option Fed
after_loop before content none = none
after_loop before content (some rest) = some (after_match before content rest)

-- No delimiter opens: all is text but a suffix that may begin one.
unfoldable pub feed_text : Aggregator → Fed
feed_text a =
    let n = safe_length a.open_delim a.buf in
    record {
      segments = segment (take n a.buf);
      matches = [];
      aggregator = record a { buf = drop n a.buf };
    }

-- A delimiter opens at `i` and does not close yet.
unfoldable pub feed_open : ℕ → Aggregator → Fed
feed_open i a = record {
  segments = segment (take i a.buf);
  matches = [];
  aggregator = record a { buf = drop i a.buf };
}

-- The loop of Feed on fuel: `none` when it runs out.
unfoldable pub feed_loop : ℕ → Aggregator → Option Fed
feed_loop zero a = none
feed_loop (suc fuel) a = elim (find_substring a.open_delim a.buf) [
  | none ↦ some (feed_text a)
  | some i ↦
      let inner = drop (length a.open_delim) (drop i a.buf) in
      elim (find_substring a.close_delim inner) [
        | none ↦ some (feed_open i a)
        | some k ↦
            after_loop (take i a.buf) (take k inner)
              (feed_loop fuel (record a { buf = drop (length a.close_delim) (drop k inner) }))
      ]
]

-- Feed, with the fuel for one round a character.
unfoldable pub feed : Text → Aggregator → Option Fed
feed text a = let b = record a { buf = a.buf ++ text } in feed_loop (suc (length b.buf)) b

unfoldable pub flush : Aggregator → Text × Aggregator
flush a = (a.buf, record a { buf = [] })

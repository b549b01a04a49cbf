-- ===== src/Utils/Patterns/Pieces.antt =====
-- Feed neither loses nor reorders a character.
use voxray.Base.{
  ℕ, zero, suc, Option, none, some, List, [], ◌∷◌, ◌++◌, length, take, drop, ◌≡◌, ◌⊎◌, inl, inr,
  refl, sym, ap, ◌∙◌, append_assoc, append-nil, Bool-cases,
}
use voxray.Frames.{Text}
use voxray.Texts.{starts_with, starts_with-append}
use voxray.Utils.Patterns.{
  Aggregator, Fed, find_substring, segment, after_match, after_loop, feed_text, feed_open,
  feed_loop,
}

-- What Feed cuts the text into.
pub data Piece : Type 0 where
  plain matched : Text → Piece

unfoldable pub segments_of : List Piece → List Text
segments_of [] = []
segments_of (plain t ∷ ps) = t ∷ segments_of ps
segments_of (matched t ∷ ps) = segments_of ps

unfoldable pub matches_of : List Piece → List Text
matches_of [] = []
matches_of (plain t ∷ ps) = matches_of ps
matches_of (matched t ∷ ps) = t ∷ matches_of ps

-- The text of the pieces, with the delimiters around each match.
unfoldable pub source_of : Text → Text → List Piece → Text
source_of open_delim close_delim [] = []
source_of open_delim close_delim (plain t ∷ ps) = t ++ source_of open_delim close_delim ps
source_of open_delim close_delim (matched t ∷ ps) =
    open_delim ++ t ++ close_delim ++ source_of open_delim close_delim ps

take-drop : (n : ℕ) (t : Text) → take n t ++ drop n t ≡ t
take-drop zero t = refl
take-drop (suc n) [] = refl
take-drop (suc n) (c ∷ cs) = ap (λ l. c ∷ l) (take-drop n cs)

-- A text is not found, or found where it stands.
abbrev pub Splits : Text → Text → Type 0
Splits part t =
    (find_substring part t ≡ none)
    ⊎ ((i : ℕ) × ((find_substring part t ≡ some i)
          × (t ≡ take i t ++ part ++ drop (length part) (drop i t))))

pub find_substring-Splits : (part t : Text) → Splits part t
unfolding find_substring
find_substring-Splits part [] = elim (Bool-cases (starts_with part [])) [
  | inl here ↦ inr (0, (rw here refl, starts_with-append part [] here))
  | inr elsewhere ↦ inl (rw elsewhere refl)
]
find_substring-Splits part (c ∷ cs) = elim (Bool-cases (starts_with part (c ∷ cs))) [
  | inl here ↦ inr (0, (rw here refl, starts_with-append part (c ∷ cs) here))
  | inr elsewhere ↦ elim (find_substring-Splits part cs) [
    | inl e ↦ inl (rw (elsewhere, e) refl)
    | inr (i, (e, parts)) ↦ inr (suc i, (rw (elsewhere, e) refl, ap (λ l. c ∷ l) parts))
  ]
]

-- Pieces that a round of Feed, and all after it, cut the text into.
abbrev pub IsCut : Aggregator → Fed → Type 0
IsCut a r =
    (ps : List Piece) × ((segments_of ps ≡ r.segments)
      × ((matches_of ps ≡ r.matches)
          × ((source_of a.open_delim a.close_delim ps ++ r.aggregator.buf ≡ a.buf)
              × ((r.aggregator.open_delim ≡ a.open_delim)
                  × (r.aggregator.close_delim ≡ a.close_delim)))))

-- A text before a delimiter, as a piece.
before : Text → List Piece → List Piece
before [] ps = ps
before (c ∷ cs) ps = plain (c ∷ cs) ∷ ps

before-parts :
    (open_delim close_delim t : Text) (ps : List Piece)
    → (segments_of (before t ps) ≡ segment t ++ segments_of ps)
      × ((matches_of (before t ps) ≡ matches_of ps)
          × (source_of open_delim close_delim (before t ps)
              ≡ t ++ source_of open_delim close_delim ps))
unfolding before segments_of matches_of source_of segment
before-parts open_delim close_delim [] ps = (refl, (refl, refl))
before-parts open_delim close_delim (c ∷ cs) ps = (refl, (refl, refl))

-- One segment, and the rest of the text.
IsCut-segment :
    (a : Aggregator) (n : ℕ)
    → IsCut a record {
      segments = segment (take n a.buf);
      matches = [];
      aggregator = record a { buf = drop n a.buf };
    }
unfolding segments_of matches_of source_of
IsCut-segment a n =
    let (segs, (none_matched, source)) =
      before-parts a.open_delim a.close_delim (take n a.buf) [] in
    (
      before (take n a.buf) [],
      (
        rw (segs, append-nil) refl,
        (none_matched, (rw (source, append-nil) (take-drop n a.buf), (refl, refl))),
      ),
    )

-- A match with the text before it, and the rest of the text cut into pieces.
IsCut-match :
    (a : Aggregator) (i k : ℕ) (r : Fed)
    → let inner = drop (length a.open_delim) (drop i a.buf) in
      let rest = drop (length a.close_delim) (drop k inner) in
      (a.buf ≡ take i a.buf ++ a.open_delim ++ inner)
      → inner ≡ take k inner ++ a.close_delim ++ rest
      → IsCut (record a { buf = rest }) r
      → IsCut a (after_match (take i a.buf) (take k inner) r)
unfolding segments_of matches_of source_of after_match
IsCut-match a i k r outer inside (ps, (segs, (ms, (source, delims)))) =
    let inner = drop (length a.open_delim) (drop i a.buf) in
    let (segs', (ms', source')) =
      before-parts a.open_delim a.close_delim (take i a.buf) (matched (take k inner) ∷ ps) in
    let start' : Text = take i a.buf in
    let opens : Text = a.open_delim in
    let text : Text = take k inner in
    let closes : Text = a.close_delim in
    let after = source_of a.open_delim a.close_delim ps in
    let middle : opens ++ text ++ closes ++ drop (length a.close_delim) (drop k inner)
        ≡ opens ++ inner =
      rw (append_assoc opens text closes, append_assoc opens (text ++ closes) _)
        (ap (λ l. opens ++ l) (sym inside)) in
    let chain : start' ++ (opens ++ text ++ closes ++ after) ++ r.aggregator.buf ≡ a.buf =
      rw
        (
          append_assoc start' (opens ++ text ++ closes ++ after) r.aggregator.buf,
          append_assoc (opens ++ text ++ closes) after r.aggregator.buf,
          source,
        )
        (ap (λ l. start' ++ l) middle ∙ sym (append_assoc start' opens inner) ∙ sym outer) in
    (
      before (take i a.buf) (matched (take k inner) ∷ ps),
      (rw (segs', segs) refl, (rw (ms', ms) refl, (rw source' chain, delims))),
    )

abbrev pub IsCutOrOut : Aggregator → Option Fed → Type 0
IsCutOrOut a o = (o ≡ none) ⊎ ((r : Fed) × ((o ≡ some r) × IsCut a r))

IsCutOrOut-match :
    (a : Aggregator) (i k : ℕ) (o : Option Fed)
    → let inner = drop (length a.open_delim) (drop i a.buf) in
      let rest = drop (length a.close_delim) (drop k inner) in
      (a.buf ≡ take i a.buf ++ a.open_delim ++ inner)
      → inner ≡ take k inner ++ a.close_delim ++ rest
      → IsCutOrOut (record a { buf = rest }) o
      → IsCutOrOut a (after_loop (take i a.buf) (take k inner) o)
unfolding after_loop
IsCutOrOut-match a i k o outer inside (inl e) = inl (rw e refl)
IsCutOrOut-match a i k o outer inside (inr (r, (e, cut))) =
    let content = take k (drop (length a.open_delim) (drop i a.buf)) in
    inr (after_match (take i a.buf) content r, (rw e refl, IsCut-match a i k r outer inside cut))

pub feed_loop-IsCut : (fuel : ℕ) (a : Aggregator) → IsCutOrOut a (feed_loop fuel a)
unfolding feed_loop feed_text feed_open
feed_loop-IsCut zero a = inl refl
feed_loop-IsCut (suc fuel) a = elim (find_substring-Splits a.open_delim a.buf) [
  | inl unopened ↦ rw (feed_loop, unopened) (inr (_, (refl, IsCut-segment a _)))
  | inr (i, (opened, outer)) ↦
      let inner = drop (length a.open_delim) (drop i a.buf) in
      let rest : ℕ → Aggregator =
        λ k. record a { buf = drop (length a.close_delim) (drop k inner) } in
      elim (find_substring-Splits a.close_delim inner) [
        | inl unclosed ↦ rw (feed_loop, opened, unclosed) (inr (_, (refl, IsCut-segment a _)))
        | inr (k, (closed, inside)) ↦
            rw (feed_loop, opened, closed)
              (IsCutOrOut-match a i k _ outer inside (feed_loop-IsCut fuel (rest k)))
      ]
]

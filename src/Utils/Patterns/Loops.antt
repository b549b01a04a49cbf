-- ===== src/Utils/Patterns/Loops.antt =====
-- The loop of Feed ends, unless both delimiters are empty.
use voxray.Base.{
  ℕ, zero, suc, ◌+◌, ◌≤◌, ◌<◌, Option, some, ◌++◌, length, take, drop, length-append, ◌≡◌, inl, inr,
  refl, ap, arith,
}
use voxray.Frames.{Text}
use voxray.Utils.Patterns.{Aggregator, Fed, after_match, after_loop, feed_loop, feed}
use voxray.Utils.Patterns.Pieces.{IsCut, feed_loop-IsCut, find_substring-Splits}

-- What follows a part of a text is shorter by it.
length-after :
    (part t before rest : Text) → t ≡ before ++ part ++ rest → length rest + length part ≤ length t
length-after part t before rest e =
    let whole : length t ≡ length (before ++ part ++ rest) = ap length e in
    omega (arith, length-append (before ++ part) rest, length-append before part)

answers-match :
    (before content : Text) (o : Option Fed) (r : Fed)
    → o ≡ some r
    → after_loop before content o ≡ some (after_match before content r)
unfolding after_loop
answers-match before content o r e = rw e refl

feed_loop-answers :
    (fuel : ℕ) (a : Aggregator)
    → 1 ≤ length a.open_delim + length a.close_delim
    → length a.buf < fuel
    → (r : Fed) × (feed_loop fuel a ≡ some r)
unfolding feed_loop
feed_loop-answers zero a d h = absurd (omega arith)
feed_loop-answers (suc fuel) a d h = elim (find_substring-Splits a.open_delim a.buf) [
  | inl unopened ↦ rw (feed_loop, unopened) (_, refl)
  | inr (i, (opened, outer)) ↦
      let inner = drop (length a.open_delim) (drop i a.buf) in
      elim (find_substring-Splits a.close_delim inner) [
        | inl unclosed ↦ rw (feed_loop, opened, unclosed) (_, refl)
        | inr (k, (closed, inside)) ↦
            let rest : Text = drop (length a.close_delim) (drop k inner) in
            let shorter : length rest < fuel = omega (
              arith,
              length-after a.open_delim a.buf (take i a.buf) inner outer,
              length-after a.close_delim inner (take k inner) rest inside,
            ) in
            let (r, e) = feed_loop-answers fuel (record a { buf = rest }) d shorter in
            rw (feed_loop, opened, closed) (_, answers-match (take i a.buf) (take k inner) _ r e)
      ]
]

-- Unless both delimiters are empty, Feed returns, and what was buffered, with the text that it is fed,
-- consists of the text segments that it returns and, between the delimiters, of the matches, in their
-- orders, and of what it leaves in the buffer.
pub feed-pieces :
    (text : Text) (a : Aggregator)
    → 1 ≤ length a.open_delim + length a.close_delim
    → (r : Fed) × ((feed text a ≡ some r) × IsCut (record a { buf = a.buf ++ text }) r)
unfolding feed
feed-pieces text a d =
    let b = record a { buf = a.buf ++ text } in
    let (r, e) = feed_loop-answers (suc (length b.buf)) b d (omega arith) in
    elim (feed_loop-IsCut (suc (length b.buf)) b) [
      | inl out ↦ cc
      | inr (q, (e', cut)) ↦ (q, (e', cut))
    ]

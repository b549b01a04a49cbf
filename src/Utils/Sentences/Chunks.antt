-- ===== src/Utils/Sentences/Chunks.antt =====
-- The segments do not depend on how the text is cut into pieces.
use mathlib.Core.List.{map-append}
use voxray.Base.{
  ℕ, zero, suc, ◌≤◌, true, false, none, some, List, [], ◌∷◌, ◌++◌, map, length, take, drop,
  length-drop, ◌≡◌, ◌⊎◌, inl, inr, refl, ◌∙◌, arith, append_assoc, append-nil, Bool-cases,
  Option-cases, if◌then◌else◌,
}
use voxray.Frames.{Text}
use voxray.Texts.{is_blank, trim_space, has_char}
use voxray.Utils.Sentences.{
  SentenceAggregator, first_end, next_cut, cut_at, try_cut, cut_all, aggregate,
}

first_end-empty : (ends : Text) → first_end ends [] ≡ none
unfolding first_end
first_end-empty ends = refl

-- The sentences of a text behind the characters of one that has begun, and what begins after them.
unfoldable pub sentences : Text → Text → Text → List Text × Text
sentences ends begun [] = ([], begun)
sentences ends begun (c ∷ cs) =
    let (more, rest) = sentences ends [] cs in
    let longer = sentences ends (begun ++ c ∷ []) cs in
    if has_char c ends then ((begun ++ c ∷ []) ∷ more, rest) else longer

abbrev Begins : Text → Text → Text → Type 0
Begins ends begun t =
    ((first_end ends t ≡ none) × (sentences ends begun t ≡ ([], begun ++ t)))
    ⊎ ((n : ℕ) × ((first_end ends t ≡ some n)
          × ((1 ≤ n)
              × (sentences ends begun t
                  ≡ (let r = sentences ends [] (drop n t) in ((begun ++ take n t) ∷ r.0, r.1))))))

first_end-Begins : (ends begun t : Text) → Begins ends begun t
unfolding first_end sentences
first_end-Begins ends begun [] = inl (refl, rw append-nil refl)
first_end-Begins ends begun (c ∷ cs) = elim (Bool-cases (has_char c ends)) [
  | inl stops ↦ inr (1, (rw stops refl, (omega arith, rw stops refl)))
  | inr goes ↦ elim (first_end-Begins ends (begun ++ c ∷ []) cs) [
    | inl (e, whole) ↦
        inl (rw (goes, e) refl, rw (goes, whole, append_assoc begun (c ∷ []) cs) refl)
    | inr (n, (e, (h, first))) ↦ inr (
      suc n,
      (
        rw (goes, e) refl,
        (omega arith, rw (goes, first, append_assoc begun (c ∷ []) (take n cs)) refl),
      ),
    )
  ]
]

-- An aggregator without a limit.
abbrev pub unlimited : Text → Text → SentenceAggregator
unlimited ends t = record { sentence_end = ends; max_runes = 0; buf = t }

next_cut-first_end : (ends t : Text) → next_cut (unlimited ends t) ≡ first_end ends t
unfolding next_cut first_end is_blank
next_cut-first_end ends [] = refl
next_cut-first_end ends (c ∷ cs) = refl

cut_all-sentences :
    (fuel : ℕ) (ends t : Text)
    → length t ≤ fuel
    → let r = sentences ends [] t in
      cut_all fuel (unlimited ends t) ≡ (map trim_space r.0, unlimited ends r.1)
unfolding cut_all try_cut cut_at sentences next_cut is_blank
cut_all-sentences zero ends [] h = refl
cut_all-sentences zero ends (c ∷ cs) h = absurd (omega arith)
cut_all-sentences (suc fuel) ends t h = elim (first_end-Begins ends [] t) [
  | inl (e, whole) ↦ rw (next_cut-first_end ends t, e, whole) refl
  | inr (n, (e, (some_char, first))) ↦
      rw
        (
          next_cut-first_end ends t,
          e,
          first,
          cut_all-sentences fuel ends (drop n t) (omega (arith, length-drop n t)),
        )
        refl
]

pub sentences-append :
    (ends begun a b : Text)
    → let r = sentences ends begun a in
      let q = sentences ends r.1 b in sentences ends begun (a ++ b) ≡ (r.0 ++ q.0, q.1)
unfolding sentences
sentences-append ends begun [] b = refl
sentences-append ends begun (c ∷ cs) b =
    ground (arith, sentences-append ends [] cs b, sentences-append ends (begun ++ c ∷ []) cs b)

first_end-none :
    (ends : Text) (c : ℕ) (cs : Text)
    → first_end ends (c ∷ cs) ≡ none
    → (has_char c ends ≡ false) × (first_end ends cs ≡ none)
unfolding first_end
first_end-none ends c cs h = ground (arith, Option-cases (first_end ends cs))

first_end-append_one :
    (ends t : Text) (c : ℕ)
    → first_end ends t ≡ none
    → has_char c ends ≡ false
    → first_end ends (t ++ c ∷ []) ≡ none
unfolding first_end
first_end-append_one ends [] c h plain = rw plain refl
first_end-append_one ends (x ∷ xs) c h plain =
    let (goes, none_after) = first_end-none ends x xs h in
    rw (goes, first_end-append_one ends xs c none_after plain) refl

-- What is left over has no end of a sentence.
sentences-rest :
    (ends begun t : Text)
    → first_end ends begun ≡ none
    → first_end ends (sentences ends begun t).1 ≡ none
unfolding sentences first_end
sentences-rest ends begun [] h = h
sentences-rest ends begun (c ∷ cs) h = elim (Bool-cases (has_char c ends)) [
  | inl stops ↦ rw stops (sentences-rest ends [] cs refl)
  | inr goes ↦
      rw goes (sentences-rest ends (begun ++ c ∷ []) cs (first_end-append_one ends begun c h goes))
]

sentences-begun :
    (ends begun a t : Text)
    → first_end ends a ≡ none
    → sentences ends begun (a ++ t) ≡ sentences ends (begun ++ a) t
unfolding sentences first_end
sentences-begun ends begun [] t h = rw append-nil refl
sentences-begun ends begun (c ∷ cs) t h =
    let (goes, none_after) = first_end-none ends c cs h in
    rw goes (
      sentences-begun ends (begun ++ c ∷ []) cs t none_after
      ∙ rw (append_assoc begun (c ∷ []) cs) refl)

-- Aggregating a text cuts off the sentences of what was buffered with it, and buffers the rest.
pub aggregate-sentences :
    (ends buf t : Text)
    → let r = sentences ends [] (buf ++ t) in
      aggregate t (unlimited ends buf) ≡ (map trim_space r.0, unlimited ends r.1)
unfolding aggregate
aggregate-sentences ends buf t = cut_all-sentences (length (buf ++ t)) ends (buf ++ t) (omega arith)

-- Without a limit on the length, two pieces of text give the segments, and leave the buffer, that they
-- give as one piece.
pub aggregate-append :
    (ends buf a b : Text)
    → let r = aggregate a (unlimited ends buf) in
      let q = aggregate b r.1 in aggregate (a ++ b) (unlimited ends buf) ≡ (r.0 ++ q.0, q.1)
aggregate-append ends buf a b =
    let rest = (sentences ends [] (buf ++ a)).1 in
    let whole : sentences ends [] (rest ++ b) ≡ sentences ends rest b =
      sentences-begun ends [] rest b (sentences-rest ends [] (buf ++ a) (first_end-empty ends)) in
    rw
      (
        aggregate-sentences ends buf (a ++ b),
        aggregate-sentences ends buf a,
        aggregate-sentences ends rest b,
        whole,
        ← append_assoc buf a b,
        sentences-append ends [] (buf ++ a) b,
        map-append trim_space,
      )
      refl

next_cut-positive :
    (s : SentenceAggregator) → (next_cut s ≡ none) ⊎ ((n : ℕ) × ((next_cut s ≡ some n) × (1 ≤ n)))
unfolding next_cut
next_cut-positive s = ground (arith, first_end-Begins s.sentence_end [] s.buf)

next_cut-empty : (s : SentenceAggregator) → length s.buf ≤ 0 → next_cut s ≡ none
unfolding next_cut is_blank
next_cut-empty s h = rw (blank s.buf h) refl
  where
    blank : (t : Text) → length t ≤ 0 → is_blank t ≡ true
    blank [] h = refl
    blank (c ∷ cs) h = absurd (omega arith)

cut_all-done :
    (fuel : ℕ) (s : SentenceAggregator) → length s.buf ≤ fuel → next_cut (cut_all fuel s).1 ≡ none
unfolding cut_all try_cut cut_at
cut_all-done zero s h = next_cut-empty s h
cut_all-done (suc fuel) s h = elim (next_cut-positive s) [
  | inl e ↦ rw (cut_all, e) e
  | inr (n, (e, some_char)) ↦
      rw (cut_all, e)
        (cut_all-done fuel (record s { buf = drop n s.buf }) (omega (arith, length-drop n s.buf)))
]

-- Whatever has been buffered and whatever the limit, Aggregate comes to an end of its loop: what it
-- leaves in the buffer has no further segment.
pub aggregate-done : (t : Text) (s : SentenceAggregator) → try_cut (aggregate t s).1 ≡ none
unfolding aggregate try_cut cut_at
aggregate-done t s =
    let whole = record s { buf = s.buf ++ t } in
    rw (cut_all-done (length whole.buf) whole (omega arith)) refl

-- ===== src/Audio/Interruptions.antt =====
-- pkg/audio/interruptions: when the user has said enough to interrupt the bot. The strategy is an
-- interface, whose values are kept by value.
use text.Mathlib.Text.{◌==◌ as str_eq}
use voxray.Base.{
  ℕ, zero, suc, Bool, false, ◌||◌, Option, none, some, String, List, [], ◌∷◌, ◌++◌, ◌≡◌, ◌<◌, refl,
  ap, ◌∙◌, arith, length, ◌+◌, length-append, append_assoc, leb, if◌then◌else◌, Bool-cases, inl,
  inr,
}
use voxray.Frames.{Text}
use voxray.Texts.{is_blank, is_space}

pub record Strategy (S : Type 0) : Type 0 where
  pub reset : S → S
  pub append_text : Text → S → S
  pub should_interrupt : S → Bool

unfoldable pub ended : Text → List Text
ended [] = []
ended (c ∷ cs) = (c ∷ cs) ∷ []

-- strings.Fields of a text, behind the letters of a word that has begun.
unfoldable pub fields_from : Text → Text → List Text
fields_from word [] = ended word
fields_from word (c ∷ cs) =
    let rest = fields_from (if is_space c then [] else word ++ c ∷ []) cs in
    if is_space c then ended word ++ rest else rest

abbrev pub fields : Text → List Text
fields t = fields_from [] t

pub record MinWordsStrategy : Type 0 where
  pub min_words : ℕ
  pub buf : Text

-- Zero and negative counts, which the constructor treats alike, are 0.
unfoldable pub new_min_words_strategy : ℕ → MinWordsStrategy
new_min_words_strategy zero = record { min_words = 1; buf = [] }
new_min_words_strategy (suc n) = record { min_words = suc n; buf = [] }

unfoldable pub reset : MinWordsStrategy → MinWordsStrategy
reset s = record s { buf = [] }

unfoldable pub append_text : Text → MinWordsStrategy → MinWordsStrategy
append_text text s =
    if is_blank text
    then s
    else if is_blank s.buf
    then record s { buf = text }
    else record s { buf = s.buf ++ 32 ∷ text }

unfoldable pub should_interrupt : MinWordsStrategy → Bool
should_interrupt s =
    if leb s.min_words 0
    then false
    else if is_blank s.buf
    then false
    else leb s.min_words (length (fields s.buf))

abbrev pub min_words_strategy : Strategy MinWordsStrategy
min_words_strategy = record {
  reset = reset;
  append_text = append_text;
  should_interrupt = should_interrupt;
}

unfoldable pub new_strategy : String → ℕ → Option MinWordsStrategy
new_strategy kind n =
    if str_eq kind "" || str_eq kind "none"
    then none
    else if str_eq kind "min_words" || str_eq kind "keyword"
    then some (new_min_words_strategy n)
    else none

-- A space between two texts separates their words.
pub fields_from-space :
    (word a b : Text) → fields_from word (a ++ 32 ∷ b) ≡ fields_from word a ++ fields b
unfolding fields_from is_space
fields_from-space word [] b = refl
fields_from-space word (c ∷ cs) b = elim (Bool-cases (is_space c)) [
  | inl e ↦ rw (e, fields_from-space [] cs b, append_assoc) refl
  | inr e ↦ rw (e, fields_from-space (word ++ c ∷ []) cs b) refl
]

unfoldable pub word_count : Text → ℕ
word_count t = length (fields t)

joined :
    (n : ℕ) (buf t : Text)
    → word_count (append_text t record { min_words = n; buf = buf }).buf
      ≡ word_count buf + word_count t
unfolding append_text is_blank word_count fields_from ended
joined n buf [] = omega arith
joined n [] (c ∷ cs) = omega arith
joined n (b ∷ bs) (c ∷ cs) =
    ap length (fields_from-space [] (b ∷ bs) (c ∷ cs))
    ∙ length-append (fields (b ∷ bs)) (fields (c ∷ cs))

enough :
    (n : ℕ) (buf : Text)
    → 0 < n
    → should_interrupt record { min_words = n; buf = buf } ≡ leb n (word_count buf)
unfolding should_interrupt is_blank word_count fields_from ended
enough n [] h = ground arith
enough n (c ∷ cs) h = ground arith

-- Appending a text adds its words to those gathered.
pub append_text-word_count :
    (t : Text) (s : MinWordsStrategy)
    → word_count (append_text t s).buf ≡ word_count s.buf + word_count t
append_text-word_count t s = joined s.min_words s.buf t

pub should_interrupt-word_count :
    (s : MinWordsStrategy)
    → 0 < s.min_words
    → should_interrupt s ≡ leb s.min_words (word_count s.buf)
should_interrupt-word_count s h = enough s.min_words s.buf h

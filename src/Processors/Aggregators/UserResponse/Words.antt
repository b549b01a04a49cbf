-- ===== src/Processors/Aggregators/UserResponse/Words.antt =====
-- The words of a user's turn.
use voxray.Base.{
  ℕ, Bool, true, false, ◌&&◌, List, [], ◌∷◌, ◌++◌, ◌≡◌, refl, sym, ap, ◌∙◌, append-nil,
  append_assoc, inl, inr, Bool-cases, and_parts, if◌then◌else◌, String,
}
use voxray.Frames.{Text, Content, transcription, user_stopped_speaking}
use voxray.Texts.{is_blank, is_space, trim_space, trim_left, trim_right}
use voxray.Audio.Interruptions.{fields, fields_from, ended, fields_from-space}
use voxray.Processors.Aggregators.UserResponse.{append_text, flush_then_forward, process_frame}

blank-empty : (t : Text) → is_blank t ≡ true → t ≡ []
unfolding is_blank
blank-empty [] e = refl
blank-empty (_ ∷ _) e = cc

trim_left-letter : (c : ℕ) (cs : Text) → is_space c ≡ false → trim_left (c ∷ cs) ≡ c ∷ cs
unfolding trim_left
trim_left-letter c cs e = rw e refl

fields-space : (c : ℕ) (cs : Text) → is_space c ≡ true → fields (c ∷ cs) ≡ fields cs
unfolding fields_from ended
fields-space c cs e = rw e refl

fields-trim_left : (t : Text) → fields (trim_left t) ≡ fields t
unfolding trim_left
fields-trim_left [] = refl
fields-trim_left (c ∷ cs) = elim (Bool-cases (is_space c)) [
  | inl space ↦ rw space (fields-trim_left cs ∙ sym (fields-space c cs space))
  | inr letter ↦ ap fields (trim_left-letter c cs letter)
]

no_words : (t : Text) → t ≡ [] → fields t ≡ []
unfolding fields_from ended
no_words t e = rw e refl

fields_from-trim_right : (word t : Text) → fields_from word (trim_right t) ≡ fields_from word t
unfolding trim_right fields_from
fields_from-trim_right word [] = refl
fields_from-trim_right word (c ∷ cs) = elim (Bool-cases (is_blank (trim_right cs) && is_space c)) [
  | inl gone ↦
      let (blank, space) = (and_parts (is_blank (trim_right cs)) (is_space c)).0 gone in
      let nothing : fields cs ≡ [] =
        sym (fields_from-trim_right [] cs)
        ∙ no_words (trim_right cs) (blank-empty (trim_right cs) blank) in
      rw (gone, space, nothing, append-nil) refl
  | inr kept ↦ rw (kept, fields_from-trim_right (if is_space c then [] else word ++ c ∷ []) cs) refl
]

-- White space around a text has no words.
fields-trim_space : (t : Text) → fields (trim_space t) ≡ fields t
fields-trim_space t = fields_from-trim_right [] (trim_left t) ∙ fields-trim_left t

-- A text that is appended adds its words.
fields-append_text : (buf t : Text) → fields (append_text buf t) ≡ fields buf ++ fields t
unfolding append_text fields_from ended is_blank
fields-append_text [] t = refl
fields-append_text (c ∷ cs) t = fields_from-space [] (c ∷ cs) t

-- Transcriptions, each with its user and whether it is final.
abbrev pub Transcript : Type 0
Transcript = String × (Text × Bool)

unfoldable pub words : List Transcript → List Text
words [] = []
words ((_, (t, _)) ∷ ts) = fields t ++ words ts

unfoldable pub gather : List Transcript → Text → Text
gather [] buf = buf
gather ((user, (t, final)) ∷ ts) buf = gather ts (process_frame (transcription user t final) buf).0

fields-gather :
    (ts : List Transcript) (buf : Text) → fields (gather ts buf) ≡ fields buf ++ words ts
unfolding gather words process_frame
fields-gather [] buf = rw append-nil refl
fields-gather ((user, (t, final)) ∷ ts) buf =
    rw
      (
        fields-gather ts (append_text buf t),
        fields-append_text buf t,
        append_assoc (fields buf) (fields t) (words ts),
      )
      refl

unfoldable pub words_of : List Content → List Text
words_of [] = []
words_of (transcription user t final ∷ fs) = fields t ++ words_of fs
words_of (_ ∷ fs) = words_of fs

-- When the user stops speaking, the frame pushed has the words of all transcriptions since the last
-- turn, in order, and the buffer is empty.
turn_words :
    (ts : List Transcript)
    → let r = process_frame user_stopped_speaking (gather ts []) in
      (words_of r.1 ≡ words ts) × (r.0 ≡ [])
unfolding process_frame flush_then_forward words_of words fields_from ended
turn_words ts =
    let t = trim_space (gather ts []) in
    let same : fields t ≡ words ts = fields-trim_space (gather ts []) ∙ fields-gather ts [] in
    elim (Bool-cases (is_blank t)) [
      | inl blank ↦ rw blank (sym (no_words t (blank-empty t blank)) ∙ same, refl)
      | inr said ↦ rw (said, append-nil) (same, refl)
    ]

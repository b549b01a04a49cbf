-- ===== src/Frames/Keypad.antt =====
-- pkg/frames/dtmf.go: the keys of a telephone. A KeypadEntry is the character of its key, or none where
-- it is the empty string.
use voxray.Base.{
  ℕ, Bool, true, false, ◌&&◌, Option, none, some, [], ◌∷◌, ◌≡◌, ◌↔◌, ◌⊎◌, inl, inr, refl,
  Bool-cases, if◌then◌else◌,
}
use voxray.Frames.{Text}
use voxray.Texts.{trim_space, has_char}

-- ValidKeypadRunes
abbrev pub valid_keypad_runes : Text
valid_keypad_runes = 48 ∷ 49 ∷ 50 ∷ 51 ∷ 52 ∷ 53 ∷ 54 ∷ 55 ∷ 56 ∷ 57 ∷ 42 ∷ 35 ∷ []

pub data KeypadError : Type 0 where
  empty_entry : KeypadError
  invalid_character : ℕ → KeypadError

-- The first character that is no key.
unfoldable pub first_invalid : Text → Option ℕ
first_invalid [] = none
first_invalid (c ∷ cs) =
    let rest = first_invalid cs in if has_char c valid_keypad_runes then rest else some c

unfoldable pub entry_of : Option ℕ → Text → KeypadError ⊎ ℕ
entry_of invalid [] = inl empty_entry
entry_of none (c ∷ cs) = inr c
entry_of (some r) (c ∷ cs) = inl (invalid_character r)

-- ParseKeypadEntry
unfoldable pub parse_keypad_entry : Text → KeypadError ⊎ ℕ
parse_keypad_entry s = let t = trim_space s in entry_of (first_invalid t) t

-- NewInputDTMFFrame and NewOutputDTMFUrgentFrame: the key of the frame.
unfoldable pub new_dtmf_frame : Option ℕ → KeypadError ⊎ ℕ
new_dtmf_frame none = inl empty_entry
new_dtmf_frame (some key) =
    if has_char key valid_keypad_runes then inr key else inl (invalid_character key)

unfoldable pub all_keys : Text → Bool
all_keys [] = true
all_keys (c ∷ cs) = has_char c valid_keypad_runes && all_keys cs

first_invalid-all_keys :
    (t : Text)
    → ((first_invalid t ≡ none) × (all_keys t ≡ true))
      ⊎ ((r : ℕ) × ((first_invalid t ≡ some r) × (all_keys t ≡ false)))
unfolding first_invalid all_keys
first_invalid-all_keys [] = inl (refl, refl)
first_invalid-all_keys (c ∷ cs) = elim (Bool-cases (has_char c valid_keypad_runes)) [
  | inr bad ↦ inr (c, (rw bad refl, rw bad refl))
  | inl key ↦ elim (first_invalid-all_keys cs) [
    | inl (e, h) ↦ inl (rw (key, e) refl, rw (key, h) refl)
    | inr (r, (e, h)) ↦ inr (r, (rw (key, e) refl, rw (key, h) refl))
  ]
]

entry_of-key :
    (t : Text) (k : ℕ)
    → (entry_of (first_invalid t) t ≡ inr k)
      ↔ ((rest : Text) × ((t ≡ k ∷ rest) × (all_keys t ≡ true)))
unfolding entry_of
entry_of-key [] k = (λ e. cc, λ w. let (rest, (e, all)) = w in cc)
entry_of-key (c ∷ cs) k = elim (first_invalid-all_keys (c ∷ cs)) [
  | inl (e, h) ↦ rw e ((λ w. (cs, (cc, h))), λ w. let (rest, (eq, all)) = w in cc)
  | inr (r, (e, h)) ↦ rw e ((λ w. cc), λ w. let (rest, (eq, all)) = w in cc)
]

-- A text is parsed to a key exactly if, without the white space around it, it begins with that key and
-- consists of keys; any other text is refused.
pub parse_keypad_entry-key :
    (s : Text) (k : ℕ)
    → (parse_keypad_entry s ≡ inr k)
      ↔ ((rest : Text) × ((trim_space s ≡ k ∷ rest) × (all_keys (trim_space s) ≡ true)))
unfolding parse_keypad_entry
parse_keypad_entry-key s k = entry_of-key (trim_space s) k

-- ===== src/Texts.antt =====
-- The functions of Go's package strings that the modelled code calls, on the list of a text's characters.
use voxray.Base.{
  ℕ, Bool, true, false, ◌&&◌, ◌||◌, ◌==◌, [], ◌∷◌, ◌++◌, length, drop, ◌≡◌, refl, arith, leb,
  if◌then◌else◌,
}
use Prim.Native.Char.{code}
use voxray.Base.{String}
use voxray.Frames.{Text}

-- The code points of a string.
abbrev pub codes : String → Text
codes String.[] = []
codes (String.◌∷◌ c s) = code c ∷ codes s

unfoldable pub is_blank : Text → Bool
is_blank [] = true
is_blank (_ ∷ _) = false

-- unicode.IsSpace
unfoldable pub is_space : ℕ → Bool
is_space c =
    (leb 9 c && leb c 13)
    || (c == 32)
    || (c == 133)
    || (c == 160)
    || (c == 5760)
    || (leb 8192 c && leb c 8202)
    || (c == 8232)
    || (c == 8233)
    || (c == 8239)
    || (c == 8287)
    || (c == 12288)

unfoldable pub trim_left : Text → Text
trim_left [] = []
trim_left (c ∷ cs) = let rest = trim_left cs in if is_space c then rest else c ∷ cs

unfoldable pub trim_right : Text → Text
trim_right [] = []
trim_right (c ∷ cs) =
    let rest = trim_right cs in if is_blank rest && is_space c then [] else c ∷ rest

-- TrimSpace
abbrev pub trim_space : Text → Text
trim_space t = trim_right (trim_left t)

-- ContainsRune
unfoldable pub has_char : ℕ → Text → Bool
has_char c [] = false
has_char c (x ∷ xs) = (x == c) || has_char c xs

-- HasPrefix
unfoldable pub starts_with : Text → Text → Bool
starts_with [] t = true
starts_with (p ∷ ps) [] = false
starts_with (p ∷ ps) (c ∷ cs) = (p == c) && starts_with ps cs

-- Contains
unfoldable pub has_text : Text → Text → Bool
has_text part [] = starts_with part []
has_text part (c ∷ cs) = starts_with part (c ∷ cs) || has_text part cs

unfoldable pub same_text : Text → Text → Bool
same_text [] [] = true
same_text [] (_ ∷ _) = false
same_text (_ ∷ _) [] = false
same_text (a ∷ as') (b ∷ bs) = (a == b) && same_text as' bs

pub starts_with-append :
    (part t : Text) → starts_with part t ≡ true → t ≡ part ++ drop (length part) t
unfolding starts_with
starts_with-append [] t e = refl
starts_with-append (p ∷ ps) [] e = cc
starts_with-append (p ∷ ps) (c ∷ cs) e = ground (arith, starts_with-append ps cs)

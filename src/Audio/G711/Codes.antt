-- ===== src/Audio/G711/Codes.antt =====
-- What encoding makes of what decoding gives, byte by byte.
use voxray.Base.{
  ℕ, zero, suc, ◌%◌, ◌<◌, Bool, true, false, not, ◌&&◌, List, [], ◌∷◌, map, ◌≡◌, ◌≢◌, ◌↔◌, refl,
  sym, ◌∙◌, arith, ltb, ◌==◌, ==_iff, get_or, holds_below, holds_below_at, and_parts,
}
use voxray.Base.Int.{ℤ, pos, negsuc}
use voxray.Audio.Pcm.{Bytes, IsInt16, sample_of-bytes}
use voxray.Audio.G711.{both_signs, rows_joined, negative, sign_bit, magnitude, encode, decode}
use voxray.Audio.G711.Ulaw.{
  ulaw_decode_table, exponent, encode_ulaw_magnitude, encode_ulaw_sample, encode_ulaw, decode_ulaw,
}
use voxray.Audio.G711.Alaw.{
  alaw_decode_table, shifted, encode_alaw_magnitude, encode_alaw_sample, encode_alaw, decode_alaw,
}

is_int16 : ℤ → Bool
is_int16 (pos n) = ltb n 32768
is_int16 (negsuc n) = ltb n 32768

is_int16_sound : (s : ℤ) → is_int16 s ≡ true → IsInt16 s
unfolding is_int16
is_int16_sound (pos n) h = ground arith
is_int16_sound (negsuc n) h = ground arith

-- What a byte becomes when it is decoded and encoded.
abbrev pub recode : (ℤ → ℕ) → List ℤ → ℕ → ℕ
recode sample table b = sample (get_or table b (pos 0))

encode-decode :
    (sample : ℤ → ℕ) (table : List ℤ)
    → ((b : ℕ) → IsInt16 (get_or table b (pos 0)))
    → (bs : Bytes) → encode sample (decode table bs) ≡ map (recode sample table) bs
unfolding encode decode
encode-decode sample table h [] = refl
encode-decode sample table h (b ∷ bs) =
    rw (sample_of-bytes (get_or table b (pos 0)) (h b), encode-decode sample table h bs) refl

-- A table of samples, beyond its end too.
all_int16 : List ℤ → Bool
all_int16 [] = true
all_int16 (s ∷ ss) = is_int16 s && all_int16 ss

all_int16_sound :
    (table : List ℤ) → all_int16 table ≡ true → (b : ℕ) → IsInt16 (get_or table b (pos 0))
unfolding all_int16
all_int16_sound [] h b = omega arith
all_int16_sound (s ∷ ss) h zero = is_int16_sound s (ground arith)
all_int16_sound (s ∷ ss) h (suc b) = all_int16_sound ss (ground arith) b

ulaw_samples : all_int16 ulaw_decode_table ≡ true
unfolding all_int16 is_int16 ulaw_decode_table both_signs rows_joined negative
ulaw_samples = refl

alaw_samples : all_int16 alaw_decode_table ≡ true
unfolding all_int16 is_int16 alaw_decode_table both_signs rows_joined negative
alaw_samples = refl

returns : (ℤ → ℕ) → List ℤ → ℕ → Bool
returns sample table b = recode sample table b == b

-- The bytes of the loudest samples, sixteen for each sign.
abbrev pub is_loudest : ℕ → Bool
is_loudest b = ltb (b % 128) 16

same_test : Bool → Bool → Bool
same_test true b = b
same_test false b = not b

same_test_sound : (a b : Bool) → same_test a b ≡ true → a ≡ b
unfolding same_test
same_test_sound a b h = ground arith

ulaw_table_checked :
    holds_below (λ b. same_test (returns encode_ulaw_sample ulaw_decode_table b) (is_loudest b)) 256
    ≡ true
unfolding holds_below same_test returns encode_ulaw_sample encode_ulaw_magnitude exponent sign_bit
    magnitude ulaw_decode_table both_signs rows_joined negative
ulaw_table_checked = refl

alaw_table_checked :
    holds_below (λ b. not (returns encode_alaw_sample alaw_decode_table b)) 256 ≡ true
unfolding holds_below returns encode_alaw_sample encode_alaw_magnitude shifted sign_bit magnitude
    alaw_decode_table both_signs rows_joined negative
alaw_table_checked = refl

-- A list of bytes.
abbrev pub AreBytes : Bytes → Type 0
AreBytes [] = Unit
AreBytes (b ∷ bs) = (b < 256) × AreBytes bs

pub all_loudest : Bytes → Bool
all_loudest [] = true
all_loudest (b ∷ bs) = is_loudest b && all_loudest bs

differs_clash : (b : Bool) → b ≡ true → not b ≡ true → ⊥
differs_clash b h k = ground arith

cons_parts : (a b : ℕ) (xs ys : Bytes) → (a ∷ xs ≡ b ∷ ys) ↔ ((a ≡ b) × (xs ≡ ys))
cons_parts a b xs ys = ground arith

ulaw_byte_returns :
    (b : ℕ) → b < 256 → (recode encode_ulaw_sample ulaw_decode_table b == b) ≡ is_loudest b
unfolding returns
ulaw_byte_returns b h =
    same_test_sound (returns encode_ulaw_sample ulaw_decode_table b) (is_loudest b) (
      holds_below_at
        (λ b. same_test (returns encode_ulaw_sample ulaw_decode_table b) (is_loudest b)) 256
        ulaw_table_checked b h)

ulaw_returns :
    (bs : Bytes)
    → AreBytes bs
    → (map (recode encode_ulaw_sample ulaw_decode_table) bs ≡ bs) ↔ (all_loudest bs ≡ true)
unfolding all_loudest
ulaw_returns [] h = ground arith
ulaw_returns (b ∷ bs) h =
    let rest = ulaw_returns bs h.1 in
    let r = recode encode_ulaw_sample ulaw_decode_table b in
    let first = ==_iff r b in
    let parts = cons_parts r b (map (recode encode_ulaw_sample ulaw_decode_table) bs) bs in
    let loud = ulaw_byte_returns b h.0 in
    let both = and_parts (is_loudest b) (all_loudest bs) in
    (
      λ e. let q = parts.0 e in both.1 (sym loud ∙ first.1 q.0, rest.0 q.1),
      λ a. let q = both.0 a in parts.1 (first.0 (loud ∙ q.0), rest.1 q.1),
    )

-- Decoding and encoding μ-law bytes gives them back if and only if each is one of the sixteen
-- loudest of its sign.
encode_ulaw-decode_ulaw :
    (bs : Bytes) → AreBytes bs → (encode_ulaw (decode_ulaw bs) ≡ bs) ↔ (all_loudest bs ≡ true)
unfolding encode_ulaw decode_ulaw
encode_ulaw-decode_ulaw bs h =
    rw
      (encode-decode encode_ulaw_sample ulaw_decode_table
        (all_int16_sound ulaw_decode_table ulaw_samples) bs)
      (ulaw_returns bs h)

-- Decoding and encoding A-law bytes, at least one, never gives them back.
encode_alaw-decode_alaw :
    (b : ℕ) (bs : Bytes) → b < 256 → encode_alaw (decode_alaw (b ∷ bs)) ≢ b ∷ bs
unfolding encode_alaw decode_alaw
encode_alaw-decode_alaw b bs h e =
    let r = recode encode_alaw_sample alaw_decode_table b in
    let q =
      rw
        (encode-decode encode_alaw_sample alaw_decode_table
          (all_int16_sound alaw_decode_table alaw_samples) (b ∷ bs))
        at e in
    let same = (cons_parts r b (map (recode encode_alaw_sample alaw_decode_table) bs) bs).0 q in
    let differs =
      holds_below_at (λ b. not (returns encode_alaw_sample alaw_decode_table b)) 256
        alaw_table_checked b h in
    let test = (==_iff r b).1 same.0 in
    absurd (
      differs_clash (returns encode_alaw_sample alaw_decode_table b) (unfold returns in test)
        differs)

-- ===== src/Audio/G711/Loudness.antt =====
-- The signs that the encoders keep, and what becomes of the loudness of a sample.
use voxray.Base.{
  ℕ, zero, suc, ◌+◌, ◌-◌, ◌*◌, ◌/◌, ◌%◌, ◌^◌, ◌≤◌, ◌<◌, min, Bool, true, false, ◌&&◌, ◌≡◌, refl,
  arith, leb, ltb, get_or, holds_below, holds_below_at, leb→le, lt→leb_false, subst, and_parts,
  Bool-cases, inl, inr,
}
use voxray.Base.Int.{ℤ, pos, negsuc, pos_part, neg_part}
use voxray.Audio.G711.{both_signs, rows_joined, negative, sign_bit, magnitude}
use voxray.Audio.G711.Ulaw.{ulaw_decode_table, exponent, encode_ulaw_magnitude, encode_ulaw_sample}
use voxray.Audio.G711.Alaw.{shifted, encode_alaw_magnitude, encode_alaw_sample}

louder : ℕ → Bool
louder m =
    leb (m * 5) (2 * pos_part (get_or ulaw_decode_table (encode_ulaw_magnitude 0 m) (pos 0)))
    && leb (m * 5) (2 * neg_part (get_or ulaw_decode_table (encode_ulaw_magnitude 128 m) (pos 0)))

louder_checked : holds_below (λ k. louder (k + 33)) 7867 ≡ true
unfolding holds_below louder encode_ulaw_magnitude exponent ulaw_decode_table both_signs rows_joined
    negative
louder_checked = refl

louder_sound :
    (m : ℕ)
    → louder m ≡ true
    → (5 * m ≤ 2 * pos_part (get_or ulaw_decode_table (encode_ulaw_magnitude 0 m) (pos 0)))
      × (5 * m ≤ 2 * neg_part (get_or ulaw_decode_table (encode_ulaw_magnitude 128 m) (pos 0)))
unfolding louder
louder_sound m h =
    let parts = (and_parts _ _).0 h in
    let up =
      leb→le (m * 5) (2 * pos_part (get_or ulaw_decode_table (encode_ulaw_magnitude 0 m) (pos 0)))
        parts.0 in
    let below =
      leb→le (m * 5) (2 * neg_part (get_or ulaw_decode_table (encode_ulaw_magnitude 128 m) (pos 0)))
        parts.1 in
    (omega arith, omega arith)

-- A sample between 33 and 7899, or its negative, is decoded from its μ-law code as one at least two
-- and a half times as loud, of the same sign.
encode_ulaw_sample-louder :
    (n : ℕ)
    → 33 ≤ n + 1
    → n + 1 < 7900
    → (5 * (n + 1)
        ≤ 2 * pos_part (get_or ulaw_decode_table (encode_ulaw_sample (pos (n + 1))) (pos 0)))
      × (5 * (n + 1)
          ≤ 2 * neg_part (get_or ulaw_decode_table (encode_ulaw_sample (negsuc n)) (pos 0)))
unfolding encode_ulaw_sample sign_bit magnitude
encode_ulaw_sample-louder n lo hi =
    let checked =
      holds_below_at (λ k. louder (k + 33)) 7867 louder_checked (n - 32) (omega arith) in
    let here : louder (n + 1) ≡ true = subst (λ m. louder m ≡ true) (omega arith) checked in
    let parts = louder_sound (n + 1) here in
    let small : leb 32768 (suc n) ≡ false = lt→leb_false 32768 (suc n) (omega arith) in
    (
      parts.0,
      rw small (
          subst
            (λ m.
              5 * (n + 1)
              ≤ 2 * neg_part (get_or ulaw_decode_table (encode_ulaw_magnitude 128 m) (pos 0)))
            (omega arith) parts.1),
    )

exponent_bound : (fuel mag exp : ℕ) → exp ≤ 7 → exponent fuel mag exp ≤ 7
unfolding exponent
exponent_bound zero mag exp h = h
exponent_bound (suc fuel) mag exp h = ground (arith, exponent_bound fuel mag (exp + 1))

shifted_bound : (fuel m exp : ℕ) → exp ≤ 7 → (shifted fuel m exp).0 ≤ 7
unfolding shifted
shifted_bound zero m exp h = h
shifted_bound (suc fuel) m exp h = ground (arith, shifted_bound fuel (m / 2) (exp + 1))

code_range :
    (exp x : ℕ)
    → exp ≤ 7
    → (128 ≤ 255 - (0 + exp * 16 + x % 16))
      × (255 - (0 + exp * 16 + x % 16) < 256)
      × (255 - (128 + exp * 16 + x % 16) < 128)
code_range exp x h = (omega arith, omega arith, omega arith)

ulaw_range :
    (m : ℕ)
    → (128 ≤ encode_ulaw_magnitude 0 m)
      × (encode_ulaw_magnitude 0 m < 256)
      × (encode_ulaw_magnitude 128 m < 128)
unfolding encode_ulaw_magnitude
ulaw_range m =
    let mag = min (m + 33) 32767 in
    code_range (exponent 7 mag 0) (mag / 2 ^ (exponent 7 mag 0 + 3))
      (exponent_bound 7 mag 0 (omega arith))

alaw_range :
    (m : ℕ)
    → (128 ≤ encode_alaw_magnitude 0 m)
      × (encode_alaw_magnitude 0 m < 256)
      × (encode_alaw_magnitude 128 m < 128)
unfolding encode_alaw_magnitude
alaw_range m = elim (Bool-cases (ltb m 8)) [
  | inl e ↦ rw e (ground arith, ground arith, ground arith)
  | inr e ↦
      rw e (let r = shifted 7 m 0 in code_range r.0 (r.1 / 16) (shifted_bound 7 m 0 (omega arith)))
]

-- A code that has the sign of a sample: a byte whose highest bit is set for a sample from 0 up.
abbrev pub HasSign : ℤ → ℕ → Type 0
HasSign (pos n) b = (128 ≤ b) × (b < 256)
HasSign (negsuc n) b = b < 128

-- Both encoders give a byte whose highest bit tells the sign of every sample.
pub encode_samples-HasSign :
    (s : ℤ) → HasSign s (encode_ulaw_sample s) × HasSign s (encode_alaw_sample s)
unfolding encode_ulaw_sample encode_alaw_sample sign_bit magnitude
encode_samples-HasSign (pos n) =
    let u = ulaw_range n in let a = alaw_range n in ((u.0, u.1), (a.0, a.1))
encode_samples-HasSign (negsuc n) =
    let m = magnitude (negsuc n) in ((ulaw_range m).2, (alaw_range m).2)

-- ===== src/Audio/Mix/Samples.antt =====
-- What mixing and interleaving make of the samples.
use voxray.Base.{
  ℕ, zero, suc, ◌-◌, ◌*◌, ◌/◌, ◌%◌, ◌≤◌, ◌<◌, max, [], ◌∷◌, ◌++◌, ◌≡◌, refl, sym, ap, subst, ◌∙◌,
  arith, append-nil, length, length-append, drop,
}
use voxray.Base.Int.{ℤ, pos, negsuc, pos_part, neg_part, sub_ℕ, ◌+ℤ◌}
use voxray.Audio.Pcm.{
  Bytes, IsInt16, sample_of, sample_of-IsInt16, low_byte-sample_of, high_byte-sample_of,
}
use voxray.Audio.Mix.{
  next_sample, half, clamp16, mixed_sample, mix_samples, zeros, mix_mono, next_bytes,
  interleave_samples, interleave_stereo,
}

mixed_sample_comm : (u b : ℤ) → mixed_sample u b ≡ mixed_sample b u
unfolding mixed_sample ◌+ℤ◌
mixed_sample_comm (pos m) (pos n) = ap (λ s. clamp16 (half s)) (ground arith)
mixed_sample_comm (pos m) (negsuc n) = ap (λ s. clamp16 (half s)) (ground arith)
mixed_sample_comm (negsuc m) (pos n) = ap (λ s. clamp16 (half s)) (ground arith)
mixed_sample_comm (negsuc m) (negsuc n) = ap (λ s. clamp16 (half s)) (ground arith)

mix_samples_comm : (n : ℕ) (user bot : Bytes) → mix_samples n user bot ≡ mix_samples n bot user
unfolding mix_samples
mix_samples_comm zero user bot = refl
mix_samples_comm (suc n) user bot =
    rw
      (
        mixed_sample_comm (next_sample user) (next_sample bot),
        mix_samples_comm n (drop 2 user) (drop 2 bot),
      )
      refl

length-zeros : (n : ℕ) → length (zeros n) ≡ n
unfolding zeros
length-zeros zero = refl
length-zeros (suc n) = ap suc (length-zeros n)

length-mix_samples : (n : ℕ) (user bot : Bytes) → length (mix_samples n user bot) ≡ 2 * n
unfolding mix_samples
length-mix_samples zero user bot = omega arith
length-mix_samples (suc n) user bot = omega (arith, length-mix_samples n (drop 2 user) (drop 2 bot))

-- Mixing does not depend on which buffer comes first, and the result is as long as the longer one.
pub mix_mono_comm :
    (user bot : Bytes)
    → (mix_mono user bot ≡ mix_mono bot user)
      × (length (mix_mono user bot) ≡ max (length user) (length bot))
unfolding mix_mono
mix_mono_comm user bot =
    let n = max (length user) (length bot) in
    let same : n ≡ max (length bot) (length user) = omega arith in
    (
      rw (mix_samples_comm (n / 2) user bot, same) refl,
      length-append (mix_samples (n / 2) user bot) (zeros (n % 2))
          ∙ omega (arith, length-mix_samples (n / 2) user bot, length-zeros (n % 2)),
    )

clamp16_fits : (s : ℤ) → IsInt16 s → clamp16 s ≡ s
unfolding clamp16
clamp16_fits (pos n) h = ground arith
clamp16_fits (negsuc n) h = ground arith

sub_ℕ-IsInt16 : (a b : ℕ) → a ≤ 32767 → b ≤ 32768 → IsInt16 (sub_ℕ a b)
sub_ℕ-IsInt16 a b h k = ground arith

sum_parts :
    (u b : ℤ) → IsInt16 u → IsInt16 b → (pos_part (u +ℤ b) ≤ 65534) × (neg_part (u +ℤ b) ≤ 65536)
unfolding ◌+ℤ◌
sum_parts (pos m) (pos n) h k = (ground arith, ground arith)
sum_parts (pos m) (negsuc n) h k = (ground arith, ground arith)
sum_parts (negsuc m) (pos n) h k = (ground arith, ground arith)
sum_parts (negsuc m) (negsuc n) h k = (ground arith, ground arith)

half_sum-IsInt16 : (u b : ℤ) → IsInt16 u → IsInt16 b → IsInt16 (half (u +ℤ b))
unfolding half
half_sum-IsInt16 u b h k =
    let parts = sum_parts u b h k in
    sub_ℕ-IsInt16 (pos_part (u +ℤ b) / 2) (neg_part (u +ℤ b) / 2) (omega arith) (omega arith)

-- The mean of two samples is a sample: the clamps of the source change nothing.
pub mixed_sample-half :
    (u b : ℤ)
    → IsInt16 u
    → IsInt16 b
    → (mixed_sample u b ≡ half (u +ℤ b)) × IsInt16 (mixed_sample u b)
unfolding mixed_sample
mixed_sample-half u b h k =
    let fits = half_sum-IsInt16 u b h k in
    let same = clamp16_fits (half (u +ℤ b)) fits in (same, subst IsInt16 (sym same) fits)

half_double : (s : ℤ) → half (s +ℤ s) ≡ s
unfolding half ◌+ℤ◌
half_double (pos n) = ground arith
half_double (negsuc n) = ground arith

abbrev pub AreBytes : Bytes → Type 0
AreBytes [] = Unit
AreBytes (b ∷ bs) = (b < 256) × AreBytes bs

mix_samples_self : (n : ℕ) (bs : Bytes) → length bs ≡ 2 * n → AreBytes bs → mix_samples n bs bs ≡ bs
unfolding mix_samples next_sample
mix_samples_self zero [] e h = refl
mix_samples_self zero (b ∷ bs) e h = absurd (omega arith)
mix_samples_self (suc n) [] e h = absurd (omega arith)
mix_samples_self (suc n) (x ∷ []) e h = absurd (omega arith)
mix_samples_self (suc n) (lo ∷ hi ∷ rest) e (lo_byte, (hi_byte, h)) =
    let s = sample_of lo hi in
    let same =
      (mixed_sample-half s s (sample_of-IsInt16 lo hi lo_byte hi_byte)
        (sample_of-IsInt16 lo hi lo_byte hi_byte)).0
      ∙ half_double s in
    rw
      (
        same,
        low_byte-sample_of lo hi lo_byte hi_byte,
        high_byte-sample_of lo hi lo_byte hi_byte,
        mix_samples_self n rest (omega arith) h,
      )
      refl

-- A buffer of whole samples, mixed with itself, is unchanged.
pub mix_mono_self : (n : ℕ) (bs : Bytes) → length bs ≡ 2 * n → AreBytes bs → mix_mono bs bs ≡ bs
unfolding mix_mono
mix_mono_self n bs e h =
    let samples : max (length bs) (length bs) / 2 ≡ n = omega arith in
    let odd : max (length bs) (length bs) % 2 ≡ 0 = omega arith in
    rw (samples, odd, mix_samples_self n bs e h) (unfold zeros in append-nil bs)

-- The channels of an interleaved buffer.
pub left_of : Bytes → Bytes
left_of (a ∷ b ∷ c ∷ d ∷ rest) = a ∷ b ∷ left_of rest
left_of _ = []

pub right_of : Bytes → Bytes
right_of (a ∷ b ∷ c ∷ d ∷ rest) = c ∷ d ∷ right_of rest
right_of _ = []

-- A channel of `n` samples.
padded : ℕ → Bytes → Bytes
padded zero bs = []
padded (suc n) bs = next_bytes bs ++ padded n (drop 2 bs)

two_bytes : (bs : Bytes) → (a : ℕ) × (b : ℕ) × (next_bytes bs ≡ a ∷ b ∷ [])
unfolding next_bytes
two_bytes [] = (0, 0, refl)
two_bytes (x ∷ []) = (0, 0, refl)
two_bytes (x ∷ y ∷ rest) = (x, y, refl)

channels :
    (n : ℕ) (left right : Bytes)
    → (left_of (interleave_samples n left right) ≡ padded n left)
      × (right_of (interleave_samples n left right) ≡ padded n right)
unfolding interleave_samples padded left_of right_of
channels zero left right = (refl, refl)
channels (suc n) left right =
    let rest = channels n (drop 2 left) (drop 2 right) in
    let l = two_bytes left in
    let r = two_bytes right in
    (rw (l.2, r.2) (ap (λ t. l.0 ∷ l.1 ∷ t) rest.0), rw (l.2, r.2) (ap (λ t. r.0 ∷ r.1 ∷ t) rest.1))

padded_whole :
    (n i : ℕ) (bs : Bytes) → length bs ≡ 2 * i → i ≤ n → padded n bs ≡ bs ++ zeros (2 * (n - i))
unfolding padded zeros next_bytes
padded_whole zero zero [] e h = refl
padded_whole zero (suc i) bs e h = absurd (omega arith)
padded_whole n zero (b ∷ bs) e h = absurd (omega arith)
padded_whole n (suc i) [] e h = absurd (omega arith)
padded_whole n (suc i) (b ∷ []) e h = absurd (omega arith)
padded_whole (suc n) (suc i) (a ∷ b ∷ bs) e h =
    ap (λ t. a ∷ b ∷ t)
      (padded_whole n i bs (omega arith) (omega arith)
        ∙ ap (λ k. bs ++ zeros (2 * k)) (omega arith))
padded_whole (suc n) zero [] e h =
    let two : 2 * (suc n - 0) ≡ suc (suc (2 * (n - 0))) = omega arith in
    ap (λ t. 0 ∷ 0 ∷ t) (padded_whole n 0 [] e (omega arith)) ∙ sym (ap zeros two)

-- The channels of two interleaved buffers of whole samples are these buffers, the shorter one with
-- zeros behind it.
pub interleave_stereo_channels :
    (i j : ℕ) (left right : Bytes)
    → length left ≡ 2 * i
    → length right ≡ 2 * j
    → (left_of (interleave_stereo left right) ≡ left ++ zeros (2 * (max i j - i)))
      × (right_of (interleave_stereo left right) ≡ right ++ zeros (2 * (max i j - j)))
unfolding interleave_stereo
interleave_stereo_channels i j left right e f =
    let n : max (length left / 2) (length right / 2) ≡ max i j = omega arith in
    let both = channels (max i j) left right in
    (
      rw n (both.0 ∙ padded_whole (max i j) i left e (omega arith)),
      rw n (both.1 ∙ padded_whole (max i j) j right f (omega arith)),
    )

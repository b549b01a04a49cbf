-- ===== src/Audio/Wav/Chunks.antt =====
-- The loop on the chunks of a WAV file: its rounds, and the fuel that is enough.
use voxray.Base.{
  ℕ, zero, suc, ◌+◌, ◌-◌, ◌≤◌, ◌<◌, false, some, ◌≡◌, refl, sym, ap, ◌∙◌, arith, length, take, drop,
  length-drop, ltb, if◌then◌else◌, Bool-cases, inl, inr,
}
use voxray.Audio.Pcm.{Bytes}
use voxray.Audio.Wav.{
  uint32_at, Found, read_chunk, finish, found_or, is_none, read_chunks, failed, only_pcm,
}

pub read_chunks-finish :
    (fuel : ℕ) (rest : Bytes) (s : Found) → length rest < 8 → read_chunks fuel rest s ≡ finish s
unfolding read_chunks
read_chunks-finish zero rest s h = refl
read_chunks-finish (suc fuel) rest s h = ground arith

pub read_chunks-read_chunk :
    (fuel : ℕ) (rest : Bytes) (s t : Found)
    → 8 ≤ length rest
    → read_chunk (take 4 rest) (take (uint32_at 4 rest) (drop 8 rest)) s ≡ some t
    → read_chunks (suc fuel) rest s ≡ read_chunks fuel (drop (uint32_at 4 rest) (drop 8 rest)) t
unfolding read_chunks found_or is_none
read_chunks-read_chunk fuel rest s t h e = rw (e, lt→ltb_false (length rest) 8 h) refl
  where
    lt→ltb_false : (a b : ℕ) → b ≤ a → ltb a b ≡ false
    lt→ltb_false a b h = ground arith

shorter : (size : ℕ) (rest : Bytes) → length (drop size (drop 8 rest)) ≤ length rest - 8
shorter size rest = omega (arith, length-drop size (drop 8 rest), length-drop 8 rest)

one_more :
    (fuel : ℕ) (rest : Bytes) (s : Found)
    → length rest ≤ fuel
    → read_chunks (suc fuel) rest s ≡ read_chunks fuel rest s
unfolding read_chunks
one_more zero rest s h =
    read_chunks-finish 1 rest s (omega arith) ∙ sym (read_chunks-finish 0 rest s (omega arith))
one_more (suc fuel) rest s h = elim (Bool-cases (ltb (length rest) 8)) [
  | inl e ↦
      let short : length rest < 8 = ground arith in
      read_chunks-finish (suc (suc fuel)) rest s short
      ∙ sym (read_chunks-finish (suc fuel) rest s short)
  | inr e ↦
      let size = uint32_at 4 rest in
      let next = read_chunk (take 4 rest) (take size (drop 8 rest)) s in
      ap
        (λ more.
          if ltb (length rest) 8 then finish s else if is_none next then failed only_pcm else more)
        (one_more fuel (drop size (drop 8 rest)) (found_or next s)
          (omega (arith, shorter size rest)))
]

any_more :
    (extra fuel : ℕ) (rest : Bytes) (s : Found)
    → length rest ≤ fuel
    → read_chunks (extra + fuel) rest s ≡ read_chunks fuel rest s
any_more zero fuel rest s h = ap (λ n. read_chunks n rest s) (omega arith)
any_more (suc extra) fuel rest s h =
    let more : suc extra + fuel ≡ suc (extra + fuel) = omega arith in
    ap (λ n. read_chunks n rest s) more
    ∙ one_more (extra + fuel) rest s (omega arith)
    ∙ any_more extra fuel rest s h

-- The length of what is left of the file is fuel enough: more of it changes no result, whatever the
-- bytes are.
pub read_chunks-enough :
    (extra : ℕ) (rest : Bytes) (s : Found)
    → read_chunks (extra + length rest) rest s ≡ read_chunks (length rest) rest s
read_chunks-enough extra rest s = any_more extra (length rest) rest s (omega arith)

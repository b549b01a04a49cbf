-- ===== src/Recording/Recorder/Samples.antt =====
-- What a recorder leaves in its file.
use voxray.Base.{
  ℕ, ◌+◌, ◌*◌, ◌<◌, ◌≡◌, refl, ap, sym, subst, ◌∙◌, true, false, Option, none, some, List, [], ◌∷◌,
  ◌++◌, append-nil, append_assoc, length, length-append, String, ◌==◌, if◌then◌else◌, arith,
  Bool-cases, inl, inr,
}
use voxray.Base.Int.{ℤ}
use voxray.Audio.Pcm.{Bytes}
use voxray.Audio.Wav.{put_uint16, put_uint32, pcm16_mono_wav, decoded, WavResult, decode_wav_to_pcm}
use voxray.Audio.Wav.RoundTrip.{decode_wav_to_pcm-pcm16_mono_wav}
use voxray.Recording.Files.{perform, perform_op, write, first_fault, at_end, write-at_end}
use voxray.Recording.Recorder.Headers.{header, written_header, sized, header-pcm16_mono_wav}
use voxray.Recording.Recorder.{
  FileRecorder, Created, created, refused, finalize_wav, new_file_recorder, sample_bytes,
  write_samples, close_recorder,
}

-- The calls of WriteSamples, with the rates they name, where the disk does not fail.
unfoldable pub write_all : List (List ℤ × ℕ) → FileRecorder → FileRecorder
write_all [] r = r
write_all ((samples, rate) ∷ calls) r = write_all calls (write_samples none samples rate r).0

-- The samples that come at the rate.
unfoldable pub accepted : ℕ → List (List ℤ × ℕ) → List ℤ
accepted rate [] = []
accepted rate ((samples, r) ∷ calls) =
    let rest = accepted rate calls in if r == rate then samples ++ rest else rest

unfoldable pub left_file : ℕ → List (List ℤ × ℕ) → Created → Option Bytes
left_file end calls (created r) =
    some (close_recorder [] false end (write_all calls r)).0.file.bytes
left_file end calls (refused e) = none

-- The bytes of the file of a recording from its start to its end.
unfoldable pub recorded : String → ℕ → ℕ → ℕ → List (List ℤ × ℕ) → Option Bytes
recorded path rate start end calls =
    left_file end calls (new_file_recorder false false [] path rate start)

-- A recorder that has been given these bytes.
record IsRecording (rate : ℕ) (pcm : Bytes) (r : FileRecorder) : Type 0 where
  pub open_yet : r.closed ≡ false
  pub at_rate : r.sample_rate ≡ rate
  pub written : r.file ≡ at_end (header rate 0 0 pcm)
  pub counted : r.num_samples * 2 ≡ length pcm

length-sample_bytes : (samples : List ℤ) → length (sample_bytes samples) ≡ length samples * 2
unfolding sample_bytes
length-sample_bytes [] = omega arith
length-sample_bytes (s ∷ samples) = omega (arith, length-sample_bytes samples)

sample_bytes-append :
    (xs ys : List ℤ) → sample_bytes (xs ++ ys) ≡ sample_bytes xs ++ sample_bytes ys
unfolding sample_bytes
sample_bytes-append [] ys = refl
sample_bytes-append (x ∷ xs) ys = rw (sample_bytes-append xs ys) refl

header-append :
    (rate : ℕ) (pcm more : Bytes) → header rate 0 0 pcm ++ more ≡ header rate 0 0 (pcm ++ more)
unfolding put_uint32 put_uint16
header-append rate pcm more = refl

same : (n : ℕ) → (n == n) ≡ true
same n = ground arith

takes_none :
    (rate : ℕ) (r : FileRecorder)
    → r.closed ≡ false
    → r.sample_rate ≡ rate
    → (write_samples none [] rate r).0 ≡ r
unfolding write_samples perform_op
takes_none rate r h k = ground arith

takes_samples :
    (rate : ℕ) (s : ℤ) (samples : List ℤ) (r : FileRecorder)
    → r.closed ≡ false
    → r.sample_rate ≡ rate
    → (write_samples none (s ∷ samples) rate r).0 ≡ record r {
      file = write (sample_bytes (s ∷ samples)) r.file;
      num_samples = r.num_samples + length (s ∷ samples);
    }
unfolding write_samples perform_op
takes_samples rate s samples r h k = ground arith

-- Samples at the rate are appended.
write_samples-IsRecording :
    (rate : ℕ) (pcm : Bytes) (samples : List ℤ) (r : FileRecorder)
    → IsRecording rate pcm r
    → IsRecording rate (pcm ++ sample_bytes samples) (write_samples none samples rate r).0
unfolding sample_bytes
write_samples-IsRecording rate pcm [] r g =
    rw (takes_none rate r g.open_yet g.at_rate, append-nil pcm) g
write_samples-IsRecording rate pcm (s ∷ samples) r g =
    let more = sample_bytes (s ∷ samples) in
    let size = length-sample_bytes (s ∷ samples) in
    rw (takes_samples rate s samples r g.open_yet g.at_rate) (record {
      open_yet = g.open_yet;
      at_rate = g.at_rate;
      written =
          ap (write more) g.written
          ∙ write-at_end (header rate 0 0 pcm) more
          ∙ ap at_end (header-append rate pcm more);
      counted = omega (arith, size, g.counted, length-append pcm more);
    })

other_rate :
    (rate other : ℕ) (pcm : Bytes) (samples : List ℤ) (r : FileRecorder)
    → IsRecording rate pcm r
    → (other == rate) ≡ false
    → (write_samples none samples other r).0 ≡ r
unfolding write_samples perform_op
other_rate rate other pcm samples r g h =
    let differs : (other == r.sample_rate) ≡ false = ap (λ (n : ℕ). other == n) g.at_rate ∙ h in
    let open_yet = g.open_yet in ground arith

write_all-IsRecording :
    (rate : ℕ) (pcm : Bytes) (calls : List (List ℤ × ℕ)) (r : FileRecorder)
    → IsRecording rate pcm r
    → IsRecording rate (pcm ++ sample_bytes (accepted rate calls)) (write_all calls r)
unfolding write_all accepted sample_bytes
write_all-IsRecording rate pcm [] r g = rw (append-nil pcm) g
write_all-IsRecording rate pcm ((samples, other) ∷ calls) r g = elim (Bool-cases (other == rate)) [
  | inl e ↦
      let here : other ≡ rate = ground arith in
      let next : IsRecording rate (pcm ++ sample_bytes samples)
          (write_samples none samples other r).0 =
        subst
          (λ (n : ℕ).
            IsRecording rate (pcm ++ sample_bytes samples) (write_samples none samples n r).0)
          (sym here) (write_samples-IsRecording rate pcm samples r g) in
      let rest = accepted rate calls in
      rw
        (
          e,
          sample_bytes-append samples rest,
          ← append_assoc pcm (sample_bytes samples) (sample_bytes rest),
        )
        (write_all-IsRecording rate (pcm ++ sample_bytes samples) calls _ next)
  | inr e ↦
      rw (e, other_rate rate other pcm samples r g e) (write_all-IsRecording rate pcm calls r g)
]

-- The file that Close leaves.
close_recorder-pcm16_mono_wav :
    (rate end : ℕ) (pcm : Bytes) (r : FileRecorder)
    → IsRecording rate pcm r
    → (close_recorder [] false end r).0.file.bytes ≡ pcm16_mono_wav pcm rate
unfolding close_recorder finalize_wav perform perform_op first_fault
close_recorder-pcm16_mono_wav rate end pcm r g =
    rw (g.open_yet, g.written)
      (sized rate r.num_samples pcm ∙ header-pcm16_mono_wav rate r.num_samples pcm g.counted)

abbrev fresh : String → ℕ → ℕ → FileRecorder
fresh path rate now = record {
  path = path;
  file = at_end (header rate 0 0 []);
  started_at = now;
  ended_at = 0;
  closed = false;
  format = "wav";
  sample_rate = rate;
  num_samples = 0;
}

new_file_recorder-fresh :
    (path : String) (rate now : ℕ)
    → 0 < rate
    → new_file_recorder false false [] path rate now ≡ created (fresh path rate now)
unfolding new_file_recorder
new_file_recorder-fresh path rate now h =
    let positive : (rate == 0) ≡ false = ground arith in rw (positive, written_header rate) refl

fresh-IsRecording : (path : String) (rate now : ℕ) → IsRecording rate [] (fresh path rate now)
fresh-IsRecording path rate now = record {
  open_yet = refl;
  at_rate = refl;
  written = refl;
  counted = omega arith;
}

-- If the disk does not fail and the rate is positive, a recorder can be made, and the file that it
-- leaves when it is closed is the WAV file of the samples that have come at its rate, in order, just as
-- WritePCM16MonoWAV would have written it, whatever the number of samples is.
pub recorded-pcm16_mono_wav :
    (path : String) (rate start end : ℕ) (calls : List (List ℤ × ℕ))
    → 0 < rate
    → recorded path rate start end calls
      ≡ some (pcm16_mono_wav (sample_bytes (accepted rate calls)) rate)
unfolding recorded left_file
recorded-pcm16_mono_wav path rate start end calls h =
    let r = fresh path rate start in
    let told = write_all-IsRecording rate [] calls r (fresh-IsRecording path rate start) in
    ap (left_file end calls) (new_file_recorder-fresh path rate start h)
    ∙ ap some (
        close_recorder-pcm16_mono_wav rate end (sample_bytes (accepted rate calls))
          (write_all calls r) told)

abbrev pub read_back : Option Bytes → Option WavResult
read_back none = none
read_back (some bytes) = some (decode_wav_to_pcm bytes)

wav_read :
    (pcm : Bytes) (rate : ℕ)
    → 0 < rate
    → rate < 4294967296
    → 0 < length pcm
    → length pcm < 4294967296
    → decode_wav_to_pcm (pcm16_mono_wav pcm rate) ≡ decoded pcm rate
wav_read [] rate h k some' small = absurd (omega arith)
wav_read (b ∷ bs) rate h k some' small =
    let positive : (rate == 0) ≡ false = ground arith in
    decode_wav_to_pcm-pcm16_mono_wav b bs rate small k
    ∙ ap (λ c. decoded (b ∷ bs) (if c then 48000 else rate)) positive

-- If the disk does not fail, the rate is positive and fits 32 bits, and the samples that have come at
-- it, one at least, have less than 2^32 bytes, then DecodeWAVToPCM reads back from the file exactly
-- these samples, in order, and the rate.
pub read_back-recorded :
    (path : String) (rate start end : ℕ) (calls : List (List ℤ × ℕ))
    → 0 < rate
    → rate < 4294967296
    → 0 < length (accepted rate calls)
    → length (accepted rate calls) * 2 < 4294967296
    → read_back (recorded path rate start end calls)
      ≡ some (decoded (sample_bytes (accepted rate calls)) rate)
read_back-recorded path rate start end calls h k some' small =
    let size = length-sample_bytes (accepted rate calls) in
    ap read_back (recorded-pcm16_mono_wav path rate start end calls h)
    ∙ ap some (
        wav_read (sample_bytes (accepted rate calls)) rate h k (omega (arith, size, some'))
          (omega (arith, size, small)))

-- ===== src/Processors/Voice/Stt/Chunks.antt =====
-- The audio that the service of speech recognition gets.
use voxray.Base.{
  ℕ, ◌≤◌, ◌<◌, Bool, true, Option, none, some, List, [], ◌∷◌, ◌++◌, length, leb, ◌≡◌, refl, ap,
  subst, ◌&&◌, sym, ◌∙◌, inl, inr, Bool-cases, arith, append_assoc, append-nil,
}
use voxray.Frames.{Text, Content, audio_raw}
use voxray.Processors.Voice.Stt.{Stt, Transcript, Heard, hear, process_frame, new_stt_with_buffer}

-- A frame, and how the service answers if it is asked on it.
pub record Turn : Type 0 where
  pub frame : Content
  pub transcribe : Text → Option (List Transcript)

abbrev chunks_of : Option Text → List Text
chunks_of none = []
chunks_of (some chunk) = chunk ∷ []

-- The state after a history, and the chunks sent to the service.
unfoldable pub run : List Turn → Stt → Stt × List Text
run [] p = (p, [])
run (t ∷ ts) p =
    let h = process_frame t.transcribe t.frame p in
    let (q, chunks) = run ts h.state in (q, chunks_of h.sent ++ chunks)

unfoldable pub audio_of : Content → Text
audio_of (audio_raw audio) = audio
audio_of _ = []

unfoldable pub received : List Turn → Text
received [] = []
received (t ∷ ts) = audio_of t.frame ++ received ts

unfoldable pub joined : List Text → Text
joined [] = []
joined (chunk ∷ chunks) = chunk ++ joined chunks

unfoldable pub all_at_least : ℕ → List Text → Bool
all_at_least n [] = true
all_at_least n (chunk ∷ chunks) = leb n (length chunk) && all_at_least n chunks

-- What a step keeps of a state in which less than a chunk waits.
abbrev Keeps : Stt → Text → Heard → Type 0
Keeps p audio h =
    (h.state.min_buffer_bytes ≡ p.min_buffer_bytes)
    × (joined (chunks_of h.sent) ++ h.state.buf ≡ p.buf ++ audio)
    × (all_at_least p.min_buffer_bytes (chunks_of h.sent) ≡ true)
    × (length h.state.buf < p.min_buffer_bytes)

hear-Keeps :
    (transcribe : Text → Option (List Transcript)) (audio : Text) (p : Stt)
    → 1 ≤ p.min_buffer_bytes
    → Keeps p audio (hear transcribe audio p)
unfolding hear joined all_at_least
hear-Keeps transcribe audio p h =
    let buf = p.buf ++ audio in
    elim (Bool-cases (leb p.min_buffer_bytes (length buf))) [
      | inl enough ↦
          rw enough
            (refl, append-nil (buf ++ []) ∙ append-nil buf, ground (arith, enough), omega arith)
      | inr few ↦ rw few (refl, refl, refl, ground (arith, few))
    ]

process_frame-Keeps :
    (transcribe : Text → Option (List Transcript)) (f : Content) (p : Stt)
    → 1 ≤ p.min_buffer_bytes
    → length p.buf < p.min_buffer_bytes
    → Keeps p (audio_of f) (process_frame transcribe f p)
unfolding process_frame audio_of joined all_at_least
process_frame-Keeps transcribe (audio_raw audio) p h short = hear-Keeps transcribe audio p h
process_frame-Keeps transcribe _ p h short = (refl, sym (append-nil p.buf), refl, short)

joined-append : (xs ys : List Text) → joined (xs ++ ys) ≡ joined xs ++ joined ys
unfolding joined
joined-append [] ys = refl
joined-append (x ∷ xs) ys =
    ap (λ t. x ++ t) (joined-append xs ys) ∙ sym (append_assoc x (joined xs) (joined ys))

all_at_least-append :
    (n : ℕ) (xs ys : List Text)
    → all_at_least n xs ≡ true
    → all_at_least n ys ≡ true
    → all_at_least n (xs ++ ys) ≡ true
unfolding all_at_least
all_at_least-append n [] ys hx hy = hy
all_at_least-append n (x ∷ xs) ys hx hy =
    let rest : all_at_least n xs ≡ true = ground arith in
    ground (arith, all_at_least-append n xs ys rest hy)

-- Over any history, however the service answers and fails, the chunks that it is sent, followed by what
-- still waits, are the audio that waited at first and that came, each byte once and in order; each
-- chunk is of the least size at least, and less than that waits.
pub run-chunks :
    (ts : List Turn) (p : Stt)
    → 1 ≤ p.min_buffer_bytes
    → length p.buf < p.min_buffer_bytes
    → (joined (run ts p).1 ++ (run ts p).0.buf ≡ p.buf ++ received ts)
      × (all_at_least p.min_buffer_bytes (run ts p).1 ≡ true)
      × (length (run ts p).0.buf < p.min_buffer_bytes)
unfolding run received joined all_at_least
run-chunks [] p h short = (sym (append-nil p.buf), refl, short)
run-chunks (t ∷ ts) p h short =
    let heard = process_frame t.transcribe t.frame p in
    let q = heard.state in
    let (same, kept, large, less) = process_frame-Keeps t.transcribe t.frame p h short in
    let (all, larges, end) = run-chunks ts q (omega (arith, same)) (omega (arith, same)) in
    let first = chunks_of heard.sent in
    let more = (run ts q).1 in
    (
      ap (λ t. t ++ (run ts q).0.buf) (joined-append first more)
          ∙ append_assoc (joined first) (joined more) (run ts q).0.buf
          ∙ ap (λ t. joined first ++ t) all
          ∙ sym (append_assoc (joined first) q.buf (received ts))
          ∙ ap (λ t. t ++ received ts) kept
          ∙ append_assoc p.buf (audio_of t.frame) (received ts),
      all_at_least-append p.min_buffer_bytes first more large
          (subst (λ n. all_at_least n more ≡ true) same larges),
      omega (arith, same),
    )

new_stt_with_buffer-min_buffer_bytes :
    (rate channels ms : ℕ) → 3200 ≤ (new_stt_with_buffer rate channels ms).min_buffer_bytes
unfolding new_stt_with_buffer
new_stt_with_buffer-min_buffer_bytes rate channels ms = ground arith

-- ===== src/Observers/Transcript/Conversation.antt =====
-- What a session's transcript says.
use voxray.Base.{
  ℕ, suc, Bool, true, not, ◌&&◌, ◌||◌, List, [], ◌∷◌, ◌++◌, append-nil, append_assoc, length, ◌≡◌,
  refl, ap, sym, ◌∙◌, arith, ◌==◌, if◌then◌else◌, Bool-cases, inl, inr,
}
use voxray.Frames.{Text, downstream, transcription, llm_text, end_frame, cancel}
use voxray.Texts.{is_blank}
use voxray.Observers.Transcript.{
  Input, tts_speak, frame, Role, Message, user, assistant, TranscriptObserver,
  new_transcript_observer, save, flush_assistant, record_frame, on_transcript_frame,
}

unfoldable pub run : List Input → TranscriptObserver → TranscriptObserver × List Message
run [] o = (o, [])
run (f ∷ fs) o =
    let (p, saved) = on_transcript_frame downstream f o in
    let (q, more) = run fs p in (q, saved ++ more)

-- What is said in frames.
unfoldable pub final_text : Input → List Text
final_text (frame (transcription _ said finalized)) =
    if not finalized || is_blank said then [] else said ∷ []
final_text _ = []

unfoldable pub token : Input → Text
token (frame (llm_text said)) = said
token _ = []

unfoldable pub final_texts : List Input → List Text
final_texts [] = []
final_texts (f ∷ fs) = final_text f ++ final_texts fs

unfoldable pub tokens : List Input → Text
tokens [] = []
tokens (f ∷ fs) = token f ++ tokens fs

-- What is said in messages.
abbrev user_part : Role → Text → List Text
user_part user said = said ∷ []
user_part assistant said = []

abbrev assistant_part : Role → Text → Text
assistant_part user said = []
assistant_part assistant said = said

unfoldable pub user_texts : List Message → List Text
user_texts [] = []
user_texts (m ∷ ms) = user_part m.role m.said ++ user_texts ms

unfoldable pub assistant_text : List Message → Text
assistant_text [] = []
assistant_text (m ∷ ms) = assistant_part m.role m.said ++ assistant_text ms

-- The numbers of messages go up by one.
unfoldable pub numbered : ℕ → List Message → Bool
numbered n [] = true
numbered n (m ∷ ms) = (m.seq == n) && numbered (suc n) ms

user_texts-append : (ms ns : List Message) → user_texts (ms ++ ns) ≡ user_texts ms ++ user_texts ns
unfolding user_texts
user_texts-append [] ns = refl
user_texts-append (m ∷ ms) ns =
    let first = user_part m.role m.said in
    ap (λ t. first ++ t) (user_texts-append ms ns)
    ∙ sym (append_assoc first (user_texts ms) (user_texts ns))

assistant_text-append :
    (ms ns : List Message) → assistant_text (ms ++ ns) ≡ assistant_text ms ++ assistant_text ns
unfolding assistant_text
assistant_text-append [] ns = refl
assistant_text-append (m ∷ ms) ns =
    let first = assistant_part m.role m.said in
    ap (λ t. first ++ t) (assistant_text-append ms ns)
    ∙ sym (append_assoc first (assistant_text ms) (assistant_text ns))

-- What one frame comes to.
record IsTold (f : Input) (o p : TranscriptObserver) (ms : List Message) : Type 0 where
  pub users : user_texts ms ≡ final_text f
  pub tells : o.bot_buf ++ token f ≡ assistant_text ms ++ p.bot_buf
  pub counts : (ns : List Message) → numbered (suc o.seq) (ms ++ ns) ≡ numbered (suc p.seq) ns

same : (n : ℕ) → (n == n) ≡ true
same n = ground arith

unchanged-IsTold :
    (f : Input) (o : TranscriptObserver) → final_text f ≡ [] → token f ≡ [] → IsTold f o o []
unfolding user_texts assistant_text
unchanged-IsTold f o h k = record {
  users = sym h;
  tells = ap (λ t. o.bot_buf ++ t) k ∙ append-nil o.bot_buf;
  counts = λ ns. refl;
}

flush-IsTold :
    (f : Input) (o : TranscriptObserver)
    → final_text f ≡ []
    → token f ≡ []
    → IsTold f o (flush_assistant o).0 (flush_assistant o).1
unfolding flush_assistant save user_texts assistant_text numbered
flush-IsTold f o h k = elim (Bool-cases (length o.bot_buf == 0)) [
  | inl e ↦ rw e (unchanged-IsTold f o h k)
  | inr e ↦ rw e (record {
    users = sym h;
    tells = ap (λ t. o.bot_buf ++ t) k ∙ sym (append-nil (o.bot_buf ++ []));
    counts = λ ns. rw (same (suc o.seq)) refl;
  })
]

record_frame-IsTold :
    (f : Input) (o : TranscriptObserver) → IsTold f o (record_frame f o).0 (record_frame f o).1
unfolding record_frame final_text token user_texts assistant_text save numbered
record_frame-IsTold (frame (transcription user_id said finalized)) o =
    elim (Bool-cases (not finalized || is_blank said)) [
      | inl e ↦
          rw e (record { users = rw e refl; tells = append-nil o.bot_buf; counts = λ ns. refl })
      | inr e ↦ rw e (record {
        users = rw e refl;
        tells = append-nil o.bot_buf;
        counts = λ ns. rw (same (suc o.seq)) refl;
      })
    ]
record_frame-IsTold (frame (llm_text said)) o = record {
  users = refl;
  tells = refl;
  counts = λ ns. refl;
}
record_frame-IsTold tts_speak o = flush-IsTold tts_speak o refl refl
record_frame-IsTold (frame end_frame) o = flush-IsTold (frame end_frame) o refl refl
record_frame-IsTold (frame cancel) o = flush-IsTold (frame cancel) o refl refl
record_frame-IsTold (frame f) o = unchanged-IsTold (frame f) o refl refl

run_told :
    (fs : List Input) (o : TranscriptObserver)
    → (user_texts (run fs o).1 ≡ final_texts fs)
      × (o.bot_buf ++ tokens fs ≡ assistant_text (run fs o).1 ++ (run fs o).0.bot_buf)
      × (numbered (suc o.seq) (run fs o).1 ≡ true)
unfolding run user_texts assistant_text final_texts tokens numbered on_transcript_frame
run_told [] o = (refl, append-nil o.bot_buf, refl)
run_told (f ∷ fs) o =
    let p = (record_frame f o).0 in
    let saved = (record_frame f o).1 in
    let now = record_frame-IsTold f o in
    let (users, tells, counts) = run_told fs p in
    let more = (run fs p).1 in
    let buffered = (run fs p).0.bot_buf in
    (
      user_texts-append saved more
          ∙ ap (λ t. t ++ user_texts more) now.users
          ∙ ap (λ t. final_text f ++ t) users,
      sym (append_assoc o.bot_buf (token f) (tokens fs))
          ∙ ap (λ t. t ++ tokens fs) now.tells
          ∙ append_assoc (assistant_text saved) p.bot_buf (tokens fs)
          ∙ ap (λ t. assistant_text saved ++ t) tells
          ∙ sym (append_assoc (assistant_text saved) (assistant_text more) buffered)
          ∙ ap (λ t. t ++ buffered) (sym (assistant_text-append saved more)),
      now.counts more ∙ counts,
    )

-- Over any frames that go down from the start of a session, the messages of the user that are saved are
-- the finalized transcripts with a text, one each and in order; what the saved messages of the
-- assistant say, with what waits in the buffer, is the language model's text, nothing lost or doubled;
-- and the messages are numbered 1, 2, 3 and so on.
pub run-conversation :
    (fs : List Input)
    → (user_texts (run fs new_transcript_observer).1 ≡ final_texts fs)
      × (assistant_text (run fs new_transcript_observer).1
            ++ (run fs new_transcript_observer).0.bot_buf
          ≡ tokens fs)
      × (numbered 1 (run fs new_transcript_observer).1 ≡ true)
run-conversation fs =
    let (users, tells, counts) = run_told fs new_transcript_observer in (users, sym tells, counts)

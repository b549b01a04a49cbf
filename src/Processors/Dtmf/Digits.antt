-- ===== src/Processors/Dtmf/Digits.antt =====
-- The DTMF aggregator neither loses, repeats nor reorders keys, and announces each group once.
use voxray.Base.{
  ℕ, Bool, true, false, List, [], ◌∷◌, ◌++◌, ◌≡◌, refl, sym, ap, ◌∙◌, length, drop,
  drop-append_length, if◌then◌else◌, append-nil, append_assoc, ◌==◌, Bool-cases, inl, inr, subst,
}
use voxray.Frames.{
  Text, Content, Direction, downstream, upstream, Out, down, up, start, end_frame, cancel,
  interruption, transcription, input_dtmf,
}
use voxray.Processors.Dtmf.{Dtmf, flush, handle_dtmf, end_with, process_frame, on_timeout, is_empty}

pub data Event : Type 0 where
  frame : Direction → Content → Event
  timeout : Event

-- The key that an event brings.
key_of : Direction → Content → Text
key_of downstream (input_dtmf d) = d ∷ []
key_of downstream _ = []
key_of upstream f = []

pub keys : List Event → Text
keys [] = []
keys (timeout ∷ es) = keys es
keys (frame dir f ∷ es) = key_of dir f ++ keys es

-- The keys in the transcriptions among the outputs, each behind the prefix.
spelled_in : Text → Content → Text
spelled_in prefix (transcription _ t _) = drop (length prefix) t
spelled_in prefix _ = []

spelled_out : Text → Out → Text
spelled_out prefix (down f) = spelled_in prefix f
spelled_out prefix (up f) = []

pub spelled : Text → List Out → Text
spelled prefix [] = []
spelled prefix (o ∷ os) = spelled_out prefix o ++ spelled prefix os

-- No transcription comes from elsewhere.
abbrev IsKeypad : Content → Type 0
IsKeypad (transcription _ _ _) = ⊥
IsKeypad end_frame = Unit
IsKeypad _ = Unit

abbrev pub OnlyKeypad : List Event → Type 0
OnlyKeypad [] = Unit
OnlyKeypad (timeout ∷ es) = OnlyKeypad es
OnlyKeypad (frame dir f ∷ es) = IsKeypad f × OnlyKeypad es

spelled-append :
    (prefix : Text) (os ps : List Out)
    → spelled prefix (os ++ ps) ≡ spelled prefix os ++ spelled prefix ps
unfolding spelled
spelled-append prefix [] ps = refl
spelled-append prefix (o ∷ os) ps = rw (spelled-append prefix os ps, append_assoc)

emitted :
    (prefix b : Text)
    → spelled prefix (if is_empty b then [] else down (transcription "" (prefix ++ b) true) ∷ [])
      ≡ b
unfolding spelled spelled_out spelled_in is_empty
emitted prefix [] = refl
emitted prefix (d ∷ ds) = append-nil _ ∙ drop-append_length prefix (d ∷ ds)

spelled-flush : (p : Dtmf) → spelled p.prefix (flush p).1 ≡ p.buf
unfolding flush
spelled-flush p = emitted p.prefix p.buf

alert_silent :
    (prefix : Text) (b : Bool) → spelled prefix (if b then down interruption ∷ [] else []) ≡ []
unfolding spelled spelled_out spelled_in
alert_silent prefix true = refl
alert_silent prefix false = refl

-- What a step keeps: the keys spelled out and gathered, and the prefix.
abbrev Keeps : Text → Dtmf → Dtmf × List Out → Type 0
Keeps brought p r = (spelled p.prefix r.1 ++ r.0.buf ≡ p.buf ++ brought) × (r.0.prefix ≡ p.prefix)

key_gathered : (d : ℕ) (p : Dtmf) → Keeps (d ∷ []) p (handle_dtmf d p)
unfolding handle_dtmf
key_gathered d p = elim (Bool-cases (d == p.termination_digit)) [
  | inl e ↦ rw e (
      unfold flush in
      (append-nil _ ∙ rw (spelled-append, alert_silent) (emitted p.prefix (p.buf ++ d ∷ [])), refl))
  | inr e ↦ rw e (rw alert_silent refl, refl)
]

spelled_one : (prefix : Text) (f : Content) → spelled prefix (down f ∷ []) ≡ spelled_in prefix f
unfolding spelled spelled_out
spelled_one prefix f = append-nil _

end-Keeps : (f : Content) (p : Dtmf) → spelled_in p.prefix f ≡ [] → Keeps [] p (end_with f p)
unfolding end_with
end-Keeps f p h = (
  rw (spelled-append, spelled-flush, spelled_one, h) (unfold flush in append_assoc p.buf [] []),
  unfold flush in refl,
)

timeout-Keeps : (p : Dtmf) → Keeps [] p (on_timeout p)
unfolding on_timeout
timeout-Keeps p = elim (Bool-cases p.timer) [
  | inl e ↦ simp e (rw spelled-flush (unfold flush in refl), unfold flush in refl)
  | inr e ↦ simp e (unfold spelled in sym (append-nil p.buf), refl)
]

module _ (fails : Content → Bool) (accepts : (d : ℕ) → fails (input_dtmf d) ≡ false) where
  pub step : Event → Dtmf → Dtmf × List Out
  step timeout p = on_timeout p
  step (frame dir f) p = process_frame fails dir f p

  pub run : List Event → Dtmf → Dtmf × List Out
  run [] p = (p, [])
  run (e ∷ es) p = let (q, outs) = step e p in let (r, more) = run es q in (r, outs ++ more)

  step-Keeps :
      (dir : Direction) (f : Content) (p : Dtmf)
      → IsKeypad f
      → Keeps (key_of dir f) p (process_frame fails dir f p)
  unfolding process_frame key_of spelled spelled_out spelled_in
  step-Keeps upstream f p k = (sym (append-nil p.buf), refl)
  step-Keeps downstream (input_dtmf d) p k = rw (accepts d) (key_gathered d p)
  step-Keeps downstream end_frame p k = end-Keeps end_frame p refl
  step-Keeps downstream cancel p k = end-Keeps cancel p refl
  step-Keeps downstream (start a) p k = (sym (append-nil p.buf), refl)
  step-Keeps downstream (transcription u t b) p k = absurd k
  step-Keeps downstream _ p k = (sym (append-nil p.buf), refl)

  event-Keeps : (e : Event) (p : Dtmf) → OnlyKeypad (e ∷ []) → Keeps (keys (e ∷ [])) p (step e p)
  unfolding step keys
  event-Keeps timeout p k = timeout-Keeps p
  event-Keeps (frame dir f) p k = rw append-nil (step-Keeps dir f p k.0)

  split_keypad :
      (e : Event) (es : List Event) → OnlyKeypad (e ∷ es) → OnlyKeypad (e ∷ []) × OnlyKeypad es
  split_keypad timeout es k = (tt, k)
  split_keypad (frame dir f) es k = ((k.0, tt), k.1)

  keys_cons : (e : Event) (es : List Event) → keys (e ∷ es) ≡ keys (e ∷ []) ++ keys es
  unfolding keys
  keys_cons timeout es = refl
  keys_cons (frame dir f) es = rw append-nil

  -- If keys alone bring text and the next processor accepts them, then over every history of frames
  -- and timeouts the keys in the transcriptions sent, in their order, followed by the keys still
  -- gathered, are those gathered at first followed by those received downstream.
  pub keys_kept :
      (es : List Event) (p : Dtmf)
      → OnlyKeypad es
      → spelled p.prefix (run es p).1 ++ (run es p).0.buf ≡ p.buf ++ keys es
  unfolding run
  keys_kept [] p k = unfold spelled keys in sym (append-nil p.buf)
  keys_kept (e ∷ es) p k =
      let parts = split_keypad e es k in
      let r = step e p in
      let here = event-Keeps e p parts.0 in
      let rest = run es r.0 in
      let later =
        subst (λ t. spelled t rest.1 ++ rest.0.buf ≡ r.0.buf ++ keys es) here.1
          (keys_kept es r.0 parts.1) in
      ap (λ l. l ++ rest.0.buf) (spelled-append p.prefix r.1 rest.1)
      ∙ append_assoc (spelled p.prefix r.1) (spelled p.prefix rest.1) rest.0.buf
      ∙ ap (λ l. spelled p.prefix r.1 ++ l) later
      ∙ sym (append_assoc (spelled p.prefix r.1) r.0.buf (keys es))
      ∙ ap (λ l. l ++ keys es) here.0
      ∙ append_assoc p.buf (keys (e ∷ [])) (keys es)
      ∙ ap (λ l. p.buf ++ l) (sym (keys_cons e es))

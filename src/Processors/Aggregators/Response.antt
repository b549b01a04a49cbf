-- ===== src/Processors/Aggregators/Response.antt =====
-- pkg/processors/aggregators/llmfullresponse/llmfullresponse.go. Every frame is forwarded: what a call
-- does besides are the completions that it reports, each a text and whether the response was complete.
use voxray.Base.{
  Bool, true, false, List, [], ◌∷◌, ◌++◌, ◌≡◌, refl, arith, append-nil, append_assoc, if◌then◌else◌,
}
use voxray.Frames.{
  Text, Content, interruption, llm_text, llm_full_response_start, llm_full_response_end,
}
use voxray.Processors.Aggregators.LlmText.Tokens.{tokens, joined}

pub record FullResponse : Type 0 where
  pub started : Bool
  pub buf : Text

abbrev pub new_full_response : FullResponse
new_full_response = record { started = false; buf = [] }

abbrev pub Completion : Type 0
Completion = Text × Bool

unfoldable pub process_frame : Content → FullResponse → FullResponse × List Completion
process_frame interruption p = (record { started = false; buf = [] }, (p.buf, false) ∷ [])
process_frame llm_full_response_start p = (record p { started = true }, [])
process_frame llm_full_response_end p = (record { started = false; buf = [] }, (p.buf, true) ∷ [])
process_frame (llm_text t) p = (if p.started then record p { buf = p.buf ++ t } else p, [])
process_frame f p = (p, [])

unfoldable pub run : List Content → FullResponse → FullResponse × List Completion
run [] p = (p, [])
run (f ∷ fs) p =
    let (q, reports) = process_frame f p in let (r, more) = run fs q in (r, reports ++ more)

-- What is gathered belongs to a response that has started.
abbrev pub IsTidy : FullResponse → Type 0
IsTidy p = (p.started ≡ false) → p.buf ≡ []

process_frame-IsTidy : (f : Content) (p : FullResponse) → IsTidy p → IsTidy (process_frame f p).0
unfolding process_frame
process_frame-IsTidy interruption p h = λ e. refl
process_frame-IsTidy llm_full_response_start p h = λ e. cc
process_frame-IsTidy llm_full_response_end p h = λ e. refl
process_frame-IsTidy (llm_text t) p h = ground arith
process_frame-IsTidy _ p h = h

run-IsTidy : (fs : List Content) (p : FullResponse) → IsTidy p → IsTidy (run fs p).0
unfolding run
run-IsTidy [] p h = h
run-IsTidy (f ∷ fs) p h = run-IsTidy fs (process_frame f p).0 (process_frame-IsTidy f p h)

run-append :
    (fs gs : List Content) (p : FullResponse)
    → let r = run fs p in let q = run gs r.0 in run (fs ++ gs) p ≡ (q.0, r.1 ++ q.1)
unfolding run
run-append [] gs p = refl
run-append (f ∷ fs) gs p =
    let (q, reports) = process_frame f p in
    rw (run-append fs gs q, append_assoc reports (run fs q).1 (run gs (run fs q).0).1) refl

-- Texts outside a response change nothing.
unheard : (ts : List Text) → run (tokens ts) new_full_response ≡ (new_full_response, [])
unfolding run process_frame tokens
unheard [] = refl
unheard (t ∷ ts) = rw (unheard ts) refl

gathered :
    (ts : List Text) (buf : Text)
    → run (tokens ts) record { started = true; buf = buf }
      ≡ (record { started = true; buf = buf ++ joined ts }, [])
unfolding run process_frame tokens joined
gathered [] buf = rw append-nil refl
gathered (t ∷ ts) buf = rw (gathered ts (buf ++ t), append_assoc buf t (joined ts)) refl

-- The frame that completes a response, and the one that breaks it off.
unfoldable pub boundary : Bool → Content
boundary true = llm_full_response_end
boundary false = interruption

boundary_reported :
    (completed : Bool) (buf : Text)
    → (run (boundary completed ∷ []) record { started = true; buf = buf }).1 ≡ (buf, completed) ∷ []
unfolding run process_frame boundary
boundary_reported true buf = refl
boundary_reported false buf = refl

reports_once :
    (ts : List Text) (completed : Bool)
    → (run (llm_full_response_start ∷ (tokens ts ++ boundary completed ∷ [])) new_full_response).1
      ≡ (joined ts, completed) ∷ []
unfolding run process_frame
reports_once ts completed =
    rw
      (
        run-append (tokens ts) (boundary completed ∷ []) (record { started = true; buf = [] }),
        gathered ts [],
      )
      (boundary_reported completed (joined ts))

-- After any history that leaves no response open, a response of any texts is reported once, as its
-- texts put together and as complete or broken off, and texts before its start are not reported.
pub response_reported :
    (fs : List Content) (before ts : List Text) (completed : Bool)
    → (run fs new_full_response).0.started ≡ false
    → (run
        (tokens before ++ llm_full_response_start ∷ (tokens ts ++ boundary completed ∷ []))
        (run fs new_full_response).0).1
      ≡ (joined ts, completed) ∷ []
response_reported fs before ts completed e =
    let p = (run fs new_full_response).0 in
    let emptied : p.buf ≡ [] = run-IsTidy fs new_full_response (λ _. refl) e in
    let idle : p ≡ new_full_response = ground (arith, emptied) in
    rw (idle, run-append (tokens before) _ new_full_response, unheard before)
      (reports_once ts completed)

-- ===== src/Processors/Voice/Llm.antt =====
-- pkg/processors/voice/llm.go: LLMProcessor. A message is a value of any type with the messages that the
-- processor itself makes; the service answers with the texts that it streams and whether it then
-- fails. The frames come one after the other. Each call of OnContextUpdate is a goroutine of its own: a
-- step lists those that it starts, and a session makes them in any order.
pub mod Context
use voxray.Base.{
  ℕ, Bool, true, false, not, ◌&&◌, ◌||◌, Option, none, some, List, [], ◌∷◌, ◌++◌, map,
  if◌then◌else◌,
}
use voxray.Frames.{Text, Content, Direction, downstream, upstream, llm_text}
use voxray.Base.Calls.{call_at, without_call}
use voxray.Texts.{is_blank}

pub data Role : Type 0 where
  system user assistant : Role

-- TranscriptionFrame with its text, LLMRunFrame, LLMMessagesUpdateFrame with its messages and whether
-- RunLLM is set and true, and every other frame
pub data Input (M : Type 0) : Type 0 where
  transcript : Text → Input M
  llm_run : Input M
  messages_update : List M → Bool → Input M
  frame : Content → Input M

-- What is pushed: a frame that came, a text, or the TTSSpeakFrame without a text that flushes speech.
pub data Pushed (M : Type 0) : Type 0 where
  forwarded back : Input M → Pushed M
  streamed : Text → Pushed M
  flush_speech : Pushed M

pub record Llm (M : Type 0) : Type 0 where
  pub system_prompt : Text
  pub has_listener : Bool  -- OnContextUpdate is set
  pub msgs : List M

pub record Answer : Type 0 where
  pub texts : List Text
  pub fails : Bool

-- A step: the state, the messages sent to the service, the calls of OnContextUpdate, what is pushed.
pub record Replied (M : Type 0) : Type 0 where
  pub state : Llm M
  pub sent : Option (List M)
  pub notified : List (List M)
  pub pushed : List (Pushed M)

unfoldable pub full_content : List Text → Text
full_content [] = []
full_content (t ∷ ts) = t ++ full_content ts

module _ {M : Type 0} where
  -- NewLLMProcessorWithSystemPrompt
  abbrev pub new_llm : Text → Llm M
  new_llm prompt = record { system_prompt = prompt; has_listener = false; msgs = [] }

  unfoldable pub notify : Llm M → List (List M)
  notify p = if p.has_listener then p.msgs ∷ [] else []

  abbrev pub set_messages : List M → Llm M → Llm M
  set_messages ms p = record p { msgs = ms }

  -- A step that changes the context and pushes.
  unfoldable pub changed : Llm M → List (Pushed M) → Replied M
  changed p pushed = record { state = p; sent = none; notified = notify p; pushed = pushed }

  abbrev pub passed : Llm M → Pushed M → Replied M
  passed p f = record { state = p; sent = none; notified = []; pushed = f ∷ [] }

module _ {M : Type 0} (said : Role → Text → M) where
  unfoldable pub to_send : Bool → Llm M → List M
  to_send skip p =
      (if not skip && not (is_blank p.system_prompt) then said system p.system_prompt ∷ [] else [])
      ++ p.msgs

  -- runLLMWithMessages, on the context of the processor
  unfoldable pub run_llm : Answer → Bool → Llm M → Replied M
  run_llm answer skip p =
      let content = full_content answer.texts in
      let texts = map streamed answer.texts in
      let q = set_messages (p.msgs ++ said assistant content ∷ []) p in
      if answer.fails || is_blank content
      then record { state = p; sent = some (to_send skip p); notified = []; pushed = texts }
      else record {
        state = q;
        sent = some (to_send skip p);
        notified = notify q;
        pushed = texts ++ flush_speech ∷ [];
      }

  -- A change of the context is notified before the service is run.
  unfoldable pub then_run : Answer → Bool → Llm M → Replied M
  then_run answer skip p =
      let r = run_llm answer skip p in record r { notified = notify p ++ r.notified }

  unfoldable pub update_messages : Answer → List M → Bool → Llm M → Replied M
  update_messages answer ms run p =
      let q = set_messages ms p in
      if run then then_run answer true q else changed q (forwarded (messages_update ms run) ∷ [])

  unfoldable pub process_frame : Answer → Input M → Direction → Llm M → Replied M
  process_frame answer (messages_update ms run) dir p = update_messages answer ms run p
  process_frame answer (transcript t) downstream p =
      then_run answer false (set_messages (p.msgs ++ said user t ∷ []) p)
  process_frame answer llm_run downstream p = run_llm answer false p
  process_frame answer (frame f) downstream p = passed p (forwarded (frame f))
  process_frame answer f upstream p = passed p (back f)

-- A processor with the calls of OnContextUpdate that have been started, and those that have been made.
pub record Session (M : Type 0) : Type 0 where
  pub llm : Llm M
  pub waiting : List (List M)
  pub told : List (List M)

abbrev pub new_session : {M : Type 0} → Llm M → Session M
new_session p = record { llm = p; waiting = []; told = [] }

-- A frame comes and is answered, or the call at a place is made.
pub data Event (M : Type 0) : Type 0 where
  comes : Input M → Direction → Answer → Event M
  call_back : ℕ → Event M

unfoldable pub call_listener : {M : Type 0} → ℕ → Option (List M) → Session M → Session M
call_listener n none s = s
call_listener n (some ms) s = record s {
  waiting = without_call n s.waiting;
  told = s.told ++ ms ∷ [];
}

module _ {M : Type 0} (said : Role → Text → M) where
  unfoldable pub handle : Event M → Session M → Session M
  handle (comes f dir answer) s =
      let r = process_frame said answer f dir s.llm in
      record s { llm = r.state; waiting = s.waiting ++ r.notified }
  handle (call_back n) s = call_listener n (call_at n s.waiting) s

  unfoldable pub run_session : List (Event M) → Session M → Session M
  run_session [] s = s
  run_session (e ∷ es) s = run_session es (handle e s)

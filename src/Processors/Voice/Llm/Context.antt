-- ===== src/Processors/Voice/Llm/Context.antt =====
-- The contexts that the listener is told, and what the service is asked.
use mathlib.Core.List.{Perm}
use mathlib.Core.List.Perm
use voxray.Base.Calls.{call_at, Perm-call_at}
use voxray.Base.{
  ℕ, Option, none, some, sym, append-nil, append_assoc, Bool, true, false, ◌||◌, List, [], ◌∷◌,
  ◌++◌, ◌≡◌, refl, ap, ◌∙◌, inl, inr, Bool-cases,
}
use voxray.Frames.{Text, Direction, downstream, upstream}
use voxray.Texts.{is_blank}
use voxray.Processors.Voice.Llm.{
  Role, user, Input, transcript, llm_run, messages_update, frame, Llm, Answer, Replied,
  full_content, notify, set_messages, changed, run_llm, then_run, update_messages, process_frame,
  Session, new_session, Event, comes, call_back, call_listener, handle, run_session,
}

-- A frame, which way it goes, and how the service answers on it.
pub record Turn (M : Type 0) : Type 0 where
  pub input : Input M
  pub direction : Direction
  pub answer : Answer

module _ {M : Type 0} (said : Role → Text → M) where
  -- The state after a history, and the calls of the listener.
  unfoldable pub run : List (Turn M) → Llm M → Llm M × List (List M)
  run [] p = (p, [])
  run (t ∷ ts) p =
      let r = process_frame said t.answer t.input t.direction p in
      let (q, calls) = run ts r.state in (q, r.notified ++ calls)

  -- The context as a listener sees it that keeps what it was told last.
  unfoldable pub view : List M → List (List M) → List M
  view ms [] = ms
  view ms (told ∷ more) = view told more

  view-append : (ms : List M) (xs ys : List (List M)) → view ms (xs ++ ys) ≡ view (view ms xs) ys
  unfolding view
  view-append ms [] ys = refl
  view-append ms (x ∷ xs) ys = view-append x xs ys

  -- What a step tells is the context that it leaves.
  abbrev Tells : Llm M → Replied M → Type 0
  Tells p r = (view p.msgs r.notified ≡ r.state.msgs) × (r.state.has_listener ≡ p.has_listener)

  notify_on : (p : Llm M) → p.has_listener ≡ true → notify p ≡ p.msgs ∷ []
  unfolding notify
  notify_on p on = rw on refl

  run_llm-Tells :
      (answer : Answer) (skip : Bool) (p : Llm M)
      → p.has_listener ≡ true
      → Tells p (run_llm said answer skip p)
  unfolding run_llm notify view
  run_llm-Tells answer skip p on =
      elim (Bool-cases (answer.fails || is_blank (full_content answer.texts))) [
        | inl nothing ↦ rw nothing (refl, refl)
        | inr said' ↦ rw (said', on) (refl, refl)
      ]

  then_run-Tells :
      (answer : Answer) (skip : Bool) (ms : List M) (p : Llm M)
      → p.has_listener ≡ true
      → Tells p (then_run said answer skip (set_messages ms p))
  unfolding then_run view
  then_run-Tells answer skip ms p on =
      let (told, same) = run_llm-Tells answer skip (set_messages ms p) on in
      let more = (run_llm said answer skip (set_messages ms p)).notified in
      (ap (λ t. view p.msgs (t ++ more)) (notify_on (set_messages ms p) on) ∙ told, same)

  process_frame-Tells :
      (answer : Answer) (f : Input M) (dir : Direction) (p : Llm M)
      → p.has_listener ≡ true
      → Tells p (process_frame said answer f dir p)
  unfolding process_frame update_messages changed notify view
  process_frame-Tells answer (messages_update ms runs) dir p on = elim (Bool-cases runs) [
    | inl asked ↦ rw asked (then_run-Tells answer true ms p on)
    | inr waits ↦ rw (waits, on) (refl, refl)
  ]
  process_frame-Tells answer (transcript t) downstream p on =
      then_run-Tells answer false (p.msgs ++ said user t ∷ []) p on
  process_frame-Tells answer llm_run downstream p on = run_llm-Tells answer false p on
  process_frame-Tells answer (frame f) downstream p on = (refl, refl)
  process_frame-Tells answer (transcript t) upstream p on = (refl, refl)
  process_frame-Tells answer llm_run upstream p on = (refl, refl)
  process_frame-Tells answer (frame f) upstream p on = (refl, refl)

  -- The last call that is started has the context that the processor has.
  run-view :
      (ts : List (Turn M)) (p : Llm M)
      → p.has_listener ≡ true
      → view p.msgs (run ts p).1 ≡ (run ts p).0.msgs
  unfolding run view
  run-view [] p on = refl
  run-view (t ∷ ts) p on =
      let r = process_frame said t.answer t.input t.direction p in
      let (told, same) = process_frame-Tells t.answer t.input t.direction p on in
      view-append p.msgs r.notified (run ts r.state).1
      ∙ ap (λ ms. view ms (run ts r.state).1) told
      ∙ run-view ts r.state (same ∙ on)

  -- The frames of a session, and the calls that they start, in the order in which they start them.
  unfoldable pub frames_of : List (Event M) → List (Turn M)
  frames_of [] = []
  frames_of (comes f dir answer ∷ es) =
      record { input = f; direction = dir; answer = answer } ∷ frames_of es
  frames_of (call_back n ∷ es) = frames_of es

  abbrev pub started : List (Event M) → Llm M → List (List M)
  started es p = (run (frames_of es) p).1

  call_listener-Perm :
      (n : ℕ) (out : Option (List M)) (s : Session M)
      → call_at n s.waiting ≡ out
      → let t = call_listener n out s in
        (t.llm ≡ s.llm) × Perm (t.told ++ t.waiting) (s.told ++ s.waiting)
  unfolding call_listener
  call_listener-Perm n none s h = (refl, Perm.refl (s.told ++ s.waiting))
  call_listener-Perm n (some ms) s h = (refl, Perm-call_at n ms s.told s.waiting h)

  run_session_calls :
      (es : List (Event M)) (s : Session M)
      → let t = run_session said es s in
        (t.llm ≡ (run (frames_of es) s.llm).0)
        × Perm (t.told ++ t.waiting) ((s.told ++ s.waiting) ++ started es s.llm)
  unfolding run_session run frames_of handle
  run_session_calls [] s =
      (refl, rw (append-nil (s.told ++ s.waiting)) (Perm.refl (s.told ++ s.waiting)))
  run_session_calls (comes f dir answer ∷ es) s =
      let r = process_frame said answer f dir s.llm in
      let (same, later) =
        run_session_calls es (record s { llm = r.state; waiting = s.waiting ++ r.notified }) in
      (
        same,
        rw
            (
              ← append_assoc (s.told ++ s.waiting) r.notified (started es r.state),
              append_assoc s.told s.waiting r.notified,
            )
            later,
      )
  run_session_calls (call_back n ∷ es) s =
      let t = call_listener n (call_at n s.waiting) s in
      let (kept, moved) = call_listener-Perm n (call_at n s.waiting) s refl in
      let (same, later) = run_session_calls es t in
      (
        same ∙ ap (λ p. (run (frames_of es) p).0) kept,
        Perm.trans later (rw (ap (started es) kept) (Perm.append_right (started es s.llm) moved)),
      )

  -- With a listener, over any history of transcripts, runs, replaced contexts and other frames in both
  -- directions, whatever the service streams and wherever it fails, and in whatever order the calls of
  -- OnContextUpdate are made: those made and those still waiting are exactly the calls started, each
  -- once, and the one that was started last, if any, has the context that the processor has at the
  -- end; without one the context is the first.
  pub run_session-started :
      (es : List (Event M)) (p : Llm M)
      → p.has_listener ≡ true
      → let last = run_session said es (new_session p) in
        Perm (last.told ++ last.waiting) (started es p)
        × (view p.msgs (started es p) ≡ last.llm.msgs)
  run_session-started es p on =
      let (same, calls) = run_session_calls es (new_session p) in
      (calls, run-view (frames_of es) p on ∙ ap (λ q. q.msgs) (sym same))

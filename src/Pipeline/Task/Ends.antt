-- ===== src/Pipeline/Task/Ends.antt =====
-- When a task ends, and what waits then.
use voxray.Base.{
  ℕ, Bool, true, false, not, ◌&&◌, ◌||◌, Option, none, some, List, [], ◌∷◌, ◌≡◌, refl, ap, ◌∙◌, inl,
  inr, arith, Bool-cases,
}
use voxray.Frames.{Content}
use voxray.Pipeline.Task.{
  PipelineTask, started_task, Step, queue_frame, give_up, send, receive, drain_end, cancel_context,
  close_queue, return, Outcome, going, panicked, sender_at, without, push_received, meet_closed,
  task_step, next_outcome, run_steps,
}

unfoldable pub is_cancel : Step → Bool
is_cancel cancel_context = true
is_cancel _ = false

unfoldable pub cancels : List Step → Bool
cancels [] = false
cancels (s ∷ ss) = is_cancel s || cancels ss

-- The queue is open, the context not cancelled, and Run has not returned.
unfoldable pub is_going : Outcome → Bool
is_going (going t) = not t.cancelled && not t.closed && not t.finished
is_going panicked = false

push_received-is_going :
    (n : ℕ) (f : Option Content) (t : PipelineTask)
    → is_going (going (push_received n f t)) ≡ is_going (going t)
unfolding is_going push_received
push_received-is_going n none t = refl
push_received-is_going n (some f) t = refl

task_step-is_going :
    (s : Step) (o : Outcome)
    → is_going o ≡ true
    → is_cancel s ≡ false
    → is_going (next_outcome s o) ≡ true
unfolding is_going is_cancel next_outcome task_step push_received meet_closed
task_step-is_going s panicked h k = absurd (ground arith)
task_step-is_going (queue_frame f) (going t) h k = ground arith
task_step-is_going (give_up n) (going t) h k = ground arith
task_step-is_going (send n) (going t) h k = ground arith
task_step-is_going (receive n) (going t) h k = elim (Bool-cases (t.draining && not t.closed)) [
  | inl e ↦ rw e (push_received-is_going n (sender_at n t.waiting) t ∙ h)
  | inr e ↦ rw e h
]
task_step-is_going drain_end (going t) h k = ground arith
task_step-is_going cancel_context (going t) h k = ground arith
task_step-is_going close_queue (going t) h k = ground arith
task_step-is_going return (going t) h k = ground arith

run_steps-is_going :
    (ss : List Step) (o : Outcome)
    → is_going o ≡ true
    → cancels ss ≡ false
    → is_going (run_steps ss o) ≡ true
unfolding run_steps cancels
run_steps-is_going [] o h k = h
run_steps-is_going (s ∷ ss) o h k =
    let kept : is_cancel s ≡ false = ground arith in
    let later : cancels ss ≡ false = ground arith in
    run_steps-is_going ss (next_outcome s o) (task_step-is_going s o h kept) later

-- Whatever happens to a task that has been started, StopWhenDone and frames that end the drain
-- included: as long as nobody cancels the context of Run, the queue stays open, nothing panics, and
-- Run does not return.
pub run_goes_on :
    (ss : List Step) → cancels ss ≡ false → is_going (run_steps ss (going started_task)) ≡ true
unfolding is_going
run_goes_on ss h = run_steps-is_going ss (going started_task) refl h

unfoldable pub panics : Outcome → Bool
panics panicked = true
panics (going t) = false

unfoldable pub has_sender : List Content → Bool
has_sender [] = false
has_sender (f ∷ fs) = true

-- The queue is closed, and nobody waits at it.
unfoldable is_shut : Outcome → Bool
is_shut (going t) = t.closed && not t.has_queue && not (has_sender t.waiting)
is_shut panicked = false

-- The same of the list of senders.
no_sender :
    (n : ℕ) (fs : List Content)
    → has_sender fs ≡ false
    → (sender_at n fs ≡ none) × (has_sender (without n fs) ≡ false)
unfolding has_sender sender_at without
no_sender n [] h = (refl, refl)
no_sender n (f ∷ fs) h = absurd (ground arith)

task_step-is_shut : (s : Step) (o : Outcome) → is_shut o ≡ true → is_shut (next_outcome s o) ≡ true
unfolding is_shut next_outcome task_step meet_closed
task_step-is_shut s panicked h = h
task_step-is_shut (queue_frame f) (going t) h = ground arith
task_step-is_shut (give_up n) (going t) h =
    let alone : has_sender t.waiting ≡ false = ground arith in
    let left = (no_sender n t.waiting alone).1 in ground arith
task_step-is_shut (send n) (going t) h =
    let alone : has_sender t.waiting ≡ false = ground arith in
    rw (no_sender n t.waiting alone).0 (ground arith)
task_step-is_shut (receive n) (going t) h =
    let closed : t.closed ≡ true = ground arith in
    let idle : (t.draining && not t.closed) ≡ false = ground arith in rw idle h
task_step-is_shut drain_end (going t) h = ground arith
task_step-is_shut cancel_context (going t) h = ground arith
task_step-is_shut close_queue (going t) h = ground arith
task_step-is_shut return (going t) h = ground arith

run_steps-is_shut :
    (ss : List Step) (o : Outcome) → is_shut o ≡ true → panics (run_steps ss o) ≡ false
unfolding run_steps panics is_shut
run_steps-is_shut [] (going t) h = refl
run_steps-is_shut [] panicked h = absurd (ground arith)
run_steps-is_shut (s ∷ ss) o h = run_steps-is_shut ss (next_outcome s o) (task_step-is_shut s o h)

run_steps-panicked : (ss : List Step) → panics (run_steps ss panicked) ≡ true
unfolding run_steps panics next_outcome
run_steps-panicked [] = refl
run_steps-panicked (s ∷ ss) = run_steps-panicked ss

-- The task after Run has closed its queue.
abbrev shut_task : PipelineTask → PipelineTask
shut_task t = record t { has_queue = false; closed = true }

closes :
    (t : PipelineTask)
    → t.cancelled ≡ true
    → t.has_queue ≡ true
    → next_outcome close_queue (going t) ≡ going (shut_task t)
unfolding next_outcome task_step
closes t h k = ground arith

met :
    (ss : List Step) (t : PipelineTask) (fs : List Content)
    → t.waiting ≡ fs
    → panics (run_steps ss (next_outcome (send 0) (going (shut_task t)))) ≡ has_sender fs
unfolding next_outcome task_step sender_at meet_closed has_sender is_shut
met ss t [] e =
    ap (λ gs. panics (run_steps ss (meet_closed (sender_at 0 gs) (shut_task t)))) e
    ∙ run_steps-is_shut ss (going (shut_task t)) (ap (λ gs. not (has_sender gs)) e)
met ss t (f ∷ fs) e = rw e (run_steps-panicked ss)

-- If the context of Run is cancelled while its queue is there, and Run closes the queue before the
-- first sender that waits goes on, then whatever happens afterwards, the process panics exactly if a
-- sender waits at the queue.
pub panics-has_sender :
    (ss : List Step) (t : PipelineTask)
    → t.cancelled ≡ true
    → t.has_queue ≡ true
    → panics (run_steps (close_queue ∷ send 0 ∷ ss) (going t)) ≡ has_sender t.waiting
unfolding run_steps
panics-has_sender ss t h k =
    ap (λ o. panics (run_steps ss (next_outcome (send 0) o))) (closes t h k)
    ∙ met ss t t.waiting refl

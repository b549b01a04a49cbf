-- ===== src/Pipeline/Task/Last.antt =====
-- The last frame of a task.
use voxray.Base.{
  ℕ, Bool, true, false, not, ◌&&◌, ◌||◌, Option, none, some, List, [], ◌∷◌, ◌++◌, ◌≡◌, refl, inl,
  inr, arith, Bool-cases, if◌then◌else◌,
}
use voxray.Frames.{Content}
use voxray.Pipeline.Task.{
  PipelineTask, started_task, Step, queue_frame, give_up, send, receive, drain_end, cancel_context,
  close_queue, return, Outcome, going, panicked, sender_at, ends_drain, push_received, meet_closed,
  task_step, next_outcome, run_steps,
}

-- No frame ends the drain.
unfoldable pub all_go_on : List Content → Bool
all_go_on [] = true
all_go_on (f ∷ fs) = not (ends_drain f) && all_go_on fs

-- No frame but the last does.
unfoldable pub ends_last : List Content → Bool
ends_last [] = true
ends_last (f ∷ []) = true
ends_last (f ∷ g ∷ fs) = not (ends_drain f) && ends_last (g ∷ fs)

all_go_on-append :
    (fs : List Content) (f : Content)
    → all_go_on fs ≡ true
    → all_go_on (fs ++ f ∷ []) ≡ not (ends_drain f)
unfolding all_go_on
all_go_on-append [] f h = ground arith
all_go_on-append (g ∷ fs) f h =
    let first : not (ends_drain g) ≡ true = ground arith in
    let rest : all_go_on fs ≡ true = ground arith in rw (first, all_go_on-append fs f rest) refl

ends_last-append :
    (fs : List Content) (f : Content) → all_go_on fs ≡ true → ends_last (fs ++ f ∷ []) ≡ true
unfolding all_go_on ends_last
ends_last-append [] f h = refl
ends_last-append (g ∷ []) f h =
    let first : not (ends_drain g) ≡ true = ground arith in rw first refl
ends_last-append (g ∷ k ∷ fs) f h =
    let first : not (ends_drain g) ≡ true = ground arith in
    let rest : all_go_on (k ∷ fs) ≡ true = ground arith in
    rw (first, ends_last-append (k ∷ fs) f rest) refl

unfoldable is_ordered : Outcome → Bool
is_ordered (going t) = ends_last t.pushed && (not t.draining || all_go_on t.pushed)
is_ordered panicked = true

push_received-is_ordered :
    (n : ℕ) (f : Option Content) (t : PipelineTask)
    → t.draining ≡ true
    → is_ordered (going t) ≡ true
    → is_ordered (going (push_received n f t)) ≡ true
unfolding is_ordered push_received
push_received-is_ordered n none t h k = k
push_received-is_ordered n (some f) t h k =
    let before : all_go_on t.pushed ≡ true = ground arith in
    let last = ends_last-append t.pushed f before in
    let after = all_go_on-append t.pushed f before in
    elim (Bool-cases (ends_drain f)) [
      | inl e ↦ rw (last, after, e) refl
      | inr e ↦ rw (last, after, e) refl
    ]

meet_closed-is_ordered :
    (f : Option Content) (t : PipelineTask)
    → is_ordered (going t) ≡ true
    → is_ordered (meet_closed f t) ≡ true
unfolding is_ordered meet_closed
meet_closed-is_ordered none t h = h
meet_closed-is_ordered (some f) t h = refl

one_of :
    (b : Bool) (o p : Outcome)
    → is_ordered o ≡ true
    → is_ordered p ≡ true
    → is_ordered (if b then o else p) ≡ true
one_of true o p h k = h
one_of false o p h k = k

task_step-is_ordered :
    (s : Step) (o : Outcome) → is_ordered o ≡ true → is_ordered (next_outcome s o) ≡ true
unfolding is_ordered next_outcome task_step
task_step-is_ordered s panicked h = refl
task_step-is_ordered (queue_frame f) (going t) h = ground arith
task_step-is_ordered (give_up n) (going t) h = h
task_step-is_ordered (send n) (going t) h =
    one_of t.closed (meet_closed (sender_at n t.waiting) t) (going t)
      (meet_closed-is_ordered (sender_at n t.waiting) t h) h
task_step-is_ordered (receive n) (going t) h = elim (Bool-cases (t.draining && not t.closed)) [
  | inl e ↦
      let drains : t.draining ≡ true = ground arith in
      rw e (push_received-is_ordered n (sender_at n t.waiting) t drains h)
  | inr e ↦ rw e h
]
task_step-is_ordered drain_end (going t) h = ground arith
task_step-is_ordered cancel_context (going t) h = h
task_step-is_ordered close_queue (going t) h = ground arith
task_step-is_ordered return (going t) h = ground arith

unfoldable pub pushed_frames : Outcome → List Content
pushed_frames (going t) = t.pushed
pushed_frames panicked = []

run_steps-is_ordered :
    (ss : List Step) (o : Outcome)
    → is_ordered o ≡ true
    → ends_last (pushed_frames (run_steps ss o)) ≡ true
unfolding run_steps is_ordered ends_last pushed_frames
run_steps-is_ordered [] (going t) h = ground arith
run_steps-is_ordered [] panicked h = refl
run_steps-is_ordered (s ∷ ss) o h =
    run_steps-is_ordered ss (next_outcome s o) (task_step-is_ordered s o h)

-- Whatever happens to a task that has been started, in any order: nothing is pushed into the pipeline
-- behind a CancelFrame or a fatal ErrorFrame.
pub run_steps-ends_last :
    (ss : List Step) → ends_last (pushed_frames (run_steps ss (going started_task))) ≡ true
unfolding is_ordered ends_last all_go_on
run_steps-ends_last ss = run_steps-is_ordered ss (going started_task) refl

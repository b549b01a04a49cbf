-- ===== src/Pipeline/Task.antt =====
-- pkg/pipeline/task.go: PipelineTask as the steps of the goroutines around its unbuffered queue. A
-- step that cannot be taken changes nothing. The pipeline is what is pushed into it; its Setup and
-- Cleanup, and the context's error that Run returns, are left out.
pub mod Ends
pub mod Last
use voxray.Base.{
  ℕ, zero, suc, Bool, true, false, not, ◌&&◌, ◌||◌, Option, none, some, List, [], ◌∷◌, ◌++◌,
  if◌then◌else◌,
}
use voxray.Frames.{Content, cancel, error, end_frame}

-- The queue is the senders that wait at it, each with its frame; `has_queue` is t.queue not being nil,
-- `draining` the goroutine of Run.
pub record PipelineTask : Type 0 where
  pub has_queue : Bool
  pub closed : Bool
  pub waiting : List Content
  pub draining : Bool
  pub cancelled : Bool
  pub finished : Bool
  pub pushed : List Content

-- A task on which Run has begun.
abbrev pub started_task : PipelineTask
started_task = record {
  has_queue = true;
  closed = false;
  waiting = [];
  draining = true;
  cancelled = false;
  finished = false;
  pushed = [];
}

-- What can happen: QueueFrame takes the queue; the sender at a place gives up, as its context has
-- ended, or meets the queue closed; the drain goroutine receives from the sender at a place, or ends;
-- the context of Run is cancelled; Run closes the queue, and returns.
pub data Step : Type 0 where
  queue_frame : Content → Step
  give_up : ℕ → Step
  send : ℕ → Step
  receive : ℕ → Step
  drain_end : Step
  cancel_context : Step
  close_queue : Step
  return : Step

-- Sending on a closed channel panics.
pub data Outcome : Type 0 where
  going : PipelineTask → Outcome
  panicked : Outcome

unfoldable pub sender_at : ℕ → List Content → Option Content
sender_at n [] = none
sender_at zero (f ∷ fs) = some f
sender_at (suc n) (f ∷ fs) = sender_at n fs

unfoldable pub without : ℕ → List Content → List Content
without n [] = []
without zero (f ∷ fs) = fs
without (suc n) (f ∷ fs) = f ∷ without n fs

-- The frames after which the drain goroutine returns.
unfoldable pub ends_drain : Content → Bool
ends_drain cancel = true
ends_drain (error fatal) = fatal
ends_drain _ = false

unfoldable pub push_received : ℕ → Option Content → PipelineTask → PipelineTask
push_received n none t = t
push_received n (some f) t = record t {
  waiting = without n t.waiting;
  draining = not (ends_drain f);
  pushed = t.pushed ++ f ∷ [];
}

unfoldable pub meet_closed : Option Content → PipelineTask → Outcome
meet_closed none t = going t
meet_closed (some f) t = panicked

unfoldable pub task_step : Step → PipelineTask → Outcome
task_step (queue_frame f) t =
    going (if t.has_queue then record t { waiting = t.waiting ++ f ∷ [] } else t)
task_step (give_up n) t = going (record t { waiting = without n t.waiting })
task_step (send n) t = if t.closed then meet_closed (sender_at n t.waiting) t else going t
task_step (receive n) t =
    going (if t.draining && not t.closed then push_received n (sender_at n t.waiting) t else t)
task_step drain_end t = going (if t.cancelled || t.closed then record t { draining = false } else t)
task_step cancel_context t = going (record t { cancelled = true })
task_step close_queue t =
    going (if t.cancelled && t.has_queue then record t { has_queue = false; closed = true } else t)
task_step return t = going (if t.closed && not t.draining then record t { finished = true } else t)

unfoldable pub next_outcome : Step → Outcome → Outcome
next_outcome s (going t) = task_step s t
next_outcome s panicked = panicked

unfoldable pub run_steps : List Step → Outcome → Outcome
run_steps [] o = o
run_steps (s ∷ ss) o = run_steps ss (next_outcome s o)

-- StopWhenDone
abbrev pub stop_when_done : Step
stop_when_done = queue_frame end_frame

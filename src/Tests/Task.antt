-- ===== src/Tests/Task.antt =====
-- pkg/pipeline/task.go at concrete schedules.
use voxray.Pipeline.Task.Last.{ends_last, pushed_frames, run_steps-ends_last}
use voxray.Base.{true, false, [], ◌∷◌, ◌≡◌, refl}
use voxray.Frames.{cancel, sync}
use voxray.Pipeline.Task.{
  PipelineTask, started_task, queue_frame, send, receive, close_queue, return, going, run_steps,
  stop_when_done,
}
use voxray.Pipeline.Task.Ends.{
  is_cancel, cancels, is_going, panics, has_sender, run_goes_on, panics-has_sender,
}

-- A frame and the EndFrame of StopWhenDone are queued and received.
run_goes_on_example :
    is_going (
      run_steps
        (queue_frame sync ∷ receive 0 ∷ stop_when_done ∷ receive 0 ∷ return ∷ [])
        (going started_task))
    ≡ true
unfolding cancels is_cancel
run_goes_on_example =
    run_goes_on (queue_frame sync ∷ receive 0 ∷ stop_when_done ∷ receive 0 ∷ return ∷ []) refl

-- A frame waits at the queue of a task that is cancelled and no longer drained.
abbrev late : PipelineTask
late = record started_task { waiting = sync ∷ []; draining = false; cancelled = true }

panics-has_sender_example :
    panics (run_steps (close_queue ∷ send 0 ∷ return ∷ []) (going late)) ≡ true
unfolding has_sender
panics-has_sender_example = panics-has_sender (return ∷ []) late refl refl

-- What waits behind a CancelFrame is not pushed.
run_steps-ends_last_example :
    ends_last (
      pushed_frames (
        run_steps
          (queue_frame sync
            ∷ queue_frame cancel
            ∷ queue_frame sync
            ∷ receive 0
            ∷ receive 0
            ∷ receive 0
            ∷ [])
          (going started_task)))
    ≡ true
run_steps-ends_last_example = run_steps-ends_last (
    queue_frame sync
    ∷ queue_frame cancel
    ∷ queue_frame sync
    ∷ receive 0
    ∷ receive 0
    ∷ receive 0
    ∷ [])

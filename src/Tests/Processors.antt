-- ===== src/Tests/Processors.antt =====
-- pkg/processors at concrete frames.
use voxray.Base.{false, [], ◌∷◌, ◌++◌, ◌≡◌, refl}
use voxray.Frames.{downstream, end_frame, cancel, text, frame_type}
use voxray.Processors.Queue.{QueuedItem, new_frame_queue, put, get, is_system_frame}
use voxray.Processors.Queue.Order.{
  put_op, get_op, close_op, run, select, waiting, accepted, run-fifo, puts, gets,
}

abbrev hello : QueuedItem
hello = record { frame = record { id = 1; content = text [] }; dir = downstream }

abbrev goodbye : QueuedItem
goodbye = record { frame = record { id = 2; content = end_frame }; dir = downstream }

abbrev abort : QueuedItem
abort = record { frame = record { id = 3; content = cancel }; dir = downstream }

run-fifo_example :
    select false
        (run new_frame_queue (
          put_op hello
          ∷ put_op abort
          ∷ get_op
          ∷ put_op goodbye
          ∷ close_op
          ∷ put_op hello
          ∷ get_op
          ∷ [])).1
      ++ waiting false
          (run new_frame_queue (
            put_op hello
            ∷ put_op abort
            ∷ get_op
            ∷ put_op goodbye
            ∷ close_op
            ∷ put_op hello
            ∷ get_op
            ∷ [])).0
    ≡ waiting false new_frame_queue
      ++ select false (
          accepted false (
            put_op hello
            ∷ put_op abort
            ∷ get_op
            ∷ put_op goodbye
            ∷ close_op
            ∷ put_op hello
            ∷ get_op
            ∷ []))
run-fifo_example =
    run-fifo false new_frame_queue
      (put_op hello
        ∷ put_op abort
        ∷ get_op
        ∷ put_op goodbye
        ∷ close_op
        ∷ put_op hello
        ∷ get_op
        ∷ [])
      (record { systems = tt; datas = tt })

drained :
    (run new_frame_queue (puts (hello ∷ goodbye ∷ abort ∷ []) ++ gets 3)).1
    ≡ abort ∷ hello ∷ goodbye ∷ []
unfolding run puts gets put get is_system_frame frame_type
drained = refl

-- ===== src/Processors/Queue/Order.antt =====
-- What a consumer of a FrameQueue sees: system items first, each class in the order of its Puts.
use native.Mathlib.Nat.{zero-add}
use voxray.Base.{
  ℕ, zero, suc, ◌+◌, length, Bool, true, false, not, List, [], ◌∷◌, ◌++◌, ◌≡◌, refl, sym, ap, ◌∙◌,
  arith, append-nil, append_assoc, if◌then◌else◌, Bool-cases, inl, inr,
}
use voxray.Processors.Queue.{
  QueuedItem, FrameQueue, new_frame_queue, is_system_frame, put, GetResult, item, finished, blocked,
  get, close,
}

-- Whether an item is a system item (class `true`) or a data item (class `false`).
pub of_class : Bool → QueuedItem → Bool
of_class true x = is_system_frame x.frame.content
of_class false x = not (is_system_frame x.frame.content)

-- The items of a class, in their order.
pub select : Bool → List QueuedItem → List QueuedItem
select b [] = []
select b (x ∷ xs) = let rest = select b xs in if of_class b x then x ∷ rest else rest

-- The items of a class that wait in the queue.
abbrev pub waiting : Bool → FrameQueue → List QueuedItem
waiting true q = q.system
waiting false q = q.rest

pub data Op : Type 0 where
  put_op : QueuedItem → Op
  get_op close_op : Op

-- The item that a Get returned, if any.
abbrev pub returned : GetResult → List QueuedItem
returned (item x) = x ∷ []
returned finished = []
returned blocked = []

-- Any interleaving of Puts, Gets and Closes: the queue after it, and what the Gets returned.
unfoldable pub run : FrameQueue → List Op → FrameQueue × List QueuedItem
run q [] = (q, [])
run q (put_op x ∷ ops) = run (put q x) ops
run q (close_op ∷ ops) = run (close q) ops
run q (get_op ∷ ops) = ((run (get q).0 ops).0, returned (get q).1 ++ (run (get q).0 ops).1)

-- The items of the Puts that are made before the first Close.
pub accepted : Bool → List Op → List QueuedItem
accepted closed [] = []
accepted closed (put_op x ∷ ops) =
    let rest = accepted closed ops in if closed then rest else x ∷ rest
accepted closed (get_op ∷ ops) = accepted closed ops
accepted closed (close_op ∷ ops) = accepted true ops

abbrev pub AllOf : Bool → List QueuedItem → Type 0
AllOf b [] = Unit
AllOf b (x ∷ xs) = (of_class b x ≡ true) × AllOf b xs

-- Each list of the queue holds items of its own class only.
pub record IsSorted (q : FrameQueue) : Type 0 where
  pub systems : AllOf true q.system
  pub datas : AllOf false q.rest

select-append :
    (b : Bool) (xs ys : List QueuedItem) → select b (xs ++ ys) ≡ select b xs ++ select b ys
unfolding select
select-append b [] ys = refl
select-append b (x ∷ xs) ys = ground (arith, select-append b xs ys)

AllOf-snoc :
    (b : Bool) (xs : List QueuedItem) (x : QueuedItem)
    → of_class b x ≡ true
    → AllOf b xs
    → AllOf b (xs ++ x ∷ [])
AllOf-snoc b [] x h hs = (h, tt)
AllOf-snoc b (y ∷ ys) x h hs = (hs.0, AllOf-snoc b ys x h hs.1)

IsSorted-new : IsSorted new_frame_queue
IsSorted-new = record { systems = tt; datas = tt }

IsSorted-put : (q : FrameQueue) (x : QueuedItem) → IsSorted q → IsSorted (put q x)
unfolding put of_class
IsSorted-put q x h = elim (Bool-cases q.closed) [
  | inl shut ↦ simp shut h
  | inr up ↦ simp up (elim (Bool-cases (is_system_frame x.frame.content)) [
    | inl e ↦ simp e (record { systems = AllOf-snoc true q.system x e h.systems; datas = h.datas })
    | inr e ↦
        simp e (record { systems = h.systems; datas = AllOf-snoc false q.rest x (rw e) h.datas })
  ])
]

get-IsSorted_from :
    (system rest : List QueuedItem) (closed : Bool)
    → let q : FrameQueue = record { system = system; rest = rest; closed = closed } in
      IsSorted q → IsSorted (get q).0
unfolding get
get-IsSorted_from [] [] closed h = h
get-IsSorted_from [] (x ∷ xs) closed h = record { systems = tt; datas = h.datas.1 }
get-IsSorted_from (x ∷ xs) rest closed h = record { systems = h.systems.1; datas = h.datas }

-- A Get takes the first item of its class off the queue.
get-waiting :
    (b : Bool) (system rest : List QueuedItem) (closed : Bool)
    → let q : FrameQueue = record { system = system; rest = rest; closed = closed } in
      IsSorted q → select b (returned (get q).1) ++ waiting b (get q).0 ≡ waiting b q
unfolding get select of_class
get-waiting b [] [] true h = refl
get-waiting b [] [] false h = refl
get-waiting true [] (x ∷ xs) closed h = ground (arith, h.datas.0)
get-waiting false [] (x ∷ xs) closed h = ground (arith, h.datas.0)
get-waiting true (x ∷ xs) rest closed h = ground (arith, h.systems.0)
get-waiting false (x ∷ xs) rest closed h = ground (arith, h.systems.0)

get_closed :
    (system rest : List QueuedItem) (closed : Bool)
    → let q : FrameQueue = record { system = system; rest = rest; closed = closed } in
      (get q).0.closed ≡ closed
unfolding get
get_closed [] [] closed = refl
get_closed [] (x ∷ xs) closed = refl
get_closed (x ∷ xs) rest closed = refl

waiting-put :
    (b : Bool) (q : FrameQueue) (x : QueuedItem)
    → waiting b (put q x) ≡ (if q.closed then waiting b q else waiting b q ++ select b (x ∷ []))
unfolding put select of_class
waiting-put true q x = ground (arith, append-nil q.system)
waiting-put false q x = ground (arith, append-nil q.rest)

waiting-close : (b : Bool) (q : FrameQueue) → waiting b (close q) ≡ waiting b q
unfolding close
waiting-close true q = refl
waiting-close false q = refl

put_closed : (q : FrameQueue) (x : QueuedItem) → (put q x).closed ≡ q.closed
unfolding put
put_closed q x = ground arith

select_put :
    (b : Bool) (x : QueuedItem) (xs : List QueuedItem)
    → select b (x ∷ xs) ≡ select b (x ∷ []) ++ select b xs
select_put b x xs = select-append b (x ∷ []) xs

-- Whatever the interleaving of Puts, Gets and Closes on a queue, for each class the items that the
-- Gets returned, followed by those that still wait, are the items that waited at first followed by
-- those of the Puts before the first Close, in their order.
pub run-fifo :
    (b : Bool) (q : FrameQueue) (ops : List Op)
    → IsSorted q
    → select b (run q ops).1 ++ waiting b (run q ops).0
      ≡ waiting b q ++ select b (accepted q.closed ops)
unfolding run accepted select
run-fifo b q [] h = sym (append-nil (waiting b q))
run-fifo b q (put_op x ∷ ops) h =
    run-fifo b (put q x) ops (IsSorted-put q x h)
    ∙ ground (
      arith,
      waiting-put b q x,
      put_closed q x,
      select_put b x (accepted q.closed ops),
      append_assoc (waiting b q) (select b (x ∷ [])) (select b (accepted q.closed ops)),
    )
run-fifo b q (close_op ∷ ops) h =
    run-fifo b (close q) ops (unfold close in record { systems = h.systems; datas = h.datas })
    ∙ rw waiting-close (unfold close in refl)
run-fifo b q (get_op ∷ ops) h = cc (
  select-append b (returned (get q).1) (run (get q).0 ops).1,
  append_assoc (select b (returned (get q).1)) (select b (run (get q).0 ops).1)
      (waiting b (run (get q).0 ops).0),
  run-fifo b (get q).0 ops (get-IsSorted_from q.system q.rest q.closed h),
  append_assoc (select b (returned (get q).1)) (waiting b (get q).0)
      (select b (accepted q.closed ops)),
  get_closed q.system q.rest q.closed,
  get-waiting b q.system q.rest q.closed h,
)

unfoldable pub puts : List QueuedItem → List Op
puts [] = []
puts (x ∷ xs) = put_op x ∷ puts xs

unfoldable pub gets : ℕ → List Op
gets zero = []
gets (suc n) = get_op ∷ gets n

drain_rest :
    (rest : List QueuedItem) (closed : Bool)
    → let q : FrameQueue = record { system = []; rest = rest; closed = closed } in
      (run q (gets (length rest))).1 ≡ rest
unfolding run gets get
drain_rest [] closed = refl
drain_rest (x ∷ xs) closed = ap (λ l. x ∷ l) (drain_rest xs closed)

drain :
    (system rest : List QueuedItem) (n : ℕ)
    → n ≡ length system + length rest
    → let q : FrameQueue = record { system = system; rest = rest; closed = false } in
      (run q (gets n)).1 ≡ system ++ rest
unfolding run gets get
drain [] rest n e = rw (e, zero-add) (unfold run gets get in drain_rest rest false)
drain (x ∷ xs) rest zero e = absurd (omega arith)
drain (x ∷ xs) rest (suc n) e = ap (λ l. x ∷ l) (drain xs rest n (omega arith))

-- A queue after Puts on an open queue.
filled : FrameQueue → List QueuedItem → FrameQueue
filled q xs = record {
  system = q.system ++ select true xs;
  rest = q.rest ++ select false xs;
  closed = false;
}

filled_nil : (q : FrameQueue) → q.closed ≡ false → filled q [] ≡ q
unfolding filled select
filled_nil q h = ground (arith, append-nil q.system, append-nil q.rest)

filled-put :
    (q : FrameQueue) (x : QueuedItem) (xs : List QueuedItem)
    → q.closed ≡ false
    → filled (put q x) xs ≡ filled q (x ∷ xs)
unfolding filled select put of_class
filled-put q x xs h = ground (
  arith,
  append_assoc q.system (x ∷ []) (select true xs),
  append_assoc q.rest (x ∷ []) (select false xs),
)

run-puts :
    (q : FrameQueue) (xs : List QueuedItem) (ops : List Op)
    → q.closed ≡ false
    → run q (puts xs ++ ops) ≡ run (filled q xs) ops
unfolding run puts
run-puts q [] ops h = ap (λ (p : FrameQueue). run p ops) (sym (filled_nil q h))
run-puts q (x ∷ xs) ops h =
    run-puts (put q x) xs ops (put_closed q x ∙ h)
    ∙ ap (λ (p : FrameQueue). run p ops) (filled-put q x xs h)

length-select :
    (xs : List QueuedItem) → length xs ≡ length (select true xs) + length (select false xs)
unfolding select of_class
length-select [] = omega arith
length-select (x ∷ xs) = ground (arith, length-select xs)

-- Items put on a new queue come out system items first, and within each class in the order of
-- their Puts.
pub drain-puts :
    (xs : List QueuedItem)
    → (run new_frame_queue (puts xs ++ gets (length xs))).1 ≡ select true xs ++ select false xs
unfolding filled
drain-puts xs =
    rw (run-puts new_frame_queue xs (gets (length xs)) refl)
      (drain (select true xs) (select false xs) (length xs) (length-select xs))

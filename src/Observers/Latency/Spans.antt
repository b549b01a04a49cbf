-- ===== src/Observers/Latency/Spans.antt =====
-- The latencies that are reported.
use voxray.Base.{
  ℕ, false, Option, none, some, List, [], ◌∷◌, ◌++◌, length, ltb, ◌≡◌, refl, arith, inl, inr,
  Bool-cases,
}
use voxray.Frames.{
  Content, Frame, downstream, user_started_speaking, user_stopped_speaking, bot_started_speaking,
}
use voxray.Pipeline.Once.{seen, AreFresh}
use voxray.Observers.Latency.{LatencyObserver, latency, measure, remember, on_latency_frame}

-- A frame that goes down, and when it is observed.
abbrev pub Seen : Type 0
Seen = ℕ × Frame

unfoldable pub run : List Seen → LatencyObserver → LatencyObserver × List ℕ
run [] o = (o, [])
run ((now, f) ∷ xs) o =
    let (p, sent) = on_latency_frame now f downstream o in
    let (q, more) = run xs p in (q, sent ++ more)

-- The time from each stop of the user to the next start of the bot, if the user does not start again
-- and no other start of the bot comes before; `stopped` is a stop that is still open.
unfoldable pub spans : Option ℕ → List Seen → List ℕ
spans stopped [] = []
spans stopped ((now, f) ∷ xs) =
    let from_now = spans (some now) xs in
    let from_none = spans none xs in
    let going_on = spans stopped xs in
    elim f.content [
      | user_stopped_speaking ↦ from_now
      | user_started_speaking ↦ from_none
      | bot_started_speaking ↦ latency stopped now ++ from_none
      | _ ↦ going_on
    ]

unfoldable pub frames : List Seen → List Frame
frames [] = []
frames ((_, f) ∷ xs) = f ∷ frames xs

seen-prefix : (id : ℕ) (ids more : List ℕ) → seen id (ids ++ more) ≡ false → seen id ids ≡ false
unfolding seen
seen-prefix id [] more h = refl
seen-prefix id (x ∷ xs) more h = ground (arith, seen-prefix id xs more)

AreFresh-prefix :
    (ids more : List ℕ) (fs : List Frame) → AreFresh (ids ++ more) fs → AreFresh ids fs
unfolding AreFresh
AreFresh-prefix ids more [] h = tt
AreFresh-prefix ids more (f ∷ fs) h =
    (seen-prefix f.id ids more h.0, AreFresh-prefix (f.id ∷ ids) more fs h.1)

remember-AreFresh :
    (id : ℕ) (ids : List ℕ) (fs : List Frame)
    → AreFresh (id ∷ ids) fs
    → AreFresh (remember id ids) fs
unfolding remember
remember-AreFresh id ids fs h = elim (Bool-cases (ltb 500 (length (id ∷ ids)))) [
  | inl full ↦ rw full (AreFresh-prefix [] (id ∷ ids) fs h)
  | inr room ↦ rw room h
]

measured :
    (now : ℕ) (f : Content) (o : LatencyObserver)
    → (measure now f o).0.processed_ids ≡ o.processed_ids
unfolding measure
measured now user_stopped_speaking o = refl
measured now user_started_speaking o = refl
measured now bot_started_speaking o = refl
measured now _ o = refl

spans-step :
    (now id : ℕ) (c : Content) (o : LatencyObserver) (xs : List Seen)
    → let r = measure now c o in
      r.1 ++ spans r.0.user_stopped_time xs
      ≡ spans o.user_stopped_time ((now, record { id = id; content = c }) ∷ xs)
unfolding measure spans
spans-step now id user_stopped_speaking o xs = refl
spans-step now id user_started_speaking o xs = refl
spans-step now id bot_started_speaking o xs = refl
spans-step now id _ o xs = refl

none_left : (o : LatencyObserver) → [] ≡ spans o.user_stopped_time []
unfolding spans
none_left o = refl

-- If no id comes twice, the latencies reported are the spans.
pub run-spans :
    (xs : List Seen) (o : LatencyObserver)
    → AreFresh o.processed_ids (frames xs)
    → (run xs o).1 ≡ spans o.user_stopped_time xs
unfolding run AreFresh on_latency_frame frames
run-spans [] o h = none_left o
run-spans ((now, f) ∷ xs) o h =
    let next = record o { processed_ids = remember f.id o.processed_ids } in
    let p = (measure now f.content next).0 in
    let fresh : AreFresh p.processed_ids (frames xs) =
      rw (measured now f.content next) (remember-AreFresh f.id o.processed_ids (frames xs) h.1) in
    rw (h.0, run-spans xs p fresh) (spans-step now f.id f.content next xs)

-- ===== src/Observers/TurnTracking/Turns.antt =====
-- The turns that the observer reports, over every interleaving.
use mathlib.Core.List.{Perm}
use mathlib.Core.List.Perm
use voxray.Base.{
  ℕ, zero, suc, ◌+◌, Bool, true, false, not, ◌&&◌, Option, none, some, List, [], ◌∷◌, ◌++◌, ◌≡◌,
  refl, sym, ap, subst, ◌∙◌, arith, ◌==◌, if◌then◌else◌, Option-cases, inl, inr, append-nil,
  append_assoc,
}
use voxray.Base.Calls.{call_at, without_call, Perm-call_at}
use voxray.Frames.{
  Content, start, cancel, user_started_speaking, bot_started_speaking, bot_stopped_speaking,
}
use voxray.Observers.TurnTracking.{
  Observer, Callback, turn_started, turn_ended, Rest, done, then_start, then_forget, Call, Segment,
  add_processed, seen, end_turn, start_turn, go_on, on_user_started, cancel_turn_end_timer,
  schedule_turn_end, observe, on_frame_processed, on_timeout, Session, new_session, Event,
  frame_processed, timeout, call_back, resume, calls_of, unlock, make_call, delete_key, is_key,
  locked_step, handle, run, take_mutex,
}

-- How many turns have begun, and whether the last one has not ended; none if a callback does not fit:
-- a start with another number than the next, or an end of another turn or a second one.
pub record Turns : Type 0 where
  pub begun : ℕ
  pub is_open : Bool

listen : Turns → Callback → Option Turns
listen t (turn_started n) =
    if n == t.begun + 1 then some record { begun = n; is_open = true } else none
listen t (turn_ended n d i) =
    if t.is_open && (n == t.begun) then some record { begun = n; is_open = false } else none

pub follow : Turns → List Callback → Option Turns
follow t [] = some t
follow t (c ∷ cs) = elim (listen t c) [ none ↦ none | some u ↦ follow u cs ]

pub turns_of : Observer → Turns
turns_of o = record { begun = o.turn_count; is_open = o.is_turn_active }

unfoldable pub callbacks_of : List Call → List Callback
callbacks_of [] = []
callbacks_of (c ∷ cs) = c.callback ∷ callbacks_of cs

-- The callbacks in the order in which the mutex was released for them.
unfoldable pub made : List Event → Session → List Callback
made [] s = []
made (e ∷ es) s = callbacks_of (calls_of (locked_step e s).1) ++ made es (handle e s)

follow-append :
    (t u : Turns) (cs ds : List Callback) → follow t cs ≡ some u → follow t (cs ++ ds) ≡ follow u ds
unfolding follow
follow-append t u [] ds h = ground arith
follow-append t u (c ∷ cs) ds h = elim (Option-cases (listen t c)) [
  | inl e ↦ let q : none ≡ some u = rw (e, follow) at h in cc
  | inr (d, e) ↦ rw (e, follow) (follow-append d u cs ds (rw (e, follow) at h))
]

-- What a step releases the mutex for fits what it does.
abbrev Reports : Observer → Segment → Type 0
Reports o r = follow (turns_of o) (callbacks_of (calls_of r.1)) ≡ some (turns_of r.0)

silent-Reports : (o p : Observer) → turns_of p ≡ turns_of o → Reports o (p, none)
unfolding follow callbacks_of calls_of
silent-Reports o p h = ap some (sym h)

same_turns-Reports :
    (p o : Observer) (r : Segment) → turns_of p ≡ turns_of o → Reports p r → Reports o r
same_turns-Reports p o r e h =
    subst (λ t. follow t (callbacks_of (calls_of r.1)) ≡ some (turns_of r.0)) e h

-- A test and its branches.
branch-Reports :
    (b : Bool) (o : Observer) (r q : Segment)
    → (b ≡ true → Reports o r)
    → (b ≡ false → Reports o q)
    → Reports o (if b then r else q)
branch-Reports true o r q f g = f refl
branch-Reports false o r q f g = g refl

start_turn-Reports : (now : ℕ) (o : Observer) → Reports o (start_turn now o)
unfolding start_turn follow listen turns_of callbacks_of calls_of
start_turn-Reports now o = ground arith

go_on-Reports : (rest : Rest) (o : Observer) → Reports o (go_on rest o)
unfolding go_on turns_of
go_on-Reports done o = silent-Reports o o refl
go_on-Reports (then_start now true) o =
    start_turn-Reports now (record o { is_bot_speaking = false })
go_on-Reports (then_start now false) o = start_turn-Reports now o
go_on-Reports then_forget o = silent-Reports o (record o { end_turn_timer = none }) refl

end_turn-Reports :
    (now : ℕ) (i : Bool) (rest : Rest) (o : Observer) → Reports o (end_turn now i rest o)
unfolding end_turn follow listen turns_of callbacks_of calls_of
end_turn-Reports now i rest o =
    branch-Reports (not o.is_turn_active) o _ _ (λ over. go_on-Reports rest o)
      λ active. ground arith

turns_of-cancel_turn_end_timer : (o : Observer) → turns_of (cancel_turn_end_timer o) ≡ turns_of o
unfolding cancel_turn_end_timer turns_of
turns_of-cancel_turn_end_timer o = ground arith

cancelled-Reports : (o : Observer) (r : Segment) → Reports (cancel_turn_end_timer o) r → Reports o r
cancelled-Reports o r =
    same_turns-Reports (cancel_turn_end_timer o) o r (turns_of-cancel_turn_end_timer o)

on_user_started-Reports : (now : ℕ) (o : Observer) → Reports o (on_user_started now o)
unfolding on_user_started
on_user_started-Reports now o =
    let p = cancel_turn_end_timer o in
    branch-Reports o.is_bot_speaking o _ _
      (λ b. cancelled-Reports o _ (end_turn-Reports now true (then_start now true) p))
      λ b.
        branch-Reports (o.is_turn_active && o.has_bot_spoken) o _ _
          (λ s. cancelled-Reports o _ (end_turn-Reports now false (then_start now false) p))
          λ s.
            branch-Reports (not o.is_turn_active) o _ _ (λ a. start_turn-Reports now o)
              λ a. silent-Reports o o refl

observe-Reports : (now : ℕ) (f : Content) (o : Observer) → Reports o (observe now f o)
unfolding observe turns_of schedule_turn_end
observe-Reports now (start _) o =
    branch-Reports (o.turn_count == 0) o _ _ (λ z. start_turn-Reports now o)
      λ z. silent-Reports o o refl
observe-Reports now user_started_speaking o = on_user_started-Reports now o
observe-Reports now bot_started_speaking o =
    let p = record o { is_bot_speaking = true; has_bot_spoken = true } in
    silent-Reports o (cancel_turn_end_timer p) (turns_of-cancel_turn_end_timer p)
observe-Reports now bot_stopped_speaking o =
    let p = record o { is_bot_speaking = false } in
    branch-Reports o.is_bot_speaking o _ _
      (λ b. silent-Reports o (schedule_turn_end p) (turns_of-cancel_turn_end_timer p))
      λ b. silent-Reports o o refl
observe-Reports now cancel o =
    branch-Reports o.is_turn_active o _ _
      (λ a.
        cancelled-Reports o (end_turn now true done (cancel_turn_end_timer o))
          (end_turn-Reports now true done (cancel_turn_end_timer o)))
      λ a. silent-Reports o o refl
observe-Reports now _ o = silent-Reports o o refl

turns_of-add_processed : (id : ℕ) (o : Observer) → turns_of (add_processed id o) ≡ turns_of o
unfolding add_processed turns_of
turns_of-add_processed id o = ground arith

take_mutex-Reports : (rest : Option Rest) (o : Observer) → Reports o (take_mutex rest o)
unfolding take_mutex
take_mutex-Reports none o = silent-Reports o o refl
take_mutex-Reports (some rest) o = go_on-Reports rest o

locked_step-Reports : (e : Event) (s : Session) → Reports s.observer (locked_step e s)
unfolding locked_step on_frame_processed on_timeout turns_of
locked_step-Reports (frame_processed now f) s =
    let o = s.observer in
    branch-Reports (seen f.id o) o _ _ (λ s. silent-Reports o o refl)
      λ s.
        same_turns-Reports (add_processed f.id o) o (observe now f.content (add_processed f.id o))
          (turns_of-add_processed f.id o) (observe-Reports now f.content (add_processed f.id o))
locked_step-Reports (timeout now id) s =
    let o = s.observer in
    let p = record o { armed = delete_key id o.armed } in
    branch-Reports (not (is_key id o.armed)) o _ _ (λ t. silent-Reports o o refl)
      λ t.
        branch-Reports (o.is_turn_active && not o.is_bot_speaking) o _ _
          (λ a. end_turn-Reports now false then_forget p) λ a. go_on-Reports then_forget p
locked_step-Reports (call_back n) s = silent-Reports s.observer s.observer refl
locked_step-Reports (resume n) s = take_mutex-Reports (call_at n s.returning) s.observer

-- The callbacks made and those still to be made.
all_callbacks : Session → List Callback
all_callbacks s = s.told ++ callbacks_of s.calls

callbacks_of-append :
    (cs ds : List Call) → callbacks_of (cs ++ ds) ≡ callbacks_of cs ++ callbacks_of ds
unfolding callbacks_of
callbacks_of-append [] ds = refl
callbacks_of-append (c ∷ cs) ds = ap (λ t. c.callback ∷ t) (callbacks_of-append cs ds)

-- The place of a call is that of its callback.
call_at-callbacks_of :
    (n : ℕ) (c : Call) (cs : List Call)
    → call_at n cs ≡ some c
    → (call_at n (callbacks_of cs) ≡ some c.callback)
      × (callbacks_of (without_call n cs) ≡ without_call n (callbacks_of cs))
unfolding call_at without_call callbacks_of
call_at-callbacks_of n c [] h = let q : none ≡ some c = h in cc
call_at-callbacks_of zero c (d ∷ cs) h =
    let same : d ≡ c = cc in (ap (λ e. some e.callback) same, refl)
call_at-callbacks_of (suc n) c (d ∷ cs) h =
    let (at, left) = call_at-callbacks_of n c cs h in (at, ap (λ t. d.callback ∷ t) left)

make_call-Perm :
    (n : ℕ) (out : Option Call) (s : Session)
    → call_at n s.calls ≡ out
    → Perm (all_callbacks (make_call n out s)) (all_callbacks s)
unfolding make_call all_callbacks
make_call-Perm n none s h = Perm.refl (all_callbacks s)
make_call-Perm n (some c) s h =
    let (at, left) = call_at-callbacks_of n c s.calls h in
    rw left (Perm-call_at n c.callback s.told (callbacks_of s.calls) at)

unlock-Perm :
    (r : Segment) (s : Session)
    → all_callbacks (unlock r s) ≡ all_callbacks s ++ callbacks_of (calls_of r.1)
unfolding unlock all_callbacks
unlock-Perm r s =
    rw (callbacks_of-append s.calls (calls_of r.1))
      (sym (append_assoc s.told (callbacks_of s.calls) (callbacks_of (calls_of r.1))))

make_call-observer :
    (n : ℕ) (out : Option Call) (s : Session) → (make_call n out s).observer ≡ s.observer
unfolding make_call
make_call-observer n none s = refl
make_call-observer n (some c) s = refl

-- What a step makes is what it releases the mutex for.
record IsKept (e : Event) (s t : Session) : Type 0 where
  observed : t.observer ≡ (locked_step e s).0
  kept : Perm (all_callbacks t) (all_callbacks s ++ callbacks_of (calls_of (locked_step e s).1))

released :
    (r : Segment) (s : Session)
    → Perm (all_callbacks (unlock r s)) (all_callbacks s ++ callbacks_of (calls_of r.1))
released r s = rw (unlock-Perm r s) (Perm.refl (all_callbacks s ++ callbacks_of (calls_of r.1)))

handle-IsKept : (e : Event) (s : Session) → IsKept e s (handle e s)
unfolding handle locked_step unlock all_callbacks calls_of callbacks_of
handle-IsKept (frame_processed now f) s = record {
  observed = refl;
  kept = released (on_frame_processed now f s.observer) s;
}
handle-IsKept (timeout now id) s = record {
  observed = refl;
  kept = released (on_timeout now id s.observer) s;
}
handle-IsKept (resume n) s = record {
  observed = refl;
  kept = released (locked_step (resume n) s) (record s { returning = without_call n s.returning });
}
handle-IsKept (call_back n) s = record {
  observed = make_call-observer n (call_at n s.calls) s;
  kept = rw (append-nil (all_callbacks s)) (make_call-Perm n (call_at n s.calls) s refl);
}

run-made :
    (es : List Event) (s : Session)
    → (follow (turns_of s.observer) (made es s) ≡ some (turns_of (run es s).observer))
      × Perm (all_callbacks (run es s)) (all_callbacks s ++ made es s)
unfolding run made
run-made [] s =
    (unfold follow in refl, rw (append-nil (all_callbacks s)) (Perm.refl (all_callbacks s)))
run-made (e ∷ es) s =
    let t = handle e s in
    let now = handle-IsKept e s in
    let (followed, later) = run-made es t in
    let first = callbacks_of (calls_of (locked_step e s).1) in
    (
      follow-append (turns_of s.observer) (turns_of (locked_step e s).0) first (made es t)
            (locked_step-Reports e s)
          ∙ ap (λ o. follow (turns_of o) (made es t)) (sym now.observed)
          ∙ followed,
      Perm.trans later (
          rw (← append_assoc (all_callbacks s) first (made es t))
            (Perm.append_right (made es t) now.kept)),
    )

-- From a new observer, however frames, repeated or not, timeouts, callbacks and the calls that come
-- back from them interleave: in the order in which the mutex is released for them, the callbacks begin
-- turns numbered from one, and end each turn at most once, under its own number and not after the next
-- is begun, so that the last one fits the observer's own turn; and the callbacks that have been made, in
-- whatever order, and those still to be made are exactly these, none lost or made twice.
pub follow-made :
    (max_frames : ℕ) (es : List Event)
    → let last = run es (new_session max_frames) in
      let calls = made es (new_session max_frames) in
      (follow (record { begun = 0; is_open = false }) calls ≡ some (turns_of last.observer))
      × Perm (last.told ++ callbacks_of last.calls) calls
unfolding turns_of all_callbacks callbacks_of
follow-made max_frames es = run-made es (new_session max_frames)

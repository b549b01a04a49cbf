-- ===== src/Turn/Alternation.antt =====
-- The order of the turn frames that a controller with the VAD and silence strategies emits, as
-- TurnProcessor wires it, over every history of events.
use voxray.Base.{
  Bool, true, false, not, ◌&&◌, ◌||◌, Option, none, some, List, [], ◌∷◌, ◌++◌, ◌≡◌, refl, subst,
  append-nil, ◌∙◌, arith, Option-cases, inl, inr, Bool-cases, if◌then◌else◌,
}
use voxray.Frames.{Content, user_started_speaking, user_stopped_speaking, user_idle}
use voxray.Turn.Controller.{
  Controller, Outcome, Event, vad_update, aside, Aside, stop_timeout, idle_timeout,
  vad_start_strategy, silence_stop_strategy, handle, handle_aside, meanwhile, process_vad_update,
  handle_all, new_controller,
}

-- The listener's view: whether the user is speaking after a list of frames, and none if the frames
-- are out of order: a start within speech, a stop at the wrong time, or an idle frame within speech,
-- unless it is lenient there.
listen : Bool → Bool → Content → Option Bool
listen lenient false user_started_speaking = some true
listen lenient true user_stopped_speaking = some false
listen lenient false user_idle = some false
listen lenient true user_idle = if lenient then some true else none
listen lenient _ _ = none

pub follow : Bool → Bool → List Content → Option Bool
follow lenient b [] = some b
follow lenient b (f ∷ fs) = elim (listen lenient b f) [ none ↦ none | some c ↦ follow lenient c fs ]

unfoldable pub is_idle_timeout : Aside → Bool
is_idle_timeout idle_timeout = true
is_idle_timeout _ = false

unfoldable pub has_idle_timeout : List Aside → Bool
has_idle_timeout [] = false
has_idle_timeout (a ∷ asides) = is_idle_timeout a || has_idle_timeout asides

-- Whether the idle timeout comes while the start of speech is being pushed.
unfoldable pub idle_at_start : List Event → Bool
idle_at_start [] = false
idle_at_start (vad_update speech asides ∷ es) =
    (speech && has_idle_timeout asides) || idle_at_start es
idle_at_start (aside a ∷ es) = idle_at_start es

-- What holds of the controller between two events.
pub record IsSynced (c : Controller Bool Bool) : Type 0 where
  pub turn_is_speech : c.user_turn ≡ c.user_speaking
  pub start_reset : c.start ≡ false
  pub no_idle_in_speech : c.user_speaking ≡ true → c.idle_timer ≡ false

follow-append :
    (l b c : Bool) (fs gs : List Content)
    → follow l b fs ≡ some c
    → follow l b (fs ++ gs) ≡ follow l c gs
unfolding follow
follow-append l b c [] gs h = ground arith
follow-append l b c (f ∷ fs) gs h = elim (Option-cases (listen l b f)) [
  | inl e ↦ let q : none ≡ some c = rw (e, follow) at h in cc
  | inr (d, e) ↦ rw (e, follow) (follow-append l d c fs gs (rw (e, follow) at h))
]

module _ (fails : Content → Bool) (quiet_push : (f : Content) → fails f ≡ false) where
  abbrev react_aside : Aside → Controller Bool Bool → Outcome Bool Bool
  react_aside = handle_aside vad_start_strategy silence_stop_strategy (some fails)

  abbrev during : List Aside → Controller Bool Bool → Outcome Bool Bool
  during = meanwhile vad_start_strategy silence_stop_strategy (some fails)

  abbrev react : Event → Controller Bool Bool → Outcome Bool Bool
  react = handle vad_start_strategy silence_stop_strategy (some fails)

  -- The stop timer finds nothing to stop: the user is speaking, or there is no turn.
  abbrev IsStill : Controller Bool Bool → Type 0
  IsStill c = (not c.user_speaking && c.user_turn) ≡ false

  -- What does not change while a frame is being pushed.
  record Stays (c : Controller Bool Bool) (o : Outcome Bool Bool) : Type 0 where
    pub speaking : o.controller.user_speaking ≡ c.user_speaking
    pub turn : o.controller.user_turn ≡ c.user_turn
    pub starts : o.controller.start ≡ c.start

  react_aside-Stays : (a : Aside) (c : Controller Bool Bool) → IsStill c → Stays c (react_aside a c)
  unfolding handle_aside
  react_aside-Stays a c h = record {
    speaking = ground arith;
    turn = ground arith;
    starts = ground arith;
  }

  during-Stays :
      (asides : List Aside) (c : Controller Bool Bool) → IsStill c → Stays c (during asides c)
  unfolding meanwhile
  during-Stays [] c h = record { speaking = refl; turn = refl; starts = refl }
  during-Stays (a ∷ asides) c h =
      let d = (react_aside a c).controller in
      let first = react_aside-Stays a c h in
      let still : IsStill d = rw (first.speaking, first.turn) h in
      let rest = during-Stays asides d still in
      record {
        speaking = rest.speaking ∙ first.speaking;
        turn = rest.turn ∙ first.turn;
        starts = rest.starts ∙ first.starts;
      }

  during_succeeds :
      (asides : List Aside) (c : Controller Bool Bool) → (during asides c).failed ≡ false
  unfolding meanwhile
  during_succeeds [] c = refl
  during_succeeds (a ∷ asides) c = during_succeeds asides (react_aside a c).controller

  follow-react_aside :
      (l : Bool) (a : Aside) (c : Controller Bool Bool)
      → IsStill c
      → (c.user_speaking && is_idle_timeout a && not l) ≡ false
      → follow l c.user_speaking (react_aside a c).pushed ≡ some c.user_speaking
  unfolding handle_aside follow listen is_idle_timeout
  follow-react_aside l a c h k = ground arith

  follow-during :
      (l : Bool) (asides : List Aside) (c : Controller Bool Bool)
      → IsStill c
      → (c.user_speaking && has_idle_timeout asides && not l) ≡ false
      → follow l c.user_speaking (during asides c).pushed ≡ some c.user_speaking
  unfolding meanwhile has_idle_timeout
  follow-during l [] c h k = unfold follow in refl
  follow-during l (a ∷ asides) c h k =
      let o = react_aside a c in
      let first = react_aside-Stays a c h in
      let still : IsStill o.controller = rw (first.speaking, first.turn) h in
      let now : (c.user_speaking && is_idle_timeout a && not l) ≡ false = ground arith in
      let later : (o.controller.user_speaking && has_idle_timeout asides && not l) ≡ false =
        rw first.speaking (ground arith) in
      let rest = (during asides o.controller).pushed in
      follow-append l c.user_speaking c.user_speaking o.pushed rest (follow-react_aside l a c h now)
      ∙ subst (λ b. follow l b rest ≡ some b) first.speaking
          (follow-during l asides o.controller still later)

  -- The controller while the start of speech is being pushed, and while the end is.
  abbrev at_start : Controller Bool Bool → Controller Bool Bool
  at_start c = record c { user_speaking = true; start = true }

  abbrev at_end : Controller Bool Bool → Controller Bool Bool
  at_end c = record c {
    user_speaking = false;
    user_turn = false;
    start = false;
    stop = false;
    stop_timer = false;
  }

  handle-IsSynced :
      (e : Event) (c : Controller Bool Bool) → IsSynced c → IsSynced (react e c).controller
  unfolding handle process_vad_update handle_aside
  handle-IsSynced (vad_update true asides) c h =
      let stays = during-Stays asides (at_start c) refl in
      let done = during_succeeds asides (at_start c) in
      let accepted = quiet_push user_started_speaking in
      record {
        turn_is_speech = ground arith;
        start_reset = ground arith;
        no_idle_in_speech = ground arith;
      }
  handle-IsSynced (vad_update false asides) c h =
      let stays = during-Stays asides (at_end c) refl in
      let done = during_succeeds asides (at_end c) in
      let accepted = quiet_push user_stopped_speaking in
      record {
        turn_is_speech = ground arith;
        start_reset = ground arith;
        no_idle_in_speech = ground arith;
      }
  handle-IsSynced (aside a) c h =
      ground (arith, quiet_push user_idle, quiet_push user_stopped_speaking)

  pushed_at_start :
      (asides : List Aside) (c : Controller Bool Bool)
      → IsSynced c
      → c.user_speaking ≡ false
      → (react (vad_update true asides) c).pushed
        ≡ user_started_speaking ∷ (during asides (at_start c)).pushed
  unfolding handle process_vad_update
  pushed_at_start asides c h silent =
      let stays = during-Stays asides (at_start c) refl in
      let done = during_succeeds asides (at_start c) in
      let accepted = quiet_push user_started_speaking in
      let same = append-nil (during asides (at_start c)).pushed in ground arith

  pushed_at_end :
      (asides : List Aside) (c : Controller Bool Bool)
      → IsSynced c
      → c.user_speaking ≡ true
      → (react (vad_update false asides) c).pushed
        ≡ user_stopped_speaking ∷ (during asides (at_end c)).pushed
  unfolding handle process_vad_update
  pushed_at_end asides c h speaks =
      let stays = during-Stays asides (at_end c) refl in
      let done = during_succeeds asides (at_end c) in
      let accepted = quiet_push user_stopped_speaking in
      let same = append-nil (during asides (at_end c)).pushed in ground arith

  speaking_after :
      (b : Bool) (asides : List Aside) (c : Controller Bool Bool)
      → IsSynced c
      → (react (vad_update b asides) c).controller.user_speaking ≡ b
  unfolding handle process_vad_update
  speaking_after true asides c h =
      let stays = during-Stays asides (at_start c) refl in
      let done = during_succeeds asides (at_start c) in
      let accepted = quiet_push user_started_speaking in ground arith
  speaking_after false asides c h =
      let stays = during-Stays asides (at_end c) refl in
      let done = during_succeeds asides (at_end c) in
      let accepted = quiet_push user_stopped_speaking in ground arith

  -- A call of ProcessVADUpdate that finds nothing new pushes nothing.
  nothing_new :
      (b : Bool) (asides : List Aside) (c : Controller Bool Bool)
      → c.user_speaking ≡ b
      → (react (vad_update b asides) c).pushed ≡ []
  unfolding handle process_vad_update
  nothing_new true asides c h = ground arith
  nothing_new false asides c h = ground arith

  follow-handle :
      (l : Bool) (e : Event) (c : Controller Bool Bool)
      → IsSynced c
      → (idle_at_start (e ∷ []) && not l) ≡ false
      → follow l c.user_speaking (react e c).pushed ≡ some (react e c).controller.user_speaking
  unfolding follow listen idle_at_start
  follow-handle l (vad_update true asides) c h k = elim (Bool-cases c.user_speaking) [
    | inl speaks ↦
        rw (nothing_new true asides c speaks, speaking_after true asides c h, speaks) refl
    | inr silent ↦
        let allowed : (true && has_idle_timeout asides && not l) ≡ false = ground arith in
        rw (pushed_at_start asides c h silent, speaking_after true asides c h, silent)
          (follow-during l asides (at_start c) refl allowed)
  ]
  follow-handle l (vad_update false asides) c h k = elim (Bool-cases c.user_speaking) [
    | inl speaks ↦
        rw (pushed_at_end asides c h speaks, speaking_after false asides c h, speaks)
          (follow-during l asides (at_end c) refl refl)
    | inr silent ↦
        rw (nothing_new false asides c silent, speaking_after false asides c h, silent) refl
  ]
  follow-handle l (aside a) c h k =
      unfold handle in
      unfold handle_aside in ground (arith, quiet_push user_idle, quiet_push user_stopped_speaking)

  stop_timeout_idle :
      (c : Controller Bool Bool) → IsSynced c → (react_aside stop_timeout c).pushed ≡ []
  unfolding handle_aside
  stop_timeout_idle c h = ground arith

  abbrev history : List Event → Controller Bool Bool → Controller Bool Bool × List Content
  history = handle_all vad_start_strategy silence_stop_strategy (some fails)

  handle_all-IsSynced :
      (es : List Event) (c : Controller Bool Bool) → IsSynced c → IsSynced (history es c).0
  unfolding handle_all
  handle_all-IsSynced [] c h = h
  handle_all-IsSynced (e ∷ es) c h =
      handle_all-IsSynced es (react e c).controller (handle-IsSynced e c h)

  first_idle :
      (l : Bool) (e : Event) (es : List Event)
      → (idle_at_start (e ∷ es) && not l) ≡ false
      → ((idle_at_start (e ∷ []) && not l) ≡ false) × ((idle_at_start es && not l) ≡ false)
  unfolding idle_at_start
  first_idle l (vad_update b asides) es h = ground arith
  first_idle l (aside a) es h = ground arith

  follow-history :
      (l : Bool) (es : List Event) (c : Controller Bool Bool)
      → IsSynced c
      → (idle_at_start es && not l) ≡ false
      → follow l c.user_speaking (history es c).1 ≡ some (history es c).0.user_speaking
  unfolding handle_all
  follow-history l [] c h k = unfold follow in refl
  follow-history l (e ∷ es) c h k =
      let (now, later) = first_idle l e es k in
      follow-append l c.user_speaking (react e c).controller.user_speaking (react e c).pushed
        (history es (react e c).controller).1 (follow-handle l e c h now)
      ∙ follow-history l es (react e c).controller (handle-IsSynced e c h) later

  not_both : (b : Bool) → (b && not b) ≡ false
  not_both b = ground arith

  -- From a synced controller whose frames are accepted, whatever happens between the calls of
  -- ProcessVADUpdate and while these push: each start of speech is followed by its stop before the next
  -- start, the listener's view at the end is the controller's, and no idle frame falls within speech,
  -- unless the idle timeout comes while the start of speech is being pushed.
  pub follow-handle_all :
      (es : List Event) (c : Controller Bool Bool)
      → IsSynced c
      → follow (idle_at_start es) c.user_speaking (history es c).1
        ≡ some (history es c).0.user_speaking
  follow-handle_all es c h = follow-history (idle_at_start es) es c h (not_both (idle_at_start es))

  new_controller-IsSynced :
      (stop_on idle_on : Bool) → IsSynced (new_controller false false stop_on idle_on)
  new_controller-IsSynced stop_on idle_on = ground arith

  -- After any history of a new controller whose frames are accepted, the stop timeout emits nothing:
  -- with these strategies a turn has always ended already when the user is silent.
  pub stop_timeout_never_stops :
      (stop_on idle_on : Bool) (es : List Event)
      → (react_aside stop_timeout
          (history es (new_controller false false stop_on idle_on)).0).pushed
        ≡ []
  stop_timeout_never_stops stop_on idle_on es =
      stop_timeout_idle (history es (new_controller false false stop_on idle_on)).0 (
        handle_all-IsSynced es (new_controller false false stop_on idle_on)
          (new_controller-IsSynced stop_on idle_on))

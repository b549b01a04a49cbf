-- ===== src/Processors/Filters/WakeCheck.antt =====
-- pkg/processors/filters/wake_check_filter.go. The compiled patterns are parameters: where in a text the
-- first match of a pattern ends. A participant who is not in the map is one that is idle and has said
-- nothing, as the code makes one. Times are in nanoseconds and do not go back.
pub mod Participants
use text.Mathlib.Text.{◌==◌ as str_eq}
use voxray.Base.{
  ℕ, ◌-◌, String, Bool, true, false, Option, none, some, List, [], ◌∷◌, ◌++◌, drop, ltb, leb,
  if◌then◌else◌,
}
use voxray.Frames.{Text, Content, transcription}

pub record Participant : Type 0 where
  pub awake : Bool
  pub wake_timer : ℕ
  pub accumulator : Text

abbrev pub new_participant : Participant
new_participant = record { awake = false; wake_timer = 0; accumulator = [] }

abbrev pub Participants : Type 0
Participants = String → Participant

-- The keepalive of NewWakeCheckFilter, in nanoseconds
unfoldable pub keepalive_timeout : ℕ → ℕ
keepalive_timeout timeout = if leb timeout 0 then 3000000000 else timeout

-- Where the first match of the first pattern that matches ends.
unfoldable pub first_match : List (Text → Option ℕ) → Text → Option ℕ
first_match [] t = none
first_match (p ∷ ps) t =
    let rest = first_match ps t in elim (p t) [ none ↦ rest | some end_at ↦ some end_at ]

module _ (patterns : List (Text → Option ℕ)) (keepalive : ℕ) where
  unfoldable pub matched : Option ℕ → ℕ → Text → Participant → Participant × Option Text
  matched none now said p = (record p { awake = false; accumulator = said }, none)
  matched (some end_at) now said p =
      (record { awake = true; wake_timer = now; accumulator = [] }, some (drop end_at said))

  -- A participant's transcription: the text that is forwarded, if it is.
  unfoldable pub hear : ℕ → Text → Participant → Participant × Option Text
  hear now t p =
      let said = p.accumulator ++ t in
      let woken = matched (first_match patterns said) now said p in
      if p.awake
      then (if ltb (now - p.wake_timer) keepalive
          then (record p { wake_timer = now }, some t)
          else woken)
      else woken

  unfoldable pub forwarded : String → Bool → Option Text → List Content
  forwarded user final none = []
  forwarded user final (some t) = transcription user t final ∷ []

  unfoldable pub update : String → Participant → Participants → Participants
  update user p ps = λ other. if str_eq user other then p else ps other

  -- ProcessFrame: the frames forwarded, in the direction of the frame.
  unfoldable pub process_frame : ℕ → Content → Participants → Participants × List Content
  process_frame now (transcription user t final) ps =
      let (p, out) = hear now t (ps user) in (update user p ps, forwarded user final out)
  process_frame now f ps = (ps, f ∷ [])

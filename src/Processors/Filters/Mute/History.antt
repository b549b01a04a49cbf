-- ===== src/Processors/Filters/Mute/History.antt =====
-- What the mute strategies do over every history of frames.
use voxray.Base.{Bool, true, false, Option, List, [], ◌∷◌, ◌≡◌, ◌⊎◌, inl, inr, refl, arith}
use voxray.Frames.{Content, start, bot_started_speaking, bot_stopped_speaking}
use voxray.Processors.Filters.Mute.{
  Strategy, first_speech, until_first_bot_complete, always, custom, unknown, MuteFilter,
  should_mute, strategy_mutes, process_frame, MuteInput, run, new_mute_filter,
}

-- The strategies but first_speech.
pub without_first_speech : List Strategy → List Strategy
without_first_speech [] = []
without_first_speech (first_speech ∷ ss) = without_first_speech ss
without_first_speech (s ∷ ss) = s ∷ without_first_speech ss

drop_first :
    (ss : List Strategy) (cb : Option Bool) (bot handled : Bool)
    → (bot ≡ false) ⊎ (handled ≡ true)
    → should_mute ss cb bot handled ≡ should_mute (without_first_speech ss) cb bot handled
unfolding should_mute strategy_mutes without_first_speech
drop_first [] cb bot handled h = refl
drop_first (first_speech ∷ ss) cb bot handled h = ground (arith, drop_first ss cb bot handled h)
drop_first (s ∷ ss) cb bot handled h = ground (arith, drop_first ss cb bot handled h)

-- Two filters that differ in the strategies only, the bot's speech being handled once it speaks.
abbrev AreAlike : MuteFilter → MuteFilter → Type 0
AreAlike p q =
    (q.strategies ≡ without_first_speech p.strategies)
    × (q.bot_is_speaking ≡ p.bot_is_speaking)
    × (q.first_speech_handled ≡ p.first_speech_handled)
    × (q.is_muted ≡ p.is_muted)
    × ((p.bot_is_speaking ≡ false) ⊎ (p.first_speech_handled ≡ true))

AreAlike-process_frame :
    (f : Content) (cb : Option Bool) (p q : MuteFilter)
    → AreAlike p q
    → AreAlike (process_frame f cb p).0 (process_frame f cb q).0
unfolding process_frame
AreAlike-process_frame bot_started_speaking cb p q h =
    ground (arith, drop_first p.strategies cb true true (inr refl))
AreAlike-process_frame bot_stopped_speaking cb p q h =
    ground (arith, drop_first p.strategies cb false p.first_speech_handled (inl refl))
AreAlike-process_frame (start _) cb p q h =
    ground (arith, drop_first p.strategies cb p.bot_is_speaking p.first_speech_handled h.4)
AreAlike-process_frame _ cb p q h = h

alike_run :
    (xs : List MuteInput) (p q : MuteFilter)
    → AreAlike p q
    → (run xs p).is_muted ≡ (run xs q).is_muted
unfolding run
alike_run [] p q h = ground arith
alike_run (x ∷ xs) p q h =
    alike_run xs (process_frame x.content x.callback p).0 (process_frame x.content x.callback q).0
      (AreAlike-process_frame x.content x.callback p q h)

-- The strategy first_speech never mutes anything: over every history of a new filter, with it and
-- without it the filter is muted at the same times.
first_speech_never_mutes :
    (ss : List Strategy) (xs : List MuteInput)
    → (run xs (new_mute_filter ss)).is_muted
      ≡ (run xs (new_mute_filter (without_first_speech ss))).is_muted
first_speech_never_mutes ss xs =
    alike_run xs (new_mute_filter ss) (new_mute_filter (without_first_speech ss))
      (refl, refl, refl, refl, inl refl)

-- Only the strategies that are to mute the first speech of the bot.
abbrev pub OnlyFirst : List Strategy → Type 0
OnlyFirst [] = Unit
OnlyFirst (first_speech ∷ ss) = OnlyFirst ss
OnlyFirst (until_first_bot_complete ∷ ss) = OnlyFirst ss
OnlyFirst (_ ∷ ss) = ⊥

OnlyFirst-open :
    (ss : List Strategy) (cb : Option Bool) (bot : Bool)
    → OnlyFirst ss
    → should_mute ss cb bot true ≡ false
unfolding should_mute strategy_mutes
OnlyFirst-open [] cb bot h = refl
OnlyFirst-open (first_speech ∷ ss) cb bot h = ground (arith, OnlyFirst-open ss cb bot h)
OnlyFirst-open (until_first_bot_complete ∷ ss) cb bot h = OnlyFirst-open ss cb bot h
OnlyFirst-open (always ∷ ss) cb bot h = absurd h
OnlyFirst-open (custom ∷ ss) cb bot h = absurd h
OnlyFirst-open (unknown ∷ ss) cb bot h = absurd h

abbrev IsOpen : List Strategy → MuteFilter → Type 0
IsOpen ss p = (p.strategies ≡ ss) × (p.first_speech_handled ≡ true) × (p.is_muted ≡ false)

IsOpen-process_frame :
    (ss : List Strategy) (f : Content) (cb : Option Bool) (p : MuteFilter)
    → OnlyFirst ss
    → IsOpen ss p
    → IsOpen ss (process_frame f cb p).0
unfolding process_frame
IsOpen-process_frame ss bot_started_speaking cb p o h = ground (arith, OnlyFirst-open ss cb true o)
IsOpen-process_frame ss bot_stopped_speaking cb p o h = ground (arith, OnlyFirst-open ss cb false o)
IsOpen-process_frame ss (start _) cb p o h =
    ground (arith, OnlyFirst-open ss cb p.bot_is_speaking o)
IsOpen-process_frame ss _ cb p o h = h

open_run :
    (ss : List Strategy) (xs : List MuteInput) (p : MuteFilter)
    → OnlyFirst ss
    → IsOpen ss p
    → (run xs p).is_muted ≡ false
unfolding run
open_run ss [] p o h = h.2
open_run ss (x ∷ xs) p o h =
    open_run ss xs (process_frame x.content x.callback p).0 o
      (IsOpen-process_frame ss x.content x.callback p o h)

-- With first_speech and until_first_bot_complete alone, the filter is open from the moment the bot
-- first starts to speak, through that speech and ever after.
bot_start_unmutes :
    (cb : Option Bool) (xs : List MuteInput) (p : MuteFilter)
    → OnlyFirst p.strategies
    → (run xs (process_frame bot_started_speaking cb p).0).is_muted ≡ false
bot_start_unmutes cb xs p o =
    open_run p.strategies xs (process_frame bot_started_speaking cb p).0 o
      (unfold process_frame in (refl, refl, OnlyFirst-open p.strategies cb true o))

abbrev FollowsBot : MuteFilter → Type 0
FollowsBot p = (p.strategies ≡ always ∷ []) × (p.is_muted ≡ p.bot_is_speaking)

FollowsBot-process_frame :
    (f : Content) (cb : Option Bool) (p : MuteFilter)
    → FollowsBot p
    → FollowsBot (process_frame f cb p).0
unfolding process_frame should_mute strategy_mutes
FollowsBot-process_frame bot_started_speaking cb p h = ground arith
FollowsBot-process_frame bot_stopped_speaking cb p h = ground arith
FollowsBot-process_frame (start _) cb p h = ground arith
FollowsBot-process_frame _ cb p h = h

follows_run :
    (xs : List MuteInput) (p : MuteFilter)
    → FollowsBot p
    → (run xs p).is_muted ≡ (run xs p).bot_is_speaking
unfolding run
follows_run [] p h = h.1
follows_run (x ∷ xs) p h =
    follows_run xs (process_frame x.content x.callback p).0
      (FollowsBot-process_frame x.content x.callback p h)

-- With the strategy always alone, over every history of a new filter, it is muted exactly while the
-- bot speaks.
pub always_mutes_speech :
    (xs : List MuteInput)
    → (run xs (new_mute_filter (always ∷ []))).is_muted
      ≡ (run xs (new_mute_filter (always ∷ []))).bot_is_speaking
always_mutes_speech xs = follows_run xs (new_mute_filter (always ∷ [])) (refl, refl)

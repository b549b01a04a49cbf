-- ===== src/Processors/Interruption/Budget.antt =====
-- How often, and when, the controller interrupts the bot.
use voxray.Base.{
  ℕ, ◌+◌, ◌≤◌, Bool, true, false, not, ◌&&◌, Option, none, some, List, [], ◌∷◌, ◌++◌, ◌≡◌, arith,
  if◌then◌else◌, Bool-cases, inl, inr,
}
use voxray.Audio.Interruptions.{Strategy}
use voxray.Frames.{
  Text, Content, Direction, downstream, upstream, Out, down, up, start, transcription,
  bot_started_speaking, bot_stopped_speaking, user_started_speaking, cancel, end_frame, stop_frame,
  interruption,
}
use voxray.Processors.Interruption.{
  InterruptionController, bot_turn, hear, consider, observe, process_frame,
}
use voxray.Processors.Interruption.Words.{Input, run}

unfoldable pub is_interruption : Content → ℕ
is_interruption interruption = 1
is_interruption _ = 0

unfoldable pub is_bot_start : Content → ℕ
is_bot_start bot_started_speaking = 1
is_bot_start _ = 0

-- The interruptions that are sent downstream, and that come from upstream, and the bot's turns.
unfoldable pub interrupts : Out → ℕ
interrupts (down f) = is_interruption f
interrupts (up f) = 0

unfoldable pub sent : List Out → ℕ
sent [] = 0
sent (o ∷ os) = interrupts o + sent os

unfoldable pub at : (Content → ℕ) → Direction → Content → ℕ
at count downstream f = count f
at count upstream f = 0

unfoldable pub total : (Content → ℕ) → List Input → ℕ
total count [] = 0
total count (x ∷ xs) = at count x.dir x.content + total count xs

abbrev pub received : List Input → ℕ
received xs = total is_interruption xs

abbrev pub bot_turns : List Input → ℕ
bot_turns xs = total is_bot_start xs

-- One while an interruption can still be sent in this turn of the bot.
unfoldable pub budget : {S : Type 0} → InterruptionController S → ℕ
budget p = if p.bot_speaking && not p.interruption_sent then 1 else 0

sent-append : (os ps : List Out) → sent (os ++ ps) ≡ sent os + sent ps
unfolding sent
sent-append [] ps = omega arith
sent-append (o ∷ os) ps = omega (arith, sent-append os ps)

all_true : (a b i f : Bool) → (a && (b && (not i && f))) ≡ true → (b ≡ true) × (i ≡ false)
all_true a b i f e = ground arith

module _ {S : Type 0} (strategy : Strategy S) where
  -- What one step spends.
  abbrev Spends : ℕ → InterruptionController S → InterruptionController S × List Out → Type 0
  Spends extra p r = sent r.1 + budget r.0 ≤ budget p + extra

  hear-Spends :
      (s : S) (text : Text) (p : InterruptionController S)
      → p.bot_speaking ≡ true
      → p.interruption_sent ≡ false
      → Spends 0 p (hear strategy s text p)
  unfolding hear budget sent interrupts is_interruption
  hear-Spends s text p b i = ground arith

  consider-Spends :
      (o : Option S) (text : Text) (final : Bool) (p : InterruptionController S)
      → Spends 0 p (consider strategy o text final p)
  unfolding consider
  consider-Spends none text final p = unfold sent in omega arith
  consider-Spends (some s) text final p =
      elim (Bool-cases
        (p.allow_interruptions && (p.bot_speaking && (not p.interruption_sent && final)))) [
          | inl e ↦
              let flags =
                all_true p.allow_interruptions p.bot_speaking p.interruption_sent final e in
              rw e (hear-Spends s text p flags.0 flags.1)
          | inr e ↦ rw e (unfold sent in omega arith)
        ]

  observe-Spends :
      (f : Content) (p : InterruptionController S)
      → Spends (is_bot_start f) p (observe strategy f p)
  unfolding observe bot_turn budget sent is_bot_start
  observe-Spends (start allow) p = ground arith
  observe-Spends bot_started_speaking p = ground arith
  observe-Spends bot_stopped_speaking p = ground arith
  observe-Spends cancel p = ground arith
  observe-Spends end_frame p = ground arith
  observe-Spends stop_frame p = ground arith
  observe-Spends user_started_speaking p = ground arith
  observe-Spends (transcription user text final) p = consider-Spends p.heard text final p
  observe-Spends _ p = ground arith

  frame-Spends :
      (dir : Direction) (f : Content) (p : InterruptionController S)
      → Spends (at is_interruption dir f + at is_bot_start dir f) p (process_frame strategy dir f p)
  unfolding process_frame at sent interrupts
  frame-Spends upstream f p = unfold sent interrupts in omega arith
  frame-Spends downstream f p =
      let r = observe strategy f p in
      omega (arith, observe-Spends f p, sent-append r.1 (down f ∷ []))

  run-Spends :
      (xs : List Input) (p : InterruptionController S)
      → Spends (received xs + bot_turns xs) p (run strategy xs p)
  unfolding run total
  run-Spends [] p = unfold sent in omega arith
  run-Spends (x ∷ xs) p =
      let r = process_frame strategy x.dir x.content p in
      omega (
        arith,
        frame-Spends x.dir x.content p,
        run-Spends xs r.0,
        sent-append r.1 (run strategy xs r.0).1,
      )

  -- For every strategy and history, the controller sends no more interruptions than it received, and
  -- one for each turn of the bot: one more only if the bot was speaking uninterrupted at first.
  pub once_per_bot_turn :
      (xs : List Input) (p : InterruptionController S)
      → sent (run strategy xs p).1 ≤ budget p + received xs + bot_turns xs
  once_per_bot_turn xs p = omega (arith, run-Spends xs p)

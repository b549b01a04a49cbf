-- ===== src/Tests/Aggregators.antt =====
-- pkg/processors/aggregators at concrete frames.

use mathlib.Core.List.{Perm}
use voxray.Base.{Bool, true, false, List, [], ◌∷◌, ◌++◌, ◌≡◌, refl}
use voxray.Frames.{Frame, Content, downstream, text, user_stopped_speaking, input_dtmf}
use voxray.Processors.Gated.{new_gated}
use voxray.Processors.Gated.Kept.{Input, frames_of, run, frames_kept}
use voxray.Processors.Dtmf.{new_dtmf}
use voxray.Processors.Dtmf.Digits

abbrev hello : Frame
hello = record { id = 1; content = text [] }

abbrev quiet : Frame
quiet = record { id = 2; content = user_stopped_speaking }

-- The end of the user's speech opens the gate.
abbrev opens_at : Content → Bool
opens_at user_stopped_speaking = true
opens_at _ = false

abbrev opens : Frame → Bool
opens f = opens_at f.content

abbrev never : Frame → Bool
never f = false

abbrev held : List Input
held = record { dir = downstream; frame = hello } ∷ record { dir = downstream; frame = quiet } ∷ []

frames_kept_example :
    Perm
      ((run opens never never held (new_gated false downstream)).1
        ++ (run opens never never held (new_gated false downstream)).0.accumulator)
      ([] ++ frames_of held)
frames_kept_example = frames_kept opens never never (λ f. refl) held (new_gated false downstream)

abbrev accepting : Content → Bool
accepting f = false

abbrev typed : List Digits.Event
typed =
    Digits.frame downstream (input_dtmf 49)
    ∷ Digits.frame downstream (input_dtmf 50)
    ∷ Digits.timeout
    ∷ Digits.frame downstream (input_dtmf 51)
    ∷ Digits.frame downstream (input_dtmf 35)
    ∷ Digits.frame downstream (input_dtmf 52)
    ∷ []

keys_kept_example :
    Digits.spelled (68 ∷ []) (Digits.run accepting (λ d. refl) typed (new_dtmf 35 (68 ∷ []))).1
      ++ (Digits.run accepting (λ d. refl) typed (new_dtmf 35 (68 ∷ []))).0.buf
    ≡ [] ++ Digits.keys typed
keys_kept_example =
    Digits.keys_kept accepting (λ d. refl) typed (new_dtmf 35 (68 ∷ []))
      (tt, (tt, (tt, (tt, (tt, tt)))))

-- ===== src/Audio/Vad/Transitions.antt =====
-- The transitions of the VAD state machine over a stream of windows that are speech or not.
use voxray.Base.{
  ℕ, zero, suc, ◌+◌, ◌≤◌, ◌<◌, ◌≡◌, ◌⊎◌, Bool, true, false, List, [], ◌∷◌, arith, ◌==◌,
  if◌then◌else◌,
}
use voxray.Audio.Vad.{quiet, starting, speaking, stopping, Machine, step}

-- The machine over a stream of windows.
unfoldable pub run : ℕ → ℕ → Machine → List Bool → Machine
run sf st m [] = m
run sf st m (w ∷ ws) = run sf st (step sf st m w) ws

unfoldable pub repeat : ℕ → Bool → List Bool
repeat zero w = []
repeat (suc n) w = w ∷ repeat n w

starting_from :
    (sf st k c : ℕ) (m : Machine)
    → m.state ≡ starting
    → m.starting_count ≡ c
    → c < sf
    → k + c ≤ sf
    → (run sf st m (repeat k true)).state ≡ (if k + c == sf then speaking else starting)
unfolding run repeat step
starting_from sf st zero c m h e p q = ground arith
starting_from sf st (suc zero) c m h e p q = ground arith
starting_from sf st (suc (suc k)) c m h e p q =
    ground (arith, starting_from sf st (suc k) (c + 1) (step sf st m true))

-- From quiet, k windows of speech in a row lead to speaking if k is the number of start frames, and
-- to starting if it is smaller.
speech_starts :
    (sf st k : ℕ) (m : Machine)
    → m.state ≡ quiet
    → 0 < k
    → k ≤ sf
    → (run sf st m (repeat k true)).state ≡ (if k == sf then speaking else starting)
unfolding run repeat step
speech_starts sf st zero m h p q = absurd (omega arith)
speech_starts sf st (suc zero) m h p q = ground arith
speech_starts sf st (suc (suc k)) m h p q =
    ground (arith, starting_from sf st (suc k) 1 (step sf st m true))

stopping_from :
    (sf st k c : ℕ) (m : Machine)
    → m.state ≡ stopping
    → m.stopping_count ≡ c
    → c < st
    → k + c ≤ st
    → (run sf st m (repeat k false)).state ≡ (if k + c == st then quiet else stopping)
unfolding run repeat step
stopping_from sf st zero c m h e p q = ground arith
stopping_from sf st (suc zero) c m h e p q = ground arith
stopping_from sf st (suc (suc k)) c m h e p q =
    ground (arith, stopping_from sf st (suc k) (c + 1) (step sf st m false))

-- From speaking, k windows of silence in a row lead to quiet if k is the number of stop frames, and
-- to stopping if it is smaller.
silence_stops :
    (sf st k : ℕ) (m : Machine)
    → m.state ≡ speaking
    → 0 < k
    → k ≤ st
    → (run sf st m (repeat k false)).state ≡ (if k == st then quiet else stopping)
unfolding run repeat step
silence_stops sf st zero m h p q = absurd (omega arith)
silence_stops sf st (suc zero) m h p q = ground arith
silence_stops sf st (suc (suc k)) m h p q =
    ground (arith, stopping_from sf st (suc k) 1 (step sf st m false))

-- No run of windows equal to `w` reaches the length `n`, where `c` of them stand just before.
abbrev pub Shorter : Bool → ℕ → ℕ → List Bool → Type 0
Shorter w n c [] = Unit
Shorter true n c (true ∷ ws) = (c + 1 < n) × Shorter true n (c + 1) ws
Shorter true n c (false ∷ ws) = Shorter true n 0 ws
Shorter false n c (false ∷ ws) = (c + 1 < n) × Shorter false n (c + 1) ws
Shorter false n c (true ∷ ws) = Shorter false n 0 ws

-- The machine is in the middle of speech, with `c` silent windows just behind it.
abbrev pub IsTalking : ℕ → Machine → Type 0
IsTalking c m = ((m.state ≡ speaking) × (c ≡ 0)) ⊎ ((m.state ≡ stopping) × (m.stopping_count ≡ c))

IsTalking-silence :
    (sf st c : ℕ) (m : Machine)
    → IsTalking c m
    → c + 1 < st
    → IsTalking (c + 1) (step sf st m false)
unfolding step
IsTalking-silence sf st c m h p = ground arith

IsTalking-speech : (sf st c : ℕ) (m : Machine) → IsTalking c m → IsTalking 0 (step sf st m true)
unfolding step
IsTalking-speech sf st c m h = ground arith

talking_run :
    (sf st c : ℕ) (m : Machine) (ws : List Bool)
    → IsTalking c m
    → Shorter false st c ws
    → ((run sf st m ws).state ≡ speaking) ⊎ ((run sf st m ws).state ≡ stopping)
unfolding run
talking_run sf st c m [] h s = ground arith
talking_run sf st c m (true ∷ ws) h s =
    talking_run sf st 0 (step sf st m true) ws (IsTalking-speech sf st c m h) s
talking_run sf st c m (false ∷ ws) h s =
    talking_run sf st (c + 1) (step sf st m false) ws (IsTalking-silence sf st c m h s.0) s.1

-- Pauses shorter than the stop frames do not end speech, however many there are.
pub short_pauses :
    (sf st : ℕ) (m : Machine) (ws : List Bool)
    → m.state ≡ speaking
    → Shorter false st 0 ws
    → ((run sf st m ws).state ≡ speaking) ⊎ ((run sf st m ws).state ≡ stopping)
short_pauses sf st m ws h s = talking_run sf st 0 m ws (ground arith) s

abbrev pub IsListening : ℕ → Machine → Type 0
IsListening c m = ((m.state ≡ quiet) × (c ≡ 0)) ⊎ ((m.state ≡ starting) × (m.starting_count ≡ c))

IsListening-speech :
    (sf st c : ℕ) (m : Machine)
    → IsListening c m
    → c + 1 < sf
    → IsListening (c + 1) (step sf st m true)
unfolding step
IsListening-speech sf st c m h p = ground arith

IsListening-silence :
    (sf st c : ℕ) (m : Machine) → IsListening c m → IsListening 0 (step sf st m false)
unfolding step
IsListening-silence sf st c m h = ground arith

listening_run :
    (sf st c : ℕ) (m : Machine) (ws : List Bool)
    → IsListening c m
    → Shorter true sf c ws
    → ((run sf st m ws).state ≡ quiet) ⊎ ((run sf st m ws).state ≡ starting)
unfolding run
listening_run sf st c m [] h s = ground arith
listening_run sf st c m (false ∷ ws) h s =
    listening_run sf st 0 (step sf st m false) ws (IsListening-silence sf st c m h) s
listening_run sf st c m (true ∷ ws) h s =
    listening_run sf st (c + 1) (step sf st m true) ws (IsListening-speech sf st c m h s.0) s.1

-- Noises shorter than the start frames do not begin speech, however many there are.
pub short_noises :
    (sf st : ℕ) (m : Machine) (ws : List Bool)
    → m.state ≡ quiet
    → Shorter true sf 0 ws
    → ((run sf st m ws).state ≡ quiet) ⊎ ((run sf st m ws).state ≡ starting)
short_noises sf st m ws h s = listening_run sf st 0 m ws (ground arith) s

deaf_step :
    (st : ℕ) (m : Machine) (w : Bool)
    → (m.state ≡ quiet) ⊎ (m.state ≡ starting)
    → ((step 0 st m w).state ≡ quiet) ⊎ ((step 0 st m w).state ≡ starting)
unfolding step
deaf_step st m w h = ground arith

-- With no start frame, as StartSecs below half a window gives, no speech of any length is ever
-- reported: from quiet or starting the machine stays in quiet or starting.
deaf_without_start_frames :
    (st : ℕ) (m : Machine) (ws : List Bool)
    → (m.state ≡ quiet) ⊎ (m.state ≡ starting)
    → ((run 0 st m ws).state ≡ quiet) ⊎ ((run 0 st m ws).state ≡ starting)
unfolding run
deaf_without_start_frames st m [] h = h
deaf_without_start_frames st m (w ∷ ws) h =
    deaf_without_start_frames st (step 0 st m w) ws (deaf_step st m w h)

-- ===== src/Turn/Silence.antt =====
-- pkg/audio/turn/silence.go: end of turn by silence after speech. A method that holds the mutex is one
-- step; the clock's reading is an argument, in nanoseconds. The parameters keep the sign tests of the
-- source; `before` is Time.Before, and a cutoff is compared as `at + span < now`.
use voxray.Base.{
  ℕ, ◌+◌, ◌/◌, Bool, true, false, ◌&&◌, Option, none, some, List, [], ◌∷◌, ◌++◌, ltb, ◌==◌, length,
  if◌then◌else◌,
}
use voxray.Audio.Pcm.{Bytes}
use voxray.Audio.Floats.{Floats}

pub data EndOfTurnState : Type 0 where
  incomplete complete : EndOfTurnState

pub record Params (F : Type 0) : Type 0 where
  pub stop_secs : F
  pub pre_speech_ms : F
  pub max_duration_secs : F

pub record Chunk : Type 0 where
  pub at : ℕ
  pub bytes : Bytes

pub record SilenceAnalyzer (F : Type 0) : Type 0 where
  pub params : Params F
  pub sample_rate : ℕ
  pub init_sample_rate : Option ℕ
  pub buffer : List Chunk
  pub speech_triggered : Bool
  pub silence_ms : F
  pub speech_start_time : Option ℕ
  pub last_state : EndOfTurnState
  pub vad_start_secs : F

-- EndOfTurnResult: the state, and whether Err is set.
pub record EndOfTurnResult : Type 0 where
  pub state : EndOfTurnState
  pub is_err : Bool

module _ (fl : Floats) where
  open fl use {F, lit, of_nat, add, mul, div, trunc, le, lt}

  positive : F → Bool
  positive x = lt (lit 0 1) x

  -- x, if it is above 0
  given : F → F → F
  unfolding positive
  given x d = if positive x then x else d

  defaulted : F → F → F
  defaulted x d = if le x (lit 0 1) then d else x

  unfoldable pub new_analyzer : Params F → SilenceAnalyzer F
  unfolding defaulted
  new_analyzer p = record {
    params = record {
      stop_secs = defaulted p.stop_secs (lit 3 1);
      pre_speech_ms = defaulted p.pre_speech_ms (lit 500 1);
      max_duration_secs = defaulted p.max_duration_secs (lit 8 1);
    };
    sample_rate = 0;
    init_sample_rate = none;
    buffer = [];
    speech_triggered = false;
    silence_ms = lit 0 1;
    speech_start_time = none;
    last_state = incomplete;
    vad_start_secs = lit 0 1;
  }

  unfoldable pub new_analyzer_with_sample_rate : Params F → ℕ → SilenceAnalyzer F
  unfolding new_analyzer
  new_analyzer_with_sample_rate p rate = record (new_analyzer p) {
    sample_rate = rate;
    init_sample_rate = some rate;
  }

  take_init_rate : Option ℕ → SilenceAnalyzer F → SilenceAnalyzer F
  take_init_rate none s = s
  take_init_rate (some r) s = record s { sample_rate = r; init_sample_rate = none }

  unfoldable pub set_sample_rate : ℕ → SilenceAnalyzer F → SilenceAnalyzer F
  unfolding take_init_rate
  set_sample_rate rate s =
      let t = take_init_rate s.init_sample_rate s in
      if ltb 0 rate then record t { sample_rate = rate } else t

  unfoldable pub update_vad_start_secs : F → SilenceAnalyzer F → SilenceAnalyzer F
  update_vad_start_secs secs s = record s { vad_start_secs = secs }

  unfoldable pub update_params : Params F → SilenceAnalyzer F → SilenceAnalyzer F
  unfolding given
  update_params p s = record s {
    params = record {
      stop_secs = given p.stop_secs s.params.stop_secs;
      pre_speech_ms = given p.pre_speech_ms s.params.pre_speech_ms;
      max_duration_secs = given p.max_duration_secs s.params.max_duration_secs;
    };
  }

  is_incomplete : EndOfTurnState → Bool
  is_incomplete incomplete = true
  is_incomplete complete = false

  unfoldable pub clear_locked : EndOfTurnState → SilenceAnalyzer F → SilenceAnalyzer F
  unfolding is_incomplete
  clear_locked turn_state s = record s {
    speech_triggered = is_incomplete turn_state;
    buffer = [];
    speech_start_time = none;
    silence_ms = lit 0 1;
    last_state = incomplete;
  }

  unfoldable pub clear : SilenceAnalyzer F → SilenceAnalyzer F
  unfolding clear_locked
  clear s = clear_locked complete s

  start_time : Option ℕ → ℕ → Option ℕ
  start_time none now = some now
  start_time (some t) now = some t

  unfoldable pub on_speech : ℕ → SilenceAnalyzer F → SilenceAnalyzer F
  unfolding start_time
  on_speech now s = record s {
    silence_ms = lit 0 1;
    speech_triggered = true;
    speech_start_time = start_time s.speech_start_time now;
  }

  unfoldable pub chunk_ms : Bytes → ℕ → F
  chunk_ms bytes rate = div (of_nat (length bytes / 2)) (div (of_nat rate) (lit 1000 1))

  -- The silence is now `silence` long.
  add_silence : F → SilenceAnalyzer F → SilenceAnalyzer F × EndOfTurnState
  unfolding clear_locked
  add_silence silence s =
      if le (mul s.params.stop_secs (lit 1000 1)) silence
      then (clear_locked complete (record s { silence_ms = silence }), complete)
      else (record s { silence_ms = silence }, incomplete)

  on_silence : Bytes → SilenceAnalyzer F → SilenceAnalyzer F × EndOfTurnState
  unfolding add_silence
  on_silence bytes s =
      if s.speech_triggered && ltb 0 s.sample_rate
      then add_silence (add s.silence_ms (chunk_ms bytes s.sample_rate)) s
      else (s, incomplete)

  -- The longest time that a chunk is kept, in nanoseconds.
  unfoldable pub max_buffer_time : SilenceAnalyzer F → ℕ
  max_buffer_time s = trunc (
      mul
        (add
          (add (add (div s.params.pre_speech_ms (lit 1000 1)) s.vad_start_secs) s.params.stop_secs)
          s.params.max_duration_secs)
        (lit 1000000000 1))

  -- for len(s.buffer) > 0 && s.buffer[0].at.Before(cutoff)
  unfoldable pub trim : ℕ → ℕ → List Chunk → List Chunk
  trim span now [] = []
  trim span now (c ∷ cs) =
      let rest = trim span now cs in if ltb (c.at + span) now then rest else c ∷ cs

  judge : Bool → ℕ → Bytes → SilenceAnalyzer F → SilenceAnalyzer F × EndOfTurnState
  unfolding on_speech on_silence
  judge true now bytes s = (on_speech now s, incomplete)
  judge false now bytes s = on_silence bytes s

  append_nonempty : ℕ → Bytes → Bool → SilenceAnalyzer F → SilenceAnalyzer F × EndOfTurnState
  unfolding judge
  append_nonempty now bytes is_speech s =
      let (t, state) =
        judge is_speech now bytes
          (record s { buffer = s.buffer ++ record { at = now; bytes = bytes } ∷ [] }) in
      (record t { buffer = trim (max_buffer_time t) now t.buffer; last_state = state }, state)

  unfoldable pub append_audio :
      ℕ → Bytes → Bool → SilenceAnalyzer F → SilenceAnalyzer F × EndOfTurnState
  unfolding append_nonempty
  append_audio now bytes is_speech s =
      if length bytes == 0 then (s, s.last_state) else append_nonempty now bytes is_speech s

  -- AnalyzeEndOfTurnAsync: the result that its goroutine sends, where `early` and `late` say whether
  -- the context is cancelled at its two tests.
  unfoldable pub analyze_end_of_turn_async : Bool → Bool → SilenceAnalyzer F → EndOfTurnResult
  analyze_end_of_turn_async early late s =
      if early
      then record { state = incomplete; is_err = true }
      else if late
      then record { state = incomplete; is_err = true }
      else record { state = s.last_state; is_err = false }

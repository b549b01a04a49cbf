-- ===== src/Audio/Vad.antt =====
-- pkg/audio/vad/analyzer.go and vad.go: the VAD analyzer. A method that holds the mutex is one
-- step. The analyzer is used only once its constructor has set the state, so the test for state 0 in
-- `recompute` is left out; a negative sample rate is the rate 0, as SetSampleRate makes it.
pub mod Energy
pub mod Transitions
pub mod Loop
pub mod Windows
use voxray.Base.{
  ℕ, zero, suc, ◌*◌, ◌+◌, Bool, true, false, Option, none, some, List, [], ◌∷◌, ◌++◌, ◌&&◌, ◌||◌,
  leb, ltb, ◌==◌, if◌then◌else◌, length, take, drop,
}
use voxray.Audio.Pcm.{Bytes, sample_of}
use voxray.Audio.Floats.{Floats}

pub data State : Type 0 where
  quiet starting speaking stopping : State

pub record Params (F : Type 0) : Type 0 where
  pub confidence : F
  pub start_secs : F
  pub stop_secs : F
  pub min_volume : F
  pub threshold : F

-- The interface confidenceBackend; `none` is an error.
pub record Backend (F : Type 0) : Type 0 where
  pub num_frames_required : ℕ → ℕ
  pub voice_confidence : Bytes → ℕ → Option F

-- The state machine's part of baseAnalyzer.
pub record Machine : Type 0 where
  pub state : State
  pub starting_count : ℕ
  pub stopping_count : ℕ

pub record Analyzer (F : Type 0) : Type 0 where
  pub params : Params F
  pub sample_rate : ℕ
  pub num_channels : ℕ
  pub vad_frames : ℕ
  pub vad_frames_num_byte : ℕ
  pub buf : Bytes
  pub machine : Machine
  pub start_frames : ℕ
  pub stop_frames : ℕ
  pub prev_volume : F
  pub last_confidence : F
  pub last_volume : F

-- The switch on the state, for a window that is speech and for one that is not.
on_speech : State → Machine → Machine
on_speech quiet m = record { state = starting; starting_count = 1; stopping_count = 0 }
on_speech starting m = record m { starting_count = m.starting_count + 1 }
on_speech stopping m = record m { state = speaking; stopping_count = 0 }
on_speech speaking m = m

on_silence : State → Machine → Machine
on_silence starting m = record m { state = quiet; starting_count = 0 }
on_silence speaking m = record m { state = stopping; stopping_count = 1 }
on_silence stopping m = record m { stopping_count = m.stopping_count + 1 }
on_silence quiet m = m

-- The two tests at the end of a round: enough speech, enough silence.
settle_starting : State → ℕ → Machine → Machine
settle_starting starting start_frames m =
    if leb start_frames m.starting_count && ltb 0 start_frames
    then record m { state = speaking; starting_count = 0 }
    else m
settle_starting _ start_frames m = m

settle_stopping : State → ℕ → Machine → Machine
settle_stopping stopping stop_frames m =
    if leb stop_frames m.stopping_count && ltb 0 stop_frames
    then record m { state = quiet; stopping_count = 0 }
    else m
settle_stopping _ stop_frames m = m

-- One round of the loop of Analyze, as far as the state and its counters go.
unfoldable pub step : ℕ → ℕ → Machine → Bool → Machine
unfolding on_speech on_silence settle_starting settle_stopping
step start_frames stop_frames m is_speech =
    let m₁ = if is_speech then on_speech m.state m else on_silence m.state m in
    let m₂ = settle_starting m₁.state start_frames m₁ in settle_stopping m₂.state stop_frames m₂

module _ (fl : Floats) where
  open fl use {F, lit, of_int, of_nat, add, sub, mul, div, sqrt, round, trunc, le, lt}

  zero_f : F
  zero_f = lit 0 1

  or_default : F → F → F
  or_default x d = if le x (lit 0 1) then d else x

  unfoldable pub normalize : Params F → Params F
  unfolding or_default
  normalize p = record {
    confidence = or_default p.confidence (lit 7 10);
    start_secs = or_default p.start_secs (lit 2 10);
    stop_secs = or_default p.stop_secs (lit 2 10);
    min_volume = or_default p.min_volume (lit 2 10);
    threshold = or_default p.threshold (lit 2 100);
  }

  unfoldable pub new_base_analyzer : Analyzer F
  unfolding normalize
  new_base_analyzer = record {
    params = normalize (record {
      confidence = lit 0 1;
      start_secs = lit 0 1;
      stop_secs = lit 0 1;
      min_volume = lit 0 1;
      threshold = lit 0 1;
    });
    sample_rate = 0;
    num_channels = 1;
    vad_frames = 0;
    vad_frames_num_byte = 0;
    buf = [];
    machine = record { state = quiet; starting_count = 0; stopping_count = 0 };
    start_frames = 0;
    stop_frames = 0;
    prev_volume = lit 0 1;
    last_confidence = lit 0 1;
    last_volume = lit 0 1;
  }

  -- The sum of the squares of the samples, and their number; an odd last byte is not read.
  sum_squares : F → ℕ → Bytes → F × ℕ
  sum_squares acc n (lo ∷ hi ∷ rest) =
      let fs = div (of_int (sample_of lo hi)) (lit 32768 1) in
      sum_squares (add acc (mul fs fs)) (n + 1) rest
  sum_squares acc n _ = (acc, n)

  unfoldable pub rms : Bytes → F
  unfolding sum_squares
  rms buf = let (total, samples) = sum_squares (lit 0 1) 0 buf in sqrt (div total (of_nat samples))

  clamp_unit : F → F
  clamp_unit r = if lt r (lit 0 1) then lit 0 1 else if lt (lit 1 1) r then lit 1 1 else r

  unfoldable pub calculate_volume : Bytes → F
  unfolding rms clamp_unit
  calculate_volume buf = if ltb (length buf) 2 then lit 0 1 else clamp_unit (rms buf)

  exp_smoothing : F → F → F → F
  exp_smoothing value prev factor = add prev (mul factor (sub value prev))

  -- The methods, over the backend of the analyzer.
  module _ (backend : Backend F) where
    frames_needed : ℕ → ℕ
    frames_needed rate =
        let n = backend.num_frames_required rate in
        if n == 0 then trunc (mul (lit 1 100) (of_nat rate)) else n

    frames_per_sec : ℕ → ℕ → F
    frames_per_sec frames rate =
        let r = div (of_nat frames) (of_nat rate) in if le r (lit 0 1) then lit 1 100 else r

    unfoldable pub recompute : Analyzer F → Analyzer F
    unfolding frames_needed frames_per_sec
    recompute a =
        if a.sample_rate == 0
        then a
        else let frames = frames_needed a.sample_rate in
          let per_sec = frames_per_sec frames a.sample_rate in
          record a {
            vad_frames = frames;
            vad_frames_num_byte = frames * a.num_channels * 2;
            start_frames = round (div a.params.start_secs per_sec);
            stop_frames = round (div a.params.stop_secs per_sec);
            machine = record { state = a.machine.state; starting_count = 0; stopping_count = 0 };
          }

    unfoldable pub set_sample_rate : ℕ → Analyzer F → Analyzer F
    unfolding recompute
    set_sample_rate rate a =
        if rate == 0
        then record a { sample_rate = 0 }
        else recompute (record a { sample_rate = rate })

    unfoldable pub set_params : Params F → Analyzer F → Analyzer F
    unfolding recompute normalize
    set_params p a = recompute (record a { params = normalize p })

    confidence_of : Option F → F
    confidence_of none = lit 0 1
    confidence_of (some c) = c

    -- One round of the loop, on a window that has been cut off the buffer.
    unfoldable pub analyze_window : Bytes → Analyzer F → Analyzer F
    unfolding confidence_of exp_smoothing
    analyze_window window a =
        let conf = confidence_of (backend.voice_confidence window a.sample_rate) in
        let vol = exp_smoothing (calculate_volume window) a.prev_volume (lit 2 10) in
        record a {
          prev_volume = vol;
          last_confidence = conf;
          last_volume = vol;
          machine =
              step a.start_frames a.stop_frames a.machine
                (le a.params.confidence conf && le a.params.min_volume vol);
        }

    -- for len(a.buf) >= numRequired; the fuel is the length of the buffer.
    unfoldable pub analyze_loop : ℕ → ℕ → Analyzer F → Analyzer F
    analyze_loop zero num_required a = a
    analyze_loop (suc fuel) num_required a =
        let rest =
          analyze_loop fuel num_required (
            analyze_window (take num_required a.buf)
              (record a { buf = drop num_required a.buf })) in
        if leb num_required (length a.buf) then rest else a

    -- Analyze leaves the state behind; what it returns are its fields.
    unfoldable pub analyze : Bytes → Analyzer F → Analyzer F
    analyze buf a =
        if a.sample_rate == 0 || a.vad_frames_num_byte == 0
        then a
        else let b = record a { buf = a.buf ++ buf } in
          analyze_loop (length b.buf) b.vad_frames_num_byte b

    unfoldable pub reported : Analyzer F → State × F × F
    reported a = (a.machine.state, a.last_confidence, a.last_volume)

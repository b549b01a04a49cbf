-- ===== src/Turn/Audio.antt =====
-- TurnProcessor neither loses, repeats nor reorders audio: what it has pushed, then what it buffers,
-- is what it was given.
use voxray.Base.{
  Bool, true, false, none, some, List, [], ◌∷◌, ◌++◌, map, ◌≡◌, refl, sym, ap, ◌∙◌, arith, length,
  ◌==◌, append-nil, append_assoc, Bool-cases, inl, inr,
}
use voxray.Audio.Pcm.{Bytes}
use voxray.Frames.{
  Content, Direction, downstream, upstream, Out, down, up, cancel, audio_raw, vad_params_update,
}
use voxray.Turn.Controller.{
  Controller, vad_start_strategy, silence_stop_strategy, process_vad_update, meanwhile,
}
use voxray.Turn.Processor.{
  Detector, TurnAnalyzer, TurnProcessor, Poll, process_audio, process_frame, end_of_chunk,
}
use voxray.Turn.Silence.{EndOfTurnState, incomplete, complete}

pub record Input : Type 0 where
  pub dir : Direction
  pub content : Content
  pub poll : Poll

-- The audio of one frame that goes downstream.
audio_of : Content → Bytes
audio_of (audio_raw b) = b
audio_of _ = []

audio_in : Direction → Content → Bytes
audio_in downstream f = audio_of f
audio_in upstream f = []

audio_out : Out → Bytes
audio_out (down f) = audio_of f
audio_out (up f) = []

-- The audio that a list of inputs brings, and that a list of outputs carries downstream.
pub given : List Input → Bytes
given [] = []
given (x ∷ xs) = audio_in x.dir x.content ++ given xs

pub pushed_audio : List Out → Bytes
pushed_audio [] = []
pushed_audio (o ∷ os) = audio_out o ++ pushed_audio os

abbrev NotCancel : Content → Type 0
NotCancel cancel = ⊥
NotCancel (audio_raw _) = Unit
NotCancel _ = Unit

abbrev pub NoCancel : List Input → Type 0
NoCancel [] = Unit
NoCancel (x ∷ xs) = NotCancel x.content × NoCancel xs

pushed_audio-append :
    (os ps : List Out) → pushed_audio (os ++ ps) ≡ pushed_audio os ++ pushed_audio ps
unfolding pushed_audio
pushed_audio-append [] ps = refl
pushed_audio-append (o ∷ os) ps = rw (pushed_audio-append os ps, append_assoc)

controller_silent :
    (fails : Content → Bool) (b : Bool) (c : Controller Bool Bool)
    → pushed_audio (
        map down
          (process_vad_update vad_start_strategy silence_stop_strategy (some fails) [] b c).pushed)
      ≡ []
unfolding process_vad_update meanwhile pushed_audio audio_out audio_of
controller_silent fails true c = ground arith
controller_silent fails false c = ground arith

module _ {D A : Type 0} (detector : Detector D) (analysis : TurnAnalyzer A)
    (fails : Content → Bool) where
  pub run : List Input → TurnProcessor D A → TurnProcessor D A × List Out
  run [] p = (p, [])
  run (x ∷ xs) p =
      let (q, outs) = process_frame detector analysis fails x.dir x.content x.poll p in
      let (r, more) = run xs q in (r, outs ++ more)

  end_kept :
      (state : EndOfTurnState) (poll : Poll) (p : TurnProcessor D A)
      → let r = end_of_chunk detector analysis fails state poll p in
        pushed_audio r.1 ++ r.0.buffer ≡ p.buffer
  unfolding end_of_chunk pushed_audio audio_out audio_of
  end_kept complete poll p = simp append-nil
  end_kept incomplete none p = ground arith
  end_kept incomplete (some true) p = ground (arith, append-nil p.buffer)
  end_kept incomplete (some false) p = ground arith

  empty_chunk : (chunk : Bytes) → (length chunk == 0) ≡ true → chunk ≡ []
  empty_chunk [] h = refl
  empty_chunk (x ∷ xs) h = ground arith

  -- The controller's frames come before those of the end of the turn.
  chunk_kept :
      (chunk : Bytes) (poll : Poll) (p : TurnProcessor D A)
      → let r = process_audio detector analysis fails chunk poll p in
        pushed_audio r.1 ++ r.0.buffer ≡ p.buffer ++ chunk
  unfolding process_audio
  chunk_kept chunk poll p = elim (Bool-cases (length chunk == 0)) [
    | inl e ↦ rw (e, empty_chunk chunk e) (unfold pushed_audio in sym (append-nil p.buffer))
    | inr e ↦ rw (e, pushed_audio-append, controller_silent, end_kept) refl
  ]

  frame_kept :
      (dir : Direction) (f : Content) (poll : Poll) (p : TurnProcessor D A)
      → NotCancel f
      → let r = process_frame detector analysis fails dir f poll p in
        pushed_audio r.1 ++ r.0.buffer ≡ p.buffer ++ audio_in dir f
  unfolding process_frame pushed_audio audio_out audio_of audio_in
  frame_kept downstream (audio_raw chunk) poll p n = chunk_kept chunk poll p
  frame_kept downstream (vad_params_update stop start) poll p n = sym (append-nil p.buffer)
  frame_kept downstream cancel poll p n = absurd n
  frame_kept downstream _ poll p n = sym (append-nil p.buffer)
  frame_kept upstream (vad_params_update stop start) poll p n = sym (append-nil p.buffer)
  frame_kept upstream _ poll p n = sym (append-nil p.buffer)

  -- Over any frames without a CancelFrame, whatever the detector, the analyzer and the pending results
  -- say, the audio pushed downstream followed by the audio still buffered is the audio buffered at
  -- first followed by the audio received.
  pub audio_conserved :
      (xs : List Input) (p : TurnProcessor D A)
      → NoCancel xs
      → pushed_audio (run xs p).1 ++ (run xs p).0.buffer ≡ p.buffer ++ given xs
  unfolding run given
  audio_conserved [] p n = unfold pushed_audio in sym (append-nil p.buffer)
  audio_conserved (x ∷ xs) p n =
      let r = process_frame detector analysis fails x.dir x.content x.poll p in
      ap (λ l. l ++ (run xs r.0).0.buffer) (pushed_audio-append r.1 (run xs r.0).1)
      ∙ append_assoc (pushed_audio r.1) (pushed_audio (run xs r.0).1) (run xs r.0).0.buffer
      ∙ ap (λ l. pushed_audio r.1 ++ l) (audio_conserved xs r.0 n.1)
      ∙ sym (append_assoc (pushed_audio r.1) r.0.buffer (given xs))
      ∙ ap (λ l. l ++ given xs) (frame_kept x.dir x.content x.poll p n.0)
      ∙ append_assoc p.buffer (audio_in x.dir x.content) (given xs)

-- ===== src/Processors/Gated/Kept.antt =====
-- The gated aggregator neither loses nor repeats a frame.
use mathlib.Core.List.{Perm, perm_append_singleton}
use mathlib.Core.List.Perm
use voxray.Base.{
  Bool, true, false, not, List, [], ◌∷◌, ◌++◌, ◌≡◌, ◌⊎◌, inl, inr, refl, arith, if◌then◌else◌,
  append-nil, append_assoc, Bool-cases,
}
use voxray.Frames.{Frame, Direction}
use voxray.Processors.Filters.{same_direction}
use voxray.Processors.Gated.{Gated, Result, is_system_frame, push_all, process_frame, pass_gate}

pub record Input : Type 0 where
  pub dir : Direction
  pub frame : Frame

pub frames_of : List Input → List Frame
frames_of [] = []
frames_of (x ∷ xs) = x.frame ∷ frames_of xs

module _ (opens closes fails : Frame → Bool) where
  abbrev step : Input → Gated → Result
  step x p = process_frame opens closes fails x.dir x.frame p

  pub run : List Input → Gated → Gated × List Frame
  run [] p = (p, [])
  run (x ∷ xs) p = let r = step x p in let (q, more) = run xs r.gated in (q, r.pushed ++ more)

  module _ (accepts : (f : Frame) → fails f ≡ false) where
    push_all_accepted : (fs : List Frame) → (push_all opens closes fails fs).0 ≡ fs
    unfolding push_all
    push_all_accepted [] = refl
    push_all_accepted (f ∷ fs) = ground (arith, accepts f, push_all_accepted fs)

    Perm-pass_gate :
        (was is : Bool) (f : Frame) (p : Gated)
        → let r = pass_gate opens closes fails was is f p in
          Perm (r.pushed ++ r.gated.accumulator) (p.accumulator ++ f ∷ [])
    unfolding pass_gate
    Perm-pass_gate false true f p =
        rw (accepts f, push_all_accepted p.accumulator, append-nil)
          (Perm.symm (perm_append_singleton f p.accumulator))
    Perm-pass_gate true true f p = Perm.symm (perm_append_singleton f p.accumulator)
    Perm-pass_gate false false f p = Perm.refl _
    Perm-pass_gate true false f p = Perm.refl _

    Perm-step :
        (x : Input) (p : Gated)
        → let r = step x p in Perm (r.pushed ++ r.gated.accumulator) (p.accumulator ++ x.frame ∷ [])
    unfolding process_frame
    Perm-step x p = elim (Bool-cases (is_system_frame x.frame.content)) [
      | inl s ↦ rw s (Perm.symm (perm_append_singleton x.frame p.accumulator))
      | inr s ↦ rw s (elim (Bool-cases (same_direction x.dir p.direction)) [
        | inr d ↦ rw d (Perm.symm (perm_append_singleton x.frame p.accumulator))
        | inl d ↦ rw d (
            Perm-pass_gate p.gate_open (if p.gate_open then not (closes x.frame) else opens x.frame)
              x.frame p)
      ])
    ]

    -- If the next processor accepts every frame, then whatever opens and closes the gate, the frames
    -- pushed and those still held back are together those held back at first and those received, each
    -- as often.
    pub frames_kept :
        (xs : List Input) (p : Gated)
        → Perm ((run xs p).1 ++ (run xs p).0.accumulator) (p.accumulator ++ frames_of xs)
    unfolding run frames_of
    frames_kept [] p = rw append-nil (Perm.refl _)
    frames_kept (x ∷ xs) p =
        let r = step x p in
        rw (append_assoc r.pushed (run xs r.gated).1 (run xs r.gated).0.accumulator) (
          Perm.trans (Perm.append_left r.pushed (frames_kept xs r.gated)) (
            rw
              (
                ← append_assoc r.pushed r.gated.accumulator (frames_of xs),
                ← append_assoc p.accumulator (x.frame ∷ []) (frames_of xs),
              )
              (Perm.append_right (frames_of xs) (Perm-step x p))))

  -- Frames wait only behind a closed gate.
  abbrev pub IsTidy : Gated → Type 0
  IsTidy p = (p.gate_open ≡ false) ⊎ (p.accumulator ≡ [])

  IsTidy-pass_gate :
      (was is : Bool) (f : Frame) (p : Gated)
      → p.gate_open ≡ was
      → IsTidy p
      → IsTidy (pass_gate opens closes fails was is f p).gated
  unfolding pass_gate
  IsTidy-pass_gate false true f p e h = ground arith
  IsTidy-pass_gate true true f p e h = ground arith
  IsTidy-pass_gate false false f p e h = ground arith
  IsTidy-pass_gate true false f p e h = ground arith

  IsTidy-step : (x : Input) (p : Gated) → IsTidy p → IsTidy (step x p).gated
  unfolding process_frame
  IsTidy-step x p h = elim (Bool-cases (is_system_frame x.frame.content)) [
    | inl s ↦ rw s h
    | inr s ↦ rw s (elim (Bool-cases (same_direction x.dir p.direction)) [
      | inr d ↦ rw d h
      | inl d ↦ rw d (
          IsTidy-pass_gate p.gate_open (if p.gate_open then not (closes x.frame) else opens x.frame)
            x.frame p refl h)
    ])
  ]

  -- From a processor that holds frames back only behind a closed gate, over every history and
  -- whichever pushes fail, frames are held back only behind a closed gate.
  pub open_gate_empty : (xs : List Input) (p : Gated) → IsTidy p → IsTidy (run xs p).0
  unfolding run
  open_gate_empty [] p h = h
  open_gate_empty (x ∷ xs) p h = open_gate_empty xs (step x p).gated (IsTidy-step x p h)

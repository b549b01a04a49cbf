-- ===== src/Pipeline.antt =====
-- pkg/pipeline: several branches that run side by side, and services that are switched between.
-- A branch is a parameter: what it emits for a frame that is pushed into it, in which direction, and
-- whether the push returns an error.
pub mod Task
pub mod Once
pub mod Chain
pub mod Parallel
pub mod SyncParallel
pub mod Switcher
use voxray.Base.{Bool, List}
use voxray.Frames.{Frame}

pub record Emitted : Type 0 where
  pub downward : List Frame
  pub upward : List Frame
  pub fails : Bool

abbrev pub Branch : Type 0
Branch = Frame → Emitted

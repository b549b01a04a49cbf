-- ===== src/Audio/Floats.antt =====
-- The float64 operations that pkg/audio uses. Nothing is assumed of them but their types, so what is
-- proved over them holds of IEEE arithmetic, rounding and NaN included.
use voxray.Base.{ℕ, Bool}
use voxray.Base.Int.{ℤ}

pub record Floats : Type 1 where
  pub F : Type 0
  -- a / b, for a literal of the source
  pub lit : ℕ → ℕ → F
  pub of_int : ℤ → F
  pub of_nat : ℕ → F
  pub add : F → F → F
  pub sub : F → F → F
  pub mul : F → F → F
  pub div : F → F → F
  pub sqrt : F → F
  pub round : F → ℕ  -- int(math.Round(x)), where a negative result counts as 0
  pub trunc : F → ℕ  -- int(x), where a negative result counts as 0
  pub le : F → F → Bool
  pub lt : F → F → Bool

-- ===== src/Base/Float.antt =====
-- Go's `float64`, of which the model uses conversions and arithmetic only: a parameter.
use vibe_switch.Base.Int.{ℤ}
use mathlib.Core.Bool.{Bool}
use Prim.Native.Nat.{ℕ}

pub record Floats : Type 1 where
  pub Float : Type 0
  pub of_uint : ℕ → Float
  pub of_int : ℤ → Float
  pub div : Float → Float → Float
  pub mul : Float → Float → Float
  pub le : Float → Float → Bool
  -- `int(f)`, some integer where the value is out of range
  pub to_int : Float → ℤ

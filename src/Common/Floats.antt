-- ===== src/Common/Floats.antt =====
-- Go's float64 as an interface: its operations are those of the language, not of the program.
use Prim.Native.Nat.{ℕ}
use mathlib.Core.Bool.{Bool}

pub record Floats : Type 1 where
  pub Float : Type 0
  -- `float64(n)` of an unsigned integer
  pub of_uint : ℕ → Float
  -- `Seconds()` of a duration in nanoseconds
  pub seconds : ℕ → Float
  pub div : Float → Float → Float
  pub add : Float → Float → Float
  pub sub : Float → Float → Float
  pub mul : Float → Float → Float
  -- `a > b`, `a <= b` and `a == b`
  pub gt : Float → Float → Bool
  pub le : Float → Float → Bool
  pub eq : Float → Float → Bool

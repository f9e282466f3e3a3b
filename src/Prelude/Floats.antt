-- ===== src/Prelude/Floats.antt =====
-- Python's floats, by their `repr`: the arithmetic of the machine is a parameter.
use Prim.Native.String.{String}
use mathlib.Core.Bool.{Bool}
use rdpflux.Prelude.Int.{ℤ}

pub record Floats : Type 0 where
  -- `float(n)` of an integer
  pub of_int : ℤ → String
  pub le : String → String → Bool
  pub is_finite : String → Bool
  pub mul : String → String → String
  pub div : String → String → String
  -- `round(x)`
  pub round : String → ℤ

-- ===== src/Prelude/Floats.antt =====
-- `float64` is a parameter: its values, and the operations that the program uses. No law is assumed.
use Prim.Native.Nat.{ℕ}
use mathlib.Core.Bool.{Bool}
use mathlib.Core.Option.{Option}
use mathlib.Core.List.{List}
use process_exporter.Prelude.Words.{ℤ}

pub record Float64 (F : Type 0) : Type 0 where
  pub fzero : F
  pub fadd : F → F → F
  pub fsub : F → F → F
  pub fdiv : F → F → F
  pub flt : F → F → Bool
  pub of_int : ℤ → F
  pub of_uint : ℕ → F
  -- `strconv.ParseFloat(s, 64)`; `none` is an error
  pub parse_float : List ℕ → Option F

-- ===== src/Prelude/Platform.antt =====
-- The functions of the JavaScript runtime whose values the model leaves open. `parse` is
-- `Date.parse`, with `none` for NaN, and `to_iso_string` is `new Date(t).toISOString()`; instants are
-- milliseconds, counted from the earliest instant that a `Date` holds. `is_zero` is the test
-- `Number(text) === 0`; `trim` and `to_lower_case` are the string methods.
use Prim.Native.Nat.{ℕ}
use Prim.Native.String.{String}
use mathlib.Core.Bool.{Bool}
use mathlib.Core.Option.{Option}

pub record Runtime : Type 0 where
  pub parse : String → Option ℕ
  pub to_iso_string : ℕ → String
  pub is_zero : String → Bool
  pub trim : String → String
  pub to_lower_case : String → String

-- ===== src/Common/Strings.antt =====
-- Python's methods on texts that work on more than equality, as a record. Nothing is assumed of them.
use Prim.Native.Nat.{ℕ}
use Prim.Native.String.{String}
use mathlib.Core.Bool.{Bool}
use aegis_soc.Common.Json.{Value}

pub record Strings : Type 0 where
  -- `s.lower()` and `s.strip()`
  pub lower : String → String
  pub strip : String → String
  -- `s.replace("_", "")`
  pub without_underscores : String → String
  -- `s.endswith(t)`
  pub ends_with : String → String → Bool
  -- `s.partition("|")`, without the separator
  pub partition_bar : String → String
  pub after_bar : String → String
  -- `len(s)`
  pub len : String → ℕ
  -- `str(v)`
  pub text_of : Value → String

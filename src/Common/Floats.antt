-- ===== src/Common/Floats.antt =====
-- Python's floats, as far as the program uses them: a type with its literals, comparison and
-- arithmetic. Nothing is assumed of them here; a theorem that needs a law names it.
use Prim.Native.Nat.{ℕ, ◌*◌}
use mathlib.Core.Path.{◌≡◌}
use mathlib.Core.Bool.{Bool, true, false}
use aegis_soc.Common.Tests.{if◌then◌else◌}

pub record Floats : Type 1 where
  pub Float : Type 0
  -- the literal n / 1000
  pub milli : ℕ → Float
  -- `a < b`
  pub lt : Float → Float → Bool
  -- `a <= b`
  pub le : Float → Float → Bool
  pub add : Float → Float → Float
  pub mul : Float → Float → Float
  pub sub : Float → Float → Float
  pub div : Float → Float → Float
  -- `math.sqrt`
  pub sqrt : Float → Float
  -- `math.exp`, `-x` and `int(x)`
  pub exp : Float → Float
  pub neg : Float → Float
  pub to_int : Float → ℕ
  -- `round(x, 4)`
  pub round4 : Float → Float
  -- `round(x, 3)`
  pub round3 : Float → Float

-- What holds of `<` where no operand is NaN: it is a strict weak order.
pub record IsOrder (f : Floats) : Type 0 where
  pub irrefl : (a : f.Float) → f.lt a a ≡ false
  pub trans_ge : (a b c : f.Float) → f.lt a b ≡ false → f.lt b c ≡ false → f.lt a c ≡ false
  pub asymm : (a b : f.Float) → f.lt a b ≡ true → f.lt b a ≡ false

module _ (f : Floats) where
  -- `a >= b`
  abbrev pub ge : f.Float → f.Float → Bool
  ge a b = f.le b a

  -- `min(a, b)`
  abbrev pub fmin : f.Float → f.Float → f.Float
  fmin a b = if f.lt b a then b else a

  -- `max(a, b)`
  abbrev pub fmax : f.Float → f.Float → f.Float
  fmax a b = if f.lt a b then b else a

  -- an `int` where a float is wanted
  abbrev pub of_int : ℕ → f.Float
  of_int n = f.milli (1000 * n)

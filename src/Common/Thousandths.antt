-- ===== src/Common/Thousandths.antt =====
-- Floats to compute with in tests: thousandths, as native numbers.
use Prim.Native.Nat.{ℕ, ◌+◌, ◌-◌, ◌*◌, ◌/◌}
use native.Mathlib.Omega.{arith}
use aegis_soc.Common.Tests.{ltb, leb}
use aegis_soc.Common.Floats.{Floats, IsOrder}

abbrev pub thousandths : Floats
thousandths = record {
  Float = ℕ;
  milli = λ n. n;
  lt = ltb;
  le = leb;
  add = λ a b. a + b;
  mul = λ a b. a * b / 1000;
  sub = λ a b. a - b;
  div = λ a b. a * 1000 / b;
  sqrt = λ a. a;
  exp = λ a. 1000;
  neg = λ a. a;
  to_int = λ a. a / 1000;
  round4 = λ a. a;
  round3 = λ a. a;
}

pub thousandths-IsOrder : IsOrder thousandths
thousandths-IsOrder = record {
  irrefl = λ a. ground arith;
  trans_ge = λ a b c h k. ground (arith, h, k);
  asymm = λ a b h. ground (arith, h);
}

-- ===== src/Base/Double.antt =====
-- The type `double` (and `float`) with the operations that the program applies to it; `lt` and `le`
-- are both false where a number is a NaN. Nothing is
-- assumed of them here; a theorem that needs a law has it as a hypothesis. `whole` does without
-- fractions and rounding, and serves the examples.
use Prim.Native.Nat.{ℕ}
use mathlib.Core.Bool.{Bool}
use wall_mon.Base.Int.{ℤ, pos}
use wall_mon.Base.Tests.{if◌then◌else◌}

pub record Double : Type 1 where
  pub Num : Type 0
  pub num : ℤ → Num
  pub add : Num → Num → Num
  pub sub : Num → Num → Num
  pub mul : Num → Num → Num
  pub div : Num → Num → Num
  pub lt : Num → Num → Bool
  pub le : Num → Num → Bool
  pub eq : Num → Num → Bool

-- What the code writes with those operations: `-a`, `fabs`, `std::min` and `std::max`, and a decimal
-- literal `a / b`.
module _ (d : Double) where
  abbrev pub int : ℕ → d.Num
  int n = d.num (pos n)

  abbrev pub neg : d.Num → d.Num
  neg a = d.sub (int 0) a

  abbrev pub fabs : d.Num → d.Num
  fabs a = if d.lt a (int 0) then neg a else a

  abbrev pub least : d.Num → d.Num → d.Num
  least a b = if d.lt b a then b else a

  abbrev pub most : d.Num → d.Num → d.Num
  most a b = if d.lt a b then b else a

  abbrev pub ratio : ℕ → ℕ → d.Num
  ratio a b = d.div (int a) (int b)

-- ===== src/Base/Floats.antt =====
-- What the program does with a Go `float64`: a type and its operations, a parameter of every
-- definition that computes with one. `lit m k` is the constant `m / 10^k`, `of_nat` the conversion of
-- an unsigned integer, `to_nat` that to a `uint32` or an `int`. No law of IEEE 754 is assumed. The tests
-- run on `thousandths`, fixed point numbers without a sign.
use Prim.Native.Nat.{ℕ, ◌+◌, ◌-◌, ◌*◌, ◌/◌, ◌^◌, min, max}
use mathlib.Core.Bool.{Bool, false, ◌||◌}
use the_return_of_the_odysse.Base.Tests.{ltb, leb, ◌==◌}

pub record Float64 (F : Type 0) : Type 0 where
  pub lit : ℕ → ℕ → F
  pub of_nat : ℕ → F
  pub to_nat : F → ℕ
  pub infinity : F
  pub add : F → F → F
  pub sub : F → F → F
  pub mul : F → F → F
  pub div : F → F → F
  pub neg : F → F
  pub abs : F → F
  pub sqrt : F → F
  pub round : F → F
  pub fmin : F → F → F
  pub fmax : F → F → F
  pub hypot : F → F → F
  pub lt : F → F → Bool
  pub le : F → F → Bool
  pub same : F → F → Bool
  pub is_nan : F → Bool
  pub is_inf : F → Bool

module _ {F : Type 0} ⦃f : Float64 F⦄ where
  open f use {lit, is_nan, is_inf}

  -- 0 and 1
  abbrev pub zero_f : F
  zero_f = lit 0 0

  abbrev pub one_f : F
  one_f = lit 1 0

  -- `math.IsNaN(v) || math.IsInf(v, 0)`
  abbrev pub odd_f : F → Bool
  odd_f v = is_nan v || is_inf v

instance abbrev pub thousandths : Float64 ℕ
thousandths = record {
  lit = λ m k. m * 1000 / 10 ^ k;
  of_nat = λ n. n * 1000;
  to_nat = λ v. v / 1000;
  infinity = 10 ^ 12;
  add = λ a b. a + b;
  sub = λ a b. a - b;
  mul = λ a b. a * b / 1000;
  div = λ a b. a * 1000 / b;
  neg = λ a. 0 - a;
  abs = λ a. a;
  sqrt = λ a. a;
  round = λ a. (a + 500) / 1000 * 1000;
  fmin = min;
  fmax = max;
  hypot = max;
  lt = ltb;
  le = leb;
  same = λ a b. a == b;
  is_nan = λ v. false;
  is_inf = λ v. leb (10 ^ 12) v;
}

-- ===== src/Prelude/Double.antt =====
-- What the program does with a `double`. The type and its operations are a parameter of the
-- model; the laws hold of the doubles that are not NaN.
use Prim.Native.Nat.{ℕ}
use mathlib.Core.Path.{◌≡◌}
use mathlib.Core.Bool.{Bool, true, not}
use mathlib.Core.List.{List, []}
use mathlib.Core.Option.{Option, none}
use native.Mathlib.Omega.{arith}
use financial_order_book.Prelude.Tests.{ltb, leb}

pub record Double (W : Type 0) : Type 0 where
  pub nought : W
  -- `std::numeric_limits<double>::max()`
  pub largest : W
  -- `a < b` and `a <= b`, both false where an argument is NaN; `a > b` is `b < a`.
  pub lt : W → W → Bool
  pub le : W → W → Bool
  -- `std::isfinite`
  pub is_finite : W → Bool
  -- `std::stod` on the bytes of a string, `none` where it throws
  pub stod : List ℕ → Option W
  -- what `std::fixed << std::setprecision(2)` writes
  pub fixed2 : W → List ℕ

-- No value is NaN, and the order is that of numbers.
pub record IsOrdered (W : Type 0) ⦃d : Double W⦄ : Type 0 where
  pub le-eq-not-lt : (x y : W) → d.le x y ≡ not (d.lt y x)
  pub le_trans : (x y z : W) → d.le x y ≡ true → d.le y z ≡ true → d.le x z ≡ true
  pub le_of_lt : (x y : W) → d.lt x y ≡ true → d.le x y ≡ true

-- The laws can be met: amounts in whole cents.
instance abbrev pub cents_double : Double ℕ
cents_double = record {
  nought = 0;
  largest = 1000000000;
  lt = ltb;
  le = leb;
  is_finite = λ a. true;
  stod = λ s. none;
  fixed2 = λ a. [];
}

pub cents-IsOrdered : IsOrdered ℕ ⦃d = cents_double⦄
cents-IsOrdered = record {
  le-eq-not-lt = λ x y. ground arith;
  le_trans = λ x y z p q. ground arith;
  le_of_lt = λ x y p. ground arith;
}

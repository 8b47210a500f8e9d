-- ===== src/Prelude/Float.antt =====
-- Python's floats, by what the program does with them. The type is a parameter: no law of
-- arithmetic is assumed, and the laws of order are a hypothesis where a theorem names it.
use Prim.Native.Nat.{ℕ}
use mathlib.Core.Path.{◌≡◌}
use mathlib.Core.Logic.{◌⊎◌}
use mathlib.Core.Bool.{Bool, true, false, not}
use freqpanda.Prelude.Tests.{if◌then◌else◌}

-- `of_nat` is a literal, `trunc` is `int(x)`, and `is_close` is numpy's `isclose` with its default
-- tolerances. The others are Python's operators.
pub record Float (F : Type 0) : Type 0 where
  pub nan : F
  pub of_nat : ℕ → F
  pub trunc : F → F
  pub add : F → F → F
  pub sub : F → F → F
  pub mul : F → F → F
  pub div : F → F → F
  pub lt : F → F → Bool
  pub le : F → F → Bool
  pub is_close : F → F → Bool

module _ {F : Type 0} ⦃fl : Float F⦄ where
  abbrev pub nought : F
  nought = fl.of_nat 0

  abbrev pub one : F
  one = fl.of_nat 1

  abbrev pub gt : F → F → Bool
  gt a b = fl.lt b a

  abbrev pub ge : F → F → Bool
  ge a b = fl.le b a

  -- max(a, b) keeps its first argument unless the second is greater.
  abbrev pub max : F → F → F
  max a b = if fl.lt a b then b else a

  -- abs(a)
  abbrev pub abs : F → F
  abs a = if fl.lt a nought then fl.sub nought a else a

  -- NaN is the one value that is not `<=` itself.
  abbrev pub is_nan : F → Bool
  is_nan a = not (fl.le a a)

-- The order of the numbers: total but for NaN, which compares with nothing.
pub record IsOrdered (F : Type 0) ⦃fl : Float F⦄ : Type 0 where
  pub nan_lt : (x : F) → (fl.lt fl.nan x ≡ false) × (fl.lt x fl.nan ≡ false)
  pub nan_le : (x : F) → (fl.le fl.nan x ≡ false) × (fl.le x fl.nan ≡ false)
  pub nan_close : (x : F) → (fl.is_close fl.nan x ≡ false) × (fl.is_close x fl.nan ≡ false)
  pub refl_of_le : (x y : F) → fl.le x y ≡ true → (fl.le x x ≡ true) × (fl.le y y ≡ true)
  pub le_trans : (x y z : F) → fl.le x y ≡ true → fl.le y z ≡ true → fl.le x z ≡ true
  pub lt_or_le :
      (x y : F)
      → fl.le x x ≡ true
      → fl.le y y ≡ true
      → ((fl.lt x y ≡ true) × (fl.le y x ≡ false)) ⊎ ((fl.lt x y ≡ false) × (fl.le y x ≡ true))
  pub le_of_lt : (x y : F) → fl.lt x y ≡ true → fl.le x y ≡ true

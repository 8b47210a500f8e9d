-- ===== src/Prelude/Fixed.antt =====
-- A concrete number type that runs and has the laws of order: ten-thousandths, and NaN.
use Prim.Native.Nat.{ℕ, ◌*◌}
use mathlib.Core.Bool.{Bool, false, ◌&&◌}
use native.Mathlib.Omega.{arith}
use freqpanda.Prelude.Int.{ℤ, pos, ◌+ℤ◌, ◌-ℤ◌, ◌*ℤ◌, quot, leb_ℤ, ltb_ℤ}
use freqpanda.Prelude.Float.{Float, IsOrdered}

pub data Fixed : Type 0 where
  not_a_number : Fixed
  fixed : ℤ → Fixed

abbrev lift : (ℤ → ℤ → ℤ) → Fixed → Fixed → Fixed
lift f (fixed a) (fixed b) = fixed (f a b)
lift f _ _ = not_a_number

abbrev test : (ℤ → ℤ → Bool) → Fixed → Fixed → Bool
test f (fixed a) (fixed b) = f a b
test f _ _ = false

abbrev whole : Fixed → Fixed
whole (fixed a) = fixed (quot a (pos 10_000) *ℤ pos 10_000)
whole not_a_number = not_a_number

instance abbrev pub fixed_float : Float Fixed
fixed_float = record {
  nan = not_a_number;
  of_nat = λ n. fixed (pos (n * 10_000));
  trunc = whole;
  add = lift ◌+ℤ◌;
  sub = lift ◌-ℤ◌;
  mul = lift (λ a b. quot (a *ℤ b) (pos 10_000));
  div = lift (λ a b. quot (a *ℤ pos 10_000) b);
  lt = test ltb_ℤ;
  le = test leb_ℤ;
  is_close = test (λ a b. leb_ℤ a b && leb_ℤ b a);
}

pub Fixed-IsOrdered : IsOrdered Fixed
Fixed-IsOrdered = ground arith

-- `bp n` is n ten-thousandths.
abbrev pub bp : ℕ → Fixed
bp n = fixed (pos n)

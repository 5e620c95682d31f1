-- ===== src/Base/Float.antt =====
-- Python's `float`. A finite double is a whole multiple of 2^-1074, so a value that is not negative
-- is given by that multiple, and comparisons and `max` are exact. What rounds, subtraction and
-- division, is the processor's: `FloatOps` holds those two operations.
use Prim.Native.Nat.{ℕ, ◌*◌, ◌^◌, ◌≤◌}

-- A value of either sign, for scores that the code only carries along.
pub data Signed : Type 0 where
  nonneg : ℕ → Signed
  negative : ℕ → Signed

-- `1.0`.
unfoldable pub one : ℕ
one = 2 ^ 1074

-- The doubles nearest to 0.8 and 0.85.
unfoldable pub eight_tenths : ℕ
eight_tenths = 0x1999999999999a * 2 ^ 1021

unfoldable pub eighty_five_hundredths : ℕ
eighty_five_hundredths = 0x1b333333333333 * 2 ^ 1021

pub record FloatOps : Type 0 where
  -- `a - b`, at `b <= a`.
  pub sub : ℕ → ℕ → ℕ
  -- `i / j` of two integers.
  pub div : ℕ → ℕ → ℕ

-- What IEEE 754 guarantees of a correctly rounded result.
pub record IsRounded (ops : FloatOps) : Type 0 where
  -- Rounding is monotone, and `a` is a double: a difference never exceeds what it is taken from.
  pub sub_le : (a b : ℕ) → ops.sub a b ≤ a
  -- A quotient of a number by one that is not smaller is at most 1.
  pub div_le_one : (i j : ℕ) → i ≤ j → ops.div i j ≤ one

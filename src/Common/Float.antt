-- ===== src/Common/Float.antt =====
-- Go's float64 as far as the code compares it. Every finite float64 is a whole multiple of 2^-1074,
-- so `finite z` stands for z * 2^-1074 and the comparisons are exact.
use Prim.Native.Nat.{ℕ, ◌^◌}
use mathlib.Core.Bool.{Bool, true, false, ◌&&◌, not}
use faultline.Common.Int.{ℤ, pos, ltb_ℤ}

pub data Float64 : Type 0 where
  nan pos_inf neg_inf neg_zero : Float64
  finite : ℤ → Float64

abbrev pub zero_float : Float64
zero_float = finite (pos 0)

-- The numeral stays shut: no proof needs its digits.
unfoldable pub scale : ℕ
scale = 2 ^ 1074

abbrev pub one_float : Float64
one_float = finite (pos scale)

-- `<`, `==`, `math.IsNaN` and `math.IsInf(x, 0)`
unfoldable pub lt_float : Float64 → Float64 → Bool
lt_float nan b = false
lt_float pos_inf b = false
lt_float neg_inf nan = false
lt_float neg_inf neg_inf = false
lt_float neg_inf b = true
lt_float neg_zero nan = false
lt_float neg_zero pos_inf = true
lt_float neg_zero neg_inf = false
lt_float neg_zero neg_zero = false
lt_float neg_zero (finite y) = ltb_ℤ (pos 0) y
lt_float (finite x) nan = false
lt_float (finite x) pos_inf = true
lt_float (finite x) neg_inf = false
lt_float (finite x) neg_zero = ltb_ℤ x (pos 0)
lt_float (finite x) (finite y) = ltb_ℤ x y

unfoldable pub is_nan : Float64 → Bool
is_nan nan = true
is_nan _ = false

unfoldable pub is_inf : Float64 → Bool
is_inf pos_inf = true
is_inf neg_inf = true
is_inf _ = false

-- Two numbers are equal when neither is NaN and neither is less.
unfoldable pub eq_float : Float64 → Float64 → Bool
unfolding lt_float is_nan
eq_float a b = not (is_nan a) && not (is_nan b) && not (lt_float a b) && not (lt_float b a)

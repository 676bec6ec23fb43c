-- ===== src/Config/Selector.antt =====
-- internal/config/validate.go, `validateSelector`. The code writes a negative zero back as zero through
-- the pointer, so the validator returns the selector that it leaves.
pub mod Valid
use faultline.Common.{
  ℕ, ◌+◌, Bool, false, not, ◌||◌, Option, none, some, Text, ◌++◌, ◌==◌, nat_eq, if◌then◌else◌,
}
use faultline.Common.Strings.{codes}
use faultline.Common.Float.{Float64, zero_float, one_float, lt_float, is_nan, is_inf, eq_float}
use faultline.Config.Model.{Selector}
use faultline.Config.Errors.{Result, ok, ◌>>=◌, ◌>>◌, check}

-- `if *s.Probability == 0 { *s.Probability = 0 }`
unfoldable pub normal_zero : Float64 → Float64
normal_zero p = if eq_float p zero_float then zero_float else p

unfoldable pub bad_probability : Float64 → Bool
bad_probability p = is_nan p || is_inf p || lt_float p zero_float || lt_float one_float p

unfoldable pub validate_probability : Option Float64 → Text → Result (Option Float64)
validate_probability none path = ok none
validate_probability (some p) path = do
  let q = normal_zero p
  check (bad_probability q) (path ++ codes ".select.probability")
      "must be finite and between 0 and 1"
  ok (some q)

abbrev is_zero : Option ℕ → Bool
is_zero none = false
is_zero (some n) = n == 0

abbrev count_one {ℓ} : {A : Type ℓ} → Option A → ℕ
count_one none = 0
count_one (some a) = 1

unfoldable pub validate_selector : Selector → Text → Result Selector
validate_selector s path = do
  probability ← validate_probability s.probability path
  check (is_zero s.nth) (path ++ codes ".select.nth") "must be positive"
  check (is_zero s.every) (path ++ codes ".select.every") "must be positive"
  check (not (count_one s.probability + count_one s.nth + count_one s.every == 1))
      (path ++ codes ".select") "exactly one selector is required"
  ok (record s { probability = probability })

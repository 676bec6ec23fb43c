-- ===== src/Postgresql/Startup.antt =====
-- internal/proxy/postgresql/session.go, `validStartup`.
use faultline.Common.{
  ℕ, ◌-◌, Bool, false, not, ◌&&◌, ◌||◌, Option, none, some, List, [], ◌∷◌, Text, ◌==◌, nat_eq,
  text_eq, length, take, drop, is_nil, ltb, if◌then◌else◌,
}
use faultline.Common.Strings.{codes, split}
use faultline.Postgresql.Wire.{from_be}

-- The first four bytes as a number; the callers test that they are there.
unfoldable pub uint32_of : Text → Option ℕ
uint32_of (a ∷ b ∷ c ∷ d ∷ rest) = some (from_be a b c d)
uint32_of _ = none

abbrev pub is_number : ℕ → Option ℕ → Bool
is_number n none = false
is_number n (some m) = m == n

-- `b[len(b)-1] == 0`
abbrev pub ends_in_zero : Text → Bool
ends_in_zero [] = false
ends_in_zero (c ∷ []) = c == 0
ends_in_zero (c ∷ d ∷ cs) = ends_in_zero (d ∷ cs)

-- The names and values in turn, and an empty field behind them: the test of the count and of the last field,
-- and the loop.
unfoldable pub valid_fields : List Text → Bool
valid_fields [] = false
valid_fields (name ∷ []) = is_nil name
valid_fields (name ∷ value ∷ fields) =
    not (is_nil name) && not (name == codes "replication") && valid_fields fields

unfoldable pub valid_startup : Text → Bool
valid_startup b =
    if ltb (length b) 5 || not (is_number 196608 (uint32_of b)) || not (ends_in_zero b)
    then false
    else valid_fields (split 0 (take (length b - 5) (drop 4 b)))

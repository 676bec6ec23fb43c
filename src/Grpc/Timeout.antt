-- ===== src/Grpc/Timeout.antt =====
-- internal/proxy/grpc/protocol.go, `Timeout` and `TimeoutHeader`. A duration is a number of nanoseconds.
use faultline.Common.{
  ℕ, zero, suc, ◌+◌, ◌*◌, ◌/◌, ◌%◌, not, ◌||◌, Option, none, some, List, [], ◌∷◌, ◌++◌, Text, ◌==◌,
  nat_eq, length, ltb, leb, max, if◌then◌else◌,
}
use faultline.Common.Decimal.{parse_digits, all_digits, digits_of}
use faultline.Common.Int.{ℤ, pos_part}

-- `value[:len(value)-1]` and the last byte.
unfoldable pub split_last : Text → Option (Text × ℕ)
split_last [] = none
split_last (c ∷ cs) = elim (split_last cs) [
  | none ↦ some ([], c)
  | some (front, last) ↦ some (c ∷ front, last)
]

unfoldable pub unit_of : ℕ → Option ℕ
unit_of c =
    if c == b'H'
    then some 3600000000000
    else if c == b'M'
    then some 60000000000
    else if c == b'S'
    then some 1000000000
    else if c == b'm'
    then some 1000000
    else if c == b'u'
    then some 1000
    else if c == b'n'
    then some 1
    else none

abbrev pub max_duration : ℕ
max_duration = 9223372036854775807

-- The duration behind its unit, which is cut off at the largest one.
abbrev pub scaled : ℕ → Option ℕ → Option ℕ
scaled n none = none
scaled n (some zero) = none
scaled n (some (suc u)) =
    if ltb 4294967295 n
    then none
    else if ltb (max_duration / suc u) n
    then some max_duration
    else some (n * suc u)

unfoldable pub timeout_of : Option (Text × ℕ) → Option ℕ
timeout_of none = none
timeout_of (some (digits, last)) =
    if not (all_digits digits) then none else scaled (parse_digits 0 digits) (unit_of last)

unfoldable pub timeout : Text → Option ℕ
timeout value =
    if ltb (length value) 2 || ltb 9 (length value) then none else timeout_of (split_last value)

-- `duration / unit.size`, one more if there is a rest.
abbrev pub ceiling : ℕ → ℕ → ℕ
ceiling d zero = 0
ceiling d (suc u) = d / suc u + (if d % suc u == 0 then 0 else 1)

-- The first unit of the list in which the number has at most eight digits, with the number.
unfoldable pub choose : ℕ → List (ℕ × ℕ) → Option (ℕ × ℕ × ℕ)
choose d [] = none
choose d ((size, suffix) ∷ units) =
    let rest = choose d units in
    if leb (ceiling d size) 99999999 then some (ceiling d size, size, suffix) else rest

abbrev pub header_units : List (ℕ × ℕ)
header_units =
    (1, b'n')
    ∷ (1000, b'u')
    ∷ (1000000, b'm')
    ∷ (1000000000, b'S')
    ∷ (60000000000, b'M')
    ∷ (3600000000000, b'H')
    ∷ []

-- `max(time.Nanosecond, duration)`
abbrev pub at_least_one : ℤ → ℕ
at_least_one d = max 1 (pos_part d)

abbrev pub written : Option (ℕ × ℕ × ℕ) → Option Text
written none = none
written (some (n, size, suffix)) = some (digits_of 20 n ++ suffix ∷ [])

-- `TimeoutHeader`; `none` is its panic.
unfoldable pub timeout_header : ℤ → Option Text
timeout_header duration = written (choose (at_least_one duration) header_units)

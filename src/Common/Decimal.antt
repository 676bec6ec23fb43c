-- ===== src/Common/Decimal.antt =====
-- Numbers in decimal, as `strconv` reads and prints them.
use faultline.Common.{
  ℕ, zero, suc, ◌+◌, ◌-◌, ◌*◌, ◌/◌, ◌%◌, Bool, true, not, ◌&&◌, ◌||◌, Option, none, some, [], ◌∷◌,
  ◌++◌, Text, ◌==◌, nat_eq, is_nil, ltb, if◌then◌else◌,
}
use faultline.Common.Int.{ℤ, pos, negsuc}
use faultline.Common.Strings.{is_digit}

-- `strconv.ParseUint` on digits, behind those of `n`.
unfoldable pub parse_digits : ℕ → Text → ℕ
parse_digits n [] = n
parse_digits n (c ∷ cs) = parse_digits (10 * n + (c - 48)) cs

unfoldable pub all_digits : Text → Bool
all_digits [] = true
all_digits (c ∷ cs) = is_digit c && all_digits cs

-- `strconv.FormatInt`, on fuel: a number has at most as many digits as its value and one.
unfoldable pub digits_of : ℕ → ℕ → Text
digits_of zero n = []
digits_of (suc fuel) n =
    let front = digits_of fuel (n / 10) in
    if ltb n 10 then (48 + n) ∷ [] else front ++ (48 + n % 10) ∷ []

-- `strconv.Itoa` for a number of 64 bits.
abbrev pub itoa : ℕ → Text
itoa n = digits_of 20 n

abbrev pub negated : ℕ → ℤ
negated zero = pos 0
negated (suc n) = negsuc n

-- Digits behind a sign.
abbrev pub unsigned : Text → Option ℕ
unsigned t =
    if is_nil t || not (all_digits t) || ltb 9223372036854775808 (parse_digits 0 t)
    then none
    else some (parse_digits 0 t)

abbrev pub with_sign : (ℕ → ℤ) → Option ℕ → Option ℤ
with_sign sign none = none
with_sign sign (some n) = some (sign n)

-- `strconv.Atoi`
unfoldable pub atoi : Text → Option ℤ
atoi [] = none
atoi (c ∷ cs) =
    if c == b'-'
    then with_sign negated (unsigned cs)
    else if c == b'+'
    then with_sign pos (unsigned cs)
    else with_sign pos (unsigned (c ∷ cs))

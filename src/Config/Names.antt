-- ===== src/Config/Names.antt =====
-- internal/config/validate.go, `identifier` and `token`. The code ranges over runes: every rune of a
-- text that is not ASCII is refused, and so is every byte above 127, so bytes give the same answer.
use faultline.Common.{ℕ, Bool, true, false, ◌&&◌, ◌||◌, [], ◌∷◌, Text, ◌==◌, nat_eq}
use faultline.Common.Strings.{codes, is_letter, is_digit, has_byte}

unfoldable pub identifier_byte : ℕ → Bool
unfolding is_letter is_digit
identifier_byte c = is_letter c || is_digit c || c == b'-' || c == b'_' || c == b'.'

unfoldable pub token_byte : ℕ → Bool
unfolding is_letter is_digit
token_byte c = is_letter c || is_digit c || has_byte c (codes "!#$%&'*+-.^_`|~")

abbrev pub all_bytes : (ℕ → Bool) → Text → Bool
all_bytes test [] = true
all_bytes test (c ∷ cs) = test c && all_bytes test cs

unfoldable pub identifier : Text → Bool
identifier [] = false
identifier (c ∷ cs) = all_bytes identifier_byte (c ∷ cs)

unfoldable pub token : Text → Bool
token [] = false
token (c ∷ cs) = all_bytes token_byte (c ∷ cs)

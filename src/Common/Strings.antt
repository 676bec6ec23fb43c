-- ===== src/Common/Strings.antt =====
-- What the code uses of the package `strings`, over texts as lists of bytes.
use Prim.Native.Nat.{ℕ, ◌+◌, ◌-◌}
use Prim.Native.Char.{code}
use Prim.Native.String.{String}
use mathlib.Core.Bool.{Bool, true, false, not, ◌&&◌, ◌||◌}
use mathlib.Core.List.{List, [], ◌∷◌}
use faultline.Common.Tests.{ltb, leb, if◌then◌else◌}
use faultline.Common.Lists.{length, drop}
use faultline.Common.Eq.{◌==◌, nat_eq, text_eq, Text}

-- The bytes of an ASCII literal.
abbrev pub codes : String → Text
codes String.[] = []
codes (String.◌∷◌ c s) = code c ∷ codes s

abbrev pub within : ℕ → ℕ → ℕ → Bool
within lo hi c = leb lo c && leb c hi

-- `c >= 'a' && c <= 'z' || c >= 'A' && c <= 'Z' || c >= '0' && c <= '9'`
unfoldable pub is_letter : ℕ → Bool
is_letter c = within b'a' b'z' c || within b'A' b'Z' c

unfoldable pub is_digit : ℕ → Bool
is_digit c = within b'0' b'9' c

abbrev pub has_byte : ℕ → Text → Bool
has_byte b [] = false
has_byte b (c ∷ cs) = c == b || has_byte b cs

-- `strings.ContainsAny`
abbrev pub contains_any : Text → Text → Bool
contains_any [] bs = false
contains_any (c ∷ cs) bs = has_byte c bs || contains_any cs bs

unfoldable pub has_prefix : Text → Text → Bool
has_prefix s [] = true
has_prefix [] (p ∷ ps) = false
has_prefix (c ∷ cs) (p ∷ ps) = c == p && has_prefix cs ps

-- `strings.Cut` at one byte: the part before, the part behind, and whether the byte was there.
unfoldable pub cut : ℕ → Text → Text × Text × Bool
cut b [] = ([], [], false)
cut b (c ∷ cs) =
    let (before, behind, found) = cut b cs in
    if c == b then ([], cs, true) else (c ∷ before, behind, found)

-- `strings.ToLower` and `strings.EqualFold` on ASCII text.
abbrev pub lower : ℕ → ℕ
lower c = if within b'A' b'Z' c then c + 32 else c

abbrev pub to_lower : Text → Text
to_lower [] = []
to_lower (c ∷ cs) = lower c ∷ to_lower cs

abbrev pub equal_fold : Text → Text → Bool
equal_fold s t = to_lower s == to_lower t

-- Puts a byte in front of the first piece.
abbrev pub onto_head : ℕ → List Text → List Text
onto_head c [] = (c ∷ []) ∷ []
onto_head c (s ∷ ss) = (c ∷ s) ∷ ss

-- `strings.Split` at one byte: the pieces between the occurrences, one at least.
unfoldable pub split : ℕ → Text → List Text
split b [] = [] ∷ []
split b (c ∷ cs) = let pieces = split b cs in if c == b then [] ∷ pieces else onto_head c pieces

-- `strings.HasSuffix`
unfoldable pub has_suffix : Text → Text → Bool
has_suffix s suffix =
    not (ltb (length s) (length suffix)) && drop (length s - length suffix) s == suffix

-- ===== src/Config/Pattern.antt =====
-- internal/config/validate.go, `validPathPattern`.
use faultline.Common.{
  Bool, true, false, not, ◌&&◌, ◌||◌, List, [], ◌∷◌, ◌++◌, Text, ◌==◌, nat_eq, text_eq, drop,
  length, contains, if◌then◌else◌,
}
use faultline.Common.Strings.{codes, is_letter, is_digit, has_byte, has_prefix, contains_any, split}

-- The first byte of a parameter name is no digit.
unfoldable pub parameter_name : Bool → Text → Bool
unfolding is_letter is_digit
parameter_name first [] = true
parameter_name first (c ∷ cs) =
    (is_letter c || c == b'_' || not first && is_digit c) && parameter_name false cs

-- The loop over the segments; `names` are the parameters seen so far.
unfoldable pub valid_segments : List Text → List Text → Bool
unfolding has_prefix
valid_segments [] names = true
valid_segments (segment ∷ segments) names =
    let literal = not (has_byte b':' segment) in
    let name = drop 1 segment in
    let rest = valid_segments segments (if literal then names else name ∷ names) in
    if literal
    then rest
    else if not (has_prefix segment (codes ":")) || length segment == 1
    then false
    else if not (parameter_name true name)
    then false
    else if contains names name
    then false
    else rest

unfoldable pub valid_path_pattern : Text → Bool
unfolding has_prefix split
valid_path_pattern pattern =
    if not (has_prefix pattern (codes "/"))
      || contains_any pattern (codes "*?#" ++ (b'\r' ∷ b'\n' ∷ []))
    then false
    else valid_segments (split b'/' pattern) []

-- ===== src/Engine/Match.antt =====
-- internal/engine/engine.go, `matches` and `matchesPathPattern`.
pub mod Segments
use faultline.Common.{
  ℕ, zero, suc, ◌+◌, Bool, true, false, not, ◌&&◌, ◌||◌, Option, none, some, List, [], ◌∷◌, Text,
  bool_ne, ◌==◌, text_eq, is_nil, contains, length, if◌then◌else◌,
}
use faultline.Common.Strings.{codes, has_prefix, cut, equal_fold}
use faultline.Config.Model.{Matcher}

pub record Metadata : Type 0 where
  pub method : Text
  pub service : Text
  pub path : Text
  pub headers : List (Text × List Text)

-- One round's tests: what the pattern wants of a segment, and what the path has there.
unfoldable pub fits_segment : Text → Text → Bool
unfolding has_prefix
fits_segment want got = if has_prefix want (codes ":") then not (is_nil got) else want == got

-- The loop, with fuel; `none` means that the fuel ran out.
unfoldable pub pattern_loop : ℕ → Text → Text → Option Bool
pattern_loop zero pattern path = none
pattern_loop (suc fuel) pattern path =
    let (want, rest_pattern, more_pattern) = cut b'/' pattern in
    let (got, rest_path, more_path) = cut b'/' path in
    let next = pattern_loop fuel rest_pattern rest_path in
    if not (fits_segment want got)
    then some false
    else if bool_ne more_pattern more_path
    then some false
    else if not more_pattern
    then some true
    else next

-- Each round cuts a byte off the pattern, so one round more than its length is enough.
unfoldable pub matches_path_pattern : Text → Text → Option Bool
matches_path_pattern pattern path = pattern_loop (length pattern + 1) pattern path

-- The values of the header `name`, whatever its case, hold `expected`.
abbrev pub header_found : Text → Text → List (Text × List Text) → Bool
header_found name expected [] = false
header_found name expected ((actual, values) ∷ headers) =
    equal_fold name actual && contains values expected || header_found name expected headers

abbrev pub headers_match : List (Text × Text) → List (Text × List Text) → Bool
headers_match [] headers = true
headers_match ((name, expected) ∷ wanted) headers =
    header_found name expected headers && headers_match wanted headers

abbrev pub is_true : Option Bool → Bool
is_true none = false
is_true (some b) = b

unfoldable pub matches : Matcher → Metadata → Bool
unfolding cut
matches m metadata =
    let path = (cut b'?' metadata.path).0 in
    if not (m.service == []) && not (m.service == metadata.service)
    then false
    else if not (m.method == []) && not (m.method == metadata.method)
        || not (m.path == []) && not (m.path == path)
    then false
    else if not (m.path_pattern == []) && not (is_true (matches_path_pattern m.path_pattern path))
    then false
    else headers_match m.headers metadata.headers

-- ===== src/Config/Rules.antt =====
-- internal/config/validate.go, `validateRule`, `validateTCPRule` and `validateCommitRule`. A validator
-- that writes to the rule returns the rule that it leaves.
pub mod Ready
use faultline.Common.{
  Bool, true, false, not, ◌&&◌, ◌||◌, Option, none, some, List, [], ◌∷◌, ◌++◌, String, Text, ◌==◌,
  string_eq, text_eq, is_nil, contains, if◌then◌else◌, map,
}
use faultline.Common.Strings.{codes, has_prefix, contains_any, to_lower}
use faultline.Common.Int.{ℤ, pos, ltb_ℤ}
use faultline.Config.Model.{
  Fault, Rule, Matcher, after_commit, after_upstream_headers, tcp_on_connect, tcp_on_transfer,
}
use faultline.Config.Errors.{Result, ok, err, invalid, ◌>>=◌, ◌>>◌, check}
use faultline.Config.Names.{token}
use faultline.Config.Pattern.{valid_path_pattern}
use faultline.Config.Selector.{validate_selector}
use faultline.Config.Faults.{is_set, missing_positive, validate_fault}

abbrev line_breaks : Text
line_breaks = b'\r' ∷ b'\n' ∷ []

-- The loop over the headers; `seen` are the lower-case names so far, and the result holds the headers
-- under their lower-case names.
unfoldable pub validate_headers :
    List (Text × Text) → List Text → Text → Result (List (Text × Text))
validate_headers [] seen path = ok []
validate_headers ((name, value) ∷ headers) seen path =
    let rest = validate_headers headers (to_lower name ∷ seen) path in
    do
      check (not (token name) || contains_any value (line_breaks ++ (0 ∷ [])))
          (path ++ codes ".match.headers") "invalid header name or value"
      check (contains seen (to_lower name)) (path ++ codes ".match.headers")
          "duplicate case-insensitive header name"
      entries ← rest
      ok ((to_lower name, value) ∷ entries)

-- `if r.Fault.Action == "respond" && r.Fault.Body == nil { r.Fault.Body = &body }`
unfoldable pub default_body : Fault → Fault
default_body f =
    if f.action == "respond" && not (is_set f.body) then record f { body = some [] } else f

unfoldable pub validate_matcher : Matcher → Text → Result Matcher
validate_matcher m path = do
  check (not (is_nil m.method) && not (token m.method)) (path ++ codes ".match.method")
      "invalid method token"
  check
      (not (is_nil m.path)
        && (not (has_prefix m.path (codes "/")) || contains_any m.path (codes "?#" ++ line_breaks)))
      (path ++ codes ".match.path") "expected an exact path without query or fragment"
  check (not (is_nil m.path_pattern) && not (is_nil m.path)) (path ++ codes ".match.path_pattern")
      "cannot combine path and path_pattern"
  check (not (is_nil m.path_pattern) && not (valid_path_pattern m.path_pattern))
      (path ++ codes ".match.path_pattern")
      "expected an absolute path with whole-segment :name parameters; no duplicate names, wildcard, query or fragment"
  headers ← validate_headers m.headers [] path
  ok (record m { headers = headers })

unfoldable pub validate_rule : Rule → Text → Result Rule
validate_rule r path = do
  m ← validate_matcher r.matcher path
  s ← validate_selector r.select path
  validate_fault r.fault (path ++ codes ".fault")
  ok (record r { matcher = m; select = s; fault = default_body r.fault })

-- `m.Method != "" || m.Path != "" || m.PathPattern != "" || m.Service != "" || len(m.Headers) != 0`
unfoldable pub matches_something : Matcher → Bool
matches_something m =
    not (is_nil m.method)
    || not (is_nil m.path)
    || not (is_nil m.path_pattern)
    || not (is_nil m.service)
    || not (is_nil m.headers)

unfoldable pub tcp_direction : String → Bool
tcp_direction d = d == "client_to_upstream" || d == "upstream_to_client"

abbrev pub is_negative : Option ℤ → Bool
is_negative none = false
is_negative (some x) = ltb_ℤ x (pos 0)

abbrev pub not_positive : Option ℤ → Bool
not_positive none = false
not_positive (some x) = not (ltb_ℤ (pos 0) x)

-- The triggers of a TCP fault.
unfoldable pub validate_trigger : Fault → Text → Result (Unit {0})
validate_trigger f path = do
  check (is_set f.status || is_set f.body || is_set f.bytes) (path ++ codes ".fault")
      "HTTP fields are unsupported for tcp"
  check (is_set f.after_bytes && is_set f.after_duration) (path ++ codes ".fault")
      "choose one trigger"
  check (is_negative f.after_bytes) (path ++ codes ".fault.after_bytes") "must be nonnegative"
  check
      (is_set f.after_bytes
        && not (f.trigger_direction == "client_to_upstream")
        && not (f.trigger_direction == "upstream_to_client"))
      (path ++ codes ".fault.trigger_direction") "byte trigger requires a direction"
  check (not (is_set f.after_bytes) && not (f.trigger_direction == ""))
      (path ++ codes ".fault.trigger_direction") "requires after_bytes"
  check (not_positive f.after_duration) (path ++ codes ".fault.after_duration") "must be positive"

-- The `switch` on the action of a TCP fault.
unfoldable pub validate_tcp_action : Fault → Text → Result (Unit {0})
validate_tcp_action f path =
    if f.action == "delay_connect"
    then check
        (not (f.phase == tcp_on_connect)
          || missing_positive f.duration
          || is_set f.after_bytes
          || is_set f.after_duration
          || not (f.direction == "")
          || is_set f.max_duration
          || is_set f.bytes_per_second)
        (path ++ codes ".fault") "delay_connect requires on_connect and positive duration only"
    else if f.action == "close_connection"
    then check
        (not (f.phase == tcp_on_transfer)
          || not (f.direction == "")
          || is_set f.duration
          || is_set f.max_duration
          || is_set f.bytes_per_second)
        (path ++ codes ".fault") "close_connection requires on_transfer and a valid trigger"
    else if f.action == "hold"
    then check
        (not (f.phase == tcp_on_transfer)
          || not (tcp_direction f.direction)
          || missing_positive f.max_duration
          || is_set f.duration
          || is_set f.bytes_per_second)
        (path ++ codes ".fault") "hold requires on_transfer, direction and positive max_duration"
    else if f.action == "throttle"
    then check
        (not (f.phase == tcp_on_transfer)
          || not (tcp_direction f.direction)
          || missing_positive f.bytes_per_second
          || is_set f.duration
          || is_set f.max_duration)
        (path ++ codes ".fault")
        "throttle requires on_transfer, direction and positive bytes_per_second"
    else err (invalid (path ++ codes ".fault.action") "unsupported tcp action")

unfoldable pub validate_tcp_rule : Rule → Text → Result Rule
validate_tcp_rule r path = do
  check (matches_something r.matcher) (path ++ codes ".match") "tcp requires an empty matcher"
  s ← validate_selector r.select path
  validate_trigger r.fault path
  validate_tcp_action r.fault path
  ok (record r { select = s })

-- The copy is checked as an HTTP rule in the response phase; of what that check leaves, the headers and
-- the selector, which the copy shares, reach the rule.
unfoldable pub validate_commit_rule : Rule → Text → Result Rule
validate_commit_rule r path = do
  check (matches_something r.matcher) (path ++ codes ".match")
      "database protocol requires an empty matcher"
  check (not (r.fault.phase == after_commit)) (path ++ codes ".fault.phase")
      "database protocol requires after_commit"
  copy ← validate_rule (record r { fault = record r.fault { phase = after_upstream_headers } }) path
  ok (record r {
    matcher = record r.matcher { headers = copy.matcher.headers };
    select = copy.select;
  })

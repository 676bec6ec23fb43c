-- ===== src/Config/Faults.antt =====
-- internal/config/capabilities.go and internal/config/validate.go, `Actions` and `validateFault`.
use faultline.Common.{
  Bool, true, false, not, ◌&&◌, ◌||◌, Option, none, some, List, [], ◌∷◌, ◌++◌, String, Text, ◌==◌,
  string_eq, if◌then◌else◌,
}
use faultline.Common.Strings.{codes}
use faultline.Common.Int.{ℤ, pos, ltb_ℤ}
use faultline.Config.Model.{Fault, before_upstream_request, after_upstream_headers}
use faultline.Config.Errors.{Result, ok, err, invalid, ◌>>◌, check}

unfoldable pub actions : String → List String
actions protocol =
    if protocol == "tcp"
    then "close_connection" ∷ "hold" ∷ "throttle" ∷ "delay_connect" ∷ []
    else if protocol == "postgresql" || protocol == "mysql"
    then "delay" ∷ "hold_response" ∷ "close_connection" ∷ []
    else (("delay" ∷ "hold_request" ∷ "hold_response" ∷ "truncate" ∷ "throttle" ∷ [])
        ++ (if protocol == "http1" || protocol == "http2" then "respond" ∷ [] else [])
        ++ (if protocol == "http1" then "close_connection" ∷ [] else []))

abbrev pub is_set {ℓ} : {A : Type ℓ} → Option A → Bool
is_set none = false
is_set (some a) = true

-- `p == nil || *p <= 0`
abbrev pub missing_positive : Option ℤ → Bool
missing_positive none = true
missing_positive (some x) = not (ltb_ℤ (pos 0) x)

-- `p == nil || *p < 0`
abbrev pub missing_nonnegative : Option ℤ → Bool
missing_nonnegative none = true
missing_nonnegative (some x) = ltb_ℤ x (pos 0)

-- `p == nil || *p < lo || *p > hi`
abbrev pub missing_between : ℤ → ℤ → Option ℤ → Bool
missing_between lo hi none = true
missing_between lo hi (some x) = ltb_ℤ x lo || ltb_ℤ hi x

-- The `switch` on the action: what each action requires.
unfoldable pub action_fields : Fault → Bool → Bool → Text → Result (Unit {0})
action_fields f before after path =
    if f.action == "delay"
    then check (missing_positive f.duration) (path ++ codes ".duration")
        "positive duration is required"
    else if f.action == "respond"
    then (do
      check (not before) (path ++ codes ".phase") "respond requires before_upstream_request"
      check (missing_between (pos 200) (pos 599) f.status) (path ++ codes ".status")
          "status 200–599 is required")
    else if f.action == "hold_request" || f.action == "hold_response"
    then (do
      check (f.action == "hold_request" && not before || f.action == "hold_response" && not after)
          (path ++ codes ".phase") "unsupported action/phase combination"
      check (missing_positive f.max_duration) (path ++ codes ".max_duration")
          "positive max_duration is required")
    else if f.action == "truncate" || f.action == "throttle"
    then (do
      check (not (f.direction == "request") && not (f.direction == "response"))
          (path ++ codes ".direction") "expected request or response"
      check (if f.direction == "request" then not before else before) (path ++ codes ".phase")
          "phase must correspond to direction"
      check (f.action == "truncate" && missing_nonnegative f.bytes) (path ++ codes ".bytes")
          "nonnegative byte limit is required"
      check (f.action == "throttle" && missing_positive f.bytes_per_second)
          (path ++ codes ".bytes_per_second") "positive rate is required")
    else if f.action == "close_connection"
    then ok tt
    else err (invalid (path ++ codes ".action") "unsupported action")

-- The checks below the `switch`: no field that the action does not read.
unfoldable pub unused_fields : Fault → Text → Result (Unit {0})
unused_fields f path = do
  check (not (f.direction == "") && not (f.action == "truncate") && not (f.action == "throttle"))
      (path ++ codes ".direction") "not supported by this action"
  check (is_set f.bytes && not (f.action == "truncate")) (path ++ codes ".bytes")
      "not supported by this action"
  check (is_set f.bytes_per_second && not (f.action == "throttle"))
      (path ++ codes ".bytes_per_second") "not supported by this action"
  check (is_set f.duration && not (f.action == "delay")) (path ++ codes ".duration")
      "not supported by this action"
  check
      (is_set f.max_duration
        && not (f.action == "hold_request")
        && not (f.action == "hold_response"))
      (path ++ codes ".max_duration") "not supported by this action"
  check (is_set f.status && not (f.action == "respond")) (path ++ codes ".status")
      "not supported by this action"
  check (is_set f.body && not (f.action == "respond")) (path ++ codes ".body")
      "not supported by this action"

unfoldable pub validate_fault : Fault → Text → Result (Unit {0})
validate_fault f path = do
  check (is_set f.after_bytes || is_set f.after_duration || not (f.trigger_direction == "")) path
      "TCP trigger fields require protocol tcp"
  let before = f.phase == before_upstream_request
  let after = f.phase == after_upstream_headers
  check (not before && not after) (path ++ codes ".phase") "unsupported phase"
  action_fields f before after path
  unused_fields f path

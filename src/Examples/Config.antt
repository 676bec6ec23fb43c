-- ===== src/Examples/Config.antt =====
-- Concrete selectors and rules of a config.
use faultline.Common.{true, none, some, [], ◌≡◌}
use faultline.Common.Strings.{codes}
use faultline.Common.Int.{pos}
use faultline.Config.Model.{Selector, Matcher, Fault, Rule, before_upstream_request}
use faultline.Config.Errors.{ok}
use faultline.Config.Selector.{validate_selector}
use faultline.Config.Selector.Valid.{IsSelector, validate_selector-IsSelector}

abbrev pub second : Selector
second = record { probability = none; nth = some 2; every = none }

abbrev pub any_request : Matcher
any_request = record { path_pattern = []; method = []; service = []; path = []; headers = [] }

abbrev pub answer : Fault
answer = record {
  phase = before_upstream_request;
  action = "respond";
  duration = none;
  max_duration = none;
  status = some (pos 503);
  body = none;
  direction = "";
  bytes = none;
  bytes_per_second = none;
  after_bytes = none;
  after_duration = none;
  trigger_direction = "";
}

abbrev pub answer_second : Rule
answer_second = record {
  id = codes "r1";
  enabled = true;
  matcher = any_request;
  select = second;
  fault = answer;
}

validate_selector-IsSelector_example :
    ((t : Selector) → validate_selector second [] ≡ ok t → IsSelector t)
    × (IsSelector second → validate_selector second [] ≡ ok second)
validate_selector-IsSelector_example = validate_selector-IsSelector second []

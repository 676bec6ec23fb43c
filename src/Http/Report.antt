-- ===== src/Http/Report.antt =====
-- internal/proxy/http/handler.go: `Report`, `event`, `errorKind`, `hasUpgrade` and the test for requests that the
-- proxy does not serve.
use faultline.Common.{
  ℕ, Bool, false, not, ◌&&◌, ◌||◌, Option, none, some, List, [], ◌∷◌, String, Text, ◌==◌, zero, suc,
  nat_eq, string_eq, text_eq, is_nil, length, drop, take, if◌then◌else◌,
}
use faultline.Common.Strings.{codes, has_prefix, equal_fold, split}
use faultline.Common.Float.{Float64}
use faultline.Config.Model.{Selector}
use faultline.Control.Service.{Info}
use faultline.Engine.State.{Decision}
use faultline.Fault.Builtin.{Failure}
use faultline.Grpc.Metadata.{Request, header_values, header_get}
use faultline.Recorder.State.{Event as RecordedEvent}

-- Why a context has ended: its deadline, or a call of its cancel function.
pub data Cause : Type 0 where
  deadline_exceeded client_gone : Cause

-- The errors that the handler tells apart: `errTerminal`, `ErrUnavailable`, `ErrAbortHandler`, the refusal of an
-- upgrade, the engine's, a context's, the executor's, and those of the transport by a number.
pub data Error : Type 0 where
  flow_completed unavailable aborted upgrade_refused undecided : Error
  context_ended : Cause → Error
  execution : Failure → Error
  upstream : ℕ → Error

pub record Report : Type 0 where
  pub protocol : String
  pub grpc_status : Text
  pub flow_id : Text
  pub info : Info
  pub decision : Decision
  pub reached : Bool
  pub applied : Bool
  pub not_reached : Bool
  pub outcome : String
  pub err : Option Error
  pub started_at : ℕ
  pub finished_at : Option ℕ
  pub upstream_status : ℕ
  pub error_kind : String

pub record Event : Type 0 where
  pub info : Info
  pub kind : String
  pub flow_id : Text
  pub proxy_id : Text
  pub protocol : String
  pub grpc_status : Text
  pub started_at : ℕ
  pub finished_at : Option ℕ
  pub rule_id : Text
  pub eligible_sequence : ℕ
  pub selector : String
  pub probability : Option Float64
  pub nth : Option ℕ
  pub every : Option ℕ
  pub selected : Bool
  pub reached : Bool
  pub applied : Bool
  pub not_reached : Bool
  pub phase : String
  pub action : String
  pub outcome : String
  pub error_kind : String
  pub upstream_status : ℕ

abbrev pub selector_name : Selector → String
selector_name s = elim s.probability [
  | some p ↦ "probability"
  | none ↦ elim s.nth [ some n ↦ "nth" | none ↦ elim s.every [ some k ↦ "every" | none ↦ "" ] ]
]

-- What an event of this kind says of the outcome.
unfoldable pub event_outcome : String → Report → String
event_outcome kind r =
    if not (kind == "flow_finished")
    then ""
    else if r.outcome == "completed"
    then (if r.applied then "fault_applied" else "pass_through")
    else if r.outcome == "canceled"
    then r.error_kind
    else r.outcome

unfoldable pub event : String → Report → Text → Event
event kind r proxy_id = record {
  info = r.info;
  kind = kind;
  flow_id = r.flow_id;
  proxy_id = proxy_id;
  protocol = r.protocol;
  grpc_status = r.grpc_status;
  started_at = r.started_at;
  finished_at = r.finished_at;
  rule_id = r.decision.rule_id;
  eligible_sequence = r.decision.eligible_sequence;
  selector = selector_name r.decision.selector;
  probability = r.decision.selector.probability;
  nth = r.decision.selector.nth;
  every = r.decision.selector.every;
  selected = r.decision.selected;
  reached = r.reached;
  applied = r.applied;
  not_reached = r.not_reached;
  phase = r.decision.fault.phase;
  action = r.decision.fault.action;
  outcome = event_outcome kind r;
  error_kind = r.error_kind;
  upstream_status = r.upstream_status;
}

-- The event as the recorder reads it; `encoded` is the text of the other fields.
abbrev pub recorded_event : (Event → Text) → Event → RecordedEvent
recorded_event encoded e = record {
  kind = e.kind;
  rule_id = e.rule_id;
  selected = e.selected;
  applied = e.applied;
  outcome = codes e.outcome;
  rest = encoded e;
}

-- What `errors.As` finds in an error.
pub data Class : Type 0 where
  certificate_error timeout_error other_error : Class

unfoldable pub error_kind : Class → String → String
error_kind certificate_error fallback = "upstream_tls"
error_kind timeout_error fallback = "upstream_timeout"
error_kind other_error fallback = fallback

-- The encodings of the characters that `strings.TrimSpace` removes.
abbrev pub spaces : List Text
spaces =
    (9 ∷ [])
    ∷ (10 ∷ [])
    ∷ (11 ∷ [])
    ∷ (12 ∷ [])
    ∷ (13 ∷ [])
    ∷ (32 ∷ [])
    ∷ (194 ∷ 133 ∷ [])
    ∷ (194 ∷ 160 ∷ [])
    ∷ (225 ∷ 154 ∷ 128 ∷ [])
    ∷ (226 ∷ 128 ∷ 128 ∷ [])
    ∷ (226 ∷ 128 ∷ 129 ∷ [])
    ∷ (226 ∷ 128 ∷ 130 ∷ [])
    ∷ (226 ∷ 128 ∷ 131 ∷ [])
    ∷ (226 ∷ 128 ∷ 132 ∷ [])
    ∷ (226 ∷ 128 ∷ 133 ∷ [])
    ∷ (226 ∷ 128 ∷ 134 ∷ [])
    ∷ (226 ∷ 128 ∷ 135 ∷ [])
    ∷ (226 ∷ 128 ∷ 136 ∷ [])
    ∷ (226 ∷ 128 ∷ 137 ∷ [])
    ∷ (226 ∷ 128 ∷ 138 ∷ [])
    ∷ (226 ∷ 128 ∷ 168 ∷ [])
    ∷ (226 ∷ 128 ∷ 169 ∷ [])
    ∷ (226 ∷ 128 ∷ 175 ∷ [])
    ∷ (226 ∷ 129 ∷ 159 ∷ [])
    ∷ (227 ∷ 128 ∷ 128 ∷ [])
    ∷ []

-- The text without its first piece of the list that is a prefix.
unfoldable pub strip_one : List Text → Text → Option Text
strip_one [] s = none
strip_one (p ∷ ps) s =
    let rest = strip_one ps s in if has_prefix s p then some (drop (length p) s) else rest

-- On fuel for each byte of the text.
unfoldable pub trim_left : ℕ → Text → Text
trim_left zero s = s
trim_left (suc fuel) s = elim (strip_one spaces s) [ none ↦ s | some rest ↦ trim_left fuel rest ]

-- `strings.EqualFold(strings.TrimSpace(token), "upgrade")`: the token is the word between spaces.
unfoldable pub only_spaces : Text → Bool
only_spaces s = is_nil (trim_left (length s) s)

unfoldable pub is_upgrade : Text → Bool
is_upgrade token =
    let s = trim_left (length token) token in
    equal_fold (take 7 s) (codes "upgrade") && only_spaces (drop 7 s)

abbrev pub any_text : (Text → Bool) → List Text → Bool
any_text test [] = false
any_text test (s ∷ ss) = test s || any_text test ss

unfoldable pub has_upgrade : List (Text × List Text) → Bool
has_upgrade headers =
    any_text (λ value. any_text is_upgrade (split b',' value))
      (header_values (codes "Connection") headers)

-- What the proxy answers with 501.
unfoldable pub unsupported : String → Request → Bool
unsupported protocol r =
    protocol == "http1" && (not (r.major == 1) || not (r.minor == 1))
    || not (protocol == "http1") && not (r.major == 2)
    || r.method == codes "CONNECT"
    || not (is_nil (header_get (codes "Upgrade") r.headers))
    || has_upgrade r.headers
    || r.absolute

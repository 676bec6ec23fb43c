-- ===== src/Examples/Http.antt =====
-- A request to a local proxy whose rule answers it, a request that is sent on, and tests of single functions.
use faultline.Common.{
  ℕ, ◌+◌, ◌≤◌, ◌<◌, ◌^◌, true, false, Option, none, some, List, [], ◌∷◌, ◌==◌, string_eq, text_beq,
  ◌≡◌, ◌⊎◌, refl, arith, length, if◌then◌else◌, inr,
}
use faultline.Common.Strings.{codes, split, has_prefix}
use faultline.Common.Int.{pos}
use faultline.Engine.State.{Decision}
use faultline.Grpc.Metadata.{Request, header_values}
use faultline.Http.Flow.{
  Endpoint, World, answered, Handling, Reply, record_kind, record_now, context_error, fault_applied,
  respond, cancel_upstream, plain, relayed,
}
use faultline.Fault.Builtin.{execute, perform, respond_with}
use faultline.Http.Handler.{
  Exit, returned, decide_request, act, apply, apply_reached, reach, after_execute, relay, fail,
}
use faultline.Http.Report.{
  other_error, event, has_upgrade, is_upgrade, trim_left, strip_one, only_spaces, unsupported,
}
use faultline.Http.Serve.{
  serve, dispatch, metadata, admit, with_slot, new_handling, settle, ended_report, classified,
  finish,
}
use faultline.Http.Served.{serve_answers, serve_restores, serve_explains}
use faultline.Http.Sound.{Decides}
use faultline.Recorder.State.{inc, new, record_event, enqueue, count_event}
use faultline.Recorder.Tally.{Counted}
use faultline.Examples.Config.{answer_second, second}
use faultline.Examples.Control.{initial}
use faultline.Examples.Fault.{valid_rule, rule_valid}

abbrev get_order : Request
get_order = record {
  major = 1;
  minor = 1;
  method = codes "GET";
  path = codes "/orders";
  absolute = false;
  headers = [];
  has_body = false;
}

abbrev orders : Endpoint
orders = record {
  proxy_id = codes "orders";
  protocol = "http1";
  request_timeout = 1000000000;
  max_inflight = 8;
  recording = true;
  executing = true;
}

abbrev answered_by_rule : Decision
answered_by_rule = record {
  proxy_id = codes "orders";
  rule_id = codes "r1";
  eligible_sequence = 2;
  selected = true;
  selector = second;
  fault = valid_rule.fault;
}

abbrev local : World
local = record {
  info = initial;
  flow_id = codes "F";
  started_at = 1;
  finished_at = 2;
  decide = λ m. some (false, answered_by_rule);
  ended_at = none;
  shutting_down = false;
  uploaded = λ t. true;
  close_error = none;
  write_error = none;
  round_trip = answered (record {
    status = 200;
    has_body = true;
    copied = true;
    trailer_status = [];
    header_status = [];
  });
  told_before = false;
  told_after = false;
  class_of = λ e. other_error;
  encoded = λ e. e.flow_id;
}

local-Decides : Decides local
local-Decides = record {
  answers = λ m. (false, answered_by_rule, refl);
  chosen = λ m failed d e. inr (record {
    rule = answer_second;
    path = [];
    checked = valid_rule;
    accepted = rule_valid;
    same = ground (arith, e);
  });
}

few : (new 4).counts.active < 2 ^ 64
unfolding new
few = omega arith

few_faults : (new 4).counts.active_faults < 2 ^ 64
unfolding new
few_faults = omega arith

serve_answers_example :
    (x : Exit × Handling) × (serve local orders get_order (new 4) 3 ≡ some x)
    × (length x.1.replies ≤ 1)
    × (x.0 ≡ returned → 1 ≤ length x.1.replies + (if x.1.disconnected then 1 else 0))
serve_answers_example =
    serve_answers local orders get_order (new 4) 3 refl local-Decides few few_faults

serve_restores_example :
    (x : Exit × Handling) × (serve local orders get_order (new 4) 3 ≡ some x)
    × (x.1.in_flight ≡ 3)
    × Counted x.1.recorder
        (inc (new 4).counts.total)
        (new 4).counts.active
        (new 4).counts.active_faults
serve_restores_example =
    serve_restores local orders get_order (new 4) 3 refl local-Decides few few_faults

serve_explains_example :
    (x : Exit × Handling) × (serve local orders get_order (new 4) 3 ≡ some x)
    × (x.0 ≡ returned
        → (x.1.report.outcome == "completed") ≡ true
        → (x.1.applied ≡ true) ⊎ ((status : ℕ) × (x.1.replies ≡ relayed status ∷ [])))
serve_explains_example =
    serve_explains local orders get_order (new 4) 3 refl local-Decides few few_faults

upgrade_found : has_upgrade ((codes "Connection", codes "keep-alive, Upgrade " ∷ []) ∷ []) ≡ true
unfolding has_upgrade header_values text_beq split is_upgrade trim_left strip_one has_prefix
    only_spaces
upgrade_found = refl

replies_of : Option (Exit × Handling) → List Reply
replies_of none = []
replies_of (some x) = x.1.replies

rule_answers :
    replies_of (serve local orders get_order (new 4) 3) ≡ plain (pos 503) (some 0) [] ∷ []
unfolding replies_of serve dispatch unsupported text_beq header_values has_upgrade metadata admit
    with_slot decide_request act apply apply_reached reach record_kind record_now new_handling
    record_event enqueue count_event event execute perform respond_with context_error fault_applied
    respond after_execute relay fail settle cancel_upstream ended_report classified finish new
rule_answers = refl

-- ===== src/Http/Handler.antt =====
-- internal/proxy/http/handler.go: `ServeHTTP` with its closures and deferred functions. `httputil.ReverseProxy` calls
-- `fail` for an error of the transport or of `ModifyResponse`, and else sends the answer on.
use mathlib.Core.Option
use faultline.Common.{
  Bool, true, false, not, ◌&&◌, ◌||◌, Option, none, some, [], String, Text, ◌==◌, nat_eq, string_eq,
  text_eq, is_nil, if◌then◌else◌,
}
use faultline.Common.Strings.{codes}
use faultline.Config.Model.{before_upstream_request, after_upstream_headers}
use faultline.Engine.Match.{Metadata}
use faultline.Engine.State.{Decision}
use faultline.Fault.Builtin.{Execution, execute}
use faultline.Grpc.Metadata.{Request}
use faultline.Http.Flow.{
  Endpoint, Response, Answer, unreachable, answered, World, error_page, rpc_error, relayed,
  Handling, tick, reply, with_report, is_http2, context_error, record_kind, fault_applied,
  close_connection, flow,
}
use faultline.Http.Report.{
  Cause, Error, flow_completed, unavailable, aborted, upgrade_refused, undecided, context_ended,
  execution, upstream, event,
}

-- How the handler ends; the panic is that of `http.ErrAbortHandler`.
pub data Exit : Type 0 where
  returned panicked : Exit

-- `none` is a panic on a nil field of a decision's fault, or in the engine.
abbrev pub Served : Type 0
Served = Option (Exit × Handling)

-- The outcome and its error kind for a request that is not forwarded.
abbrev pub refuse : String → Handling → Handling
refuse kind s = with_report (record s.report { outcome = kind; error_kind = kind }) s

-- `Metadata{Method, Path, Headers}`
abbrev pub http_metadata : Request → Metadata
http_metadata r = record { method = r.method; service = []; path = r.path; headers = r.headers }

abbrev pub is_body_action : String → Bool
is_body_action action = action == "truncate" || action == "throttle"

module _ (w : World) (h : Endpoint) (r : Request) where
  abbrev pub is_grpc : Bool
  is_grpc = h.protocol == "grpc"

  -- `upload.complete`
  abbrev pub upload_complete : Handling → Bool
  upload_complete s = not r.has_body || w.uploaded s.now

  -- The beginning of `apply`, for a fault of this phase.
  unfoldable pub reach : Handling → Handling
  reach s =
      let s' =
        record_kind w h r "fault_reached" (with_report (record s.report { reached = true }) s) in
      record s' {
        applied_event = record (event "fault_applied" s'.report h.proxy_id) { applied = true };
      }

  -- A withheld upload is read and thrown away.
  abbrev pub discard : Handling → Handling
  discard s = record s {
    discarding =
        s.discarding
        || r.major == 1
          && s.report.decision.fault.action == "hold_request"
          && not (upload_complete s);
  }

  unfoldable pub after_execute : Execution Handling → Option Error × Handling
  after_execute x =
      let s = if x.applied then fault_applied w h r x.state else x.state in
      elim x.error [
        | some e ↦ (
          some (execution e),
          with_report (record s.report { outcome = "executor_error"; err = some (execution e) }) s,
        )
        | none ↦ (if s.terminal then some flow_completed else none, s)
      ]

  unfoldable pub apply_reached : Handling → Option (Option Error × Handling)
  apply_reached s =
      let executed = execute (flow w h r) s.report.decision.fault (tick (discard s)) in
      if is_body_action s.report.decision.fault.action
      then some (none, s)
      else if not h.executing
      then some (some unavailable, s)
      else Option.map after_execute executed

  unfoldable pub apply : String → Handling → Option (Option Error × Handling)
  apply phase s =
      if not s.report.decision.selected || not (s.report.decision.fault.phase == phase)
      then some (none, s)
      else apply_reached (reach s)

  abbrev pub is_unavailable : Error → Bool
  is_unavailable unavailable = true
  is_unavailable _ = false

  -- `fail` behind its two early returns.
  unfoldable pub fail_status : Error → Handling → Exit × Handling
  fail_status err s =
      let outcome =
        if is_unavailable err
        then "executor_unavailable"
        else if s.report.outcome == "completed"
        then "upstream_error"
        else s.report.outcome in
      let s' = with_report (record s.report { outcome = outcome; err = some err }) s in
      let page =
        if is_unavailable err
        then error_page 501 "Not Implemented" (r.major == 1)
        else error_page 502 "Bad Gateway" (r.major == 1) in
      if s.terminal
      then (returned, s')
      else if is_grpc
      then (returned, reply (rpc_error "14" "upstream unavailable") s')
      else (returned, reply page s')

  unfoldable pub fail_ended : Cause → Handling → Exit × Handling
  fail_ended cause s =
      let s' = with_report (record s.report { err = some (context_ended cause) }) s in
      if is_http2 r then (panicked, s') else (returned, (close_connection w h r s').1)

  unfoldable pub fail_error : Error → Handling → Exit × Handling
  fail_error err s = elim (context_error w h r s) [
    | some cause ↦ fail_ended cause s
    | none ↦ fail_status err s
  ]

  unfoldable pub fail : Error → Handling → Exit × Handling
  fail flow_completed s = (if is_http2 r && s.disconnected then panicked else returned, s)
  fail err s = fail_error err (tick s)

  -- `bodyAction`, and the directions in which the body is wrapped.
  abbrev pub body_action : Handling → Bool
  body_action s = s.report.decision.selected && is_body_action s.report.decision.fault.action

  abbrev pub wraps_request : Handling → Bool
  wraps_request s = body_action s && s.report.decision.fault.direction == "request"

  abbrev pub wraps_response : Response → Handling → Bool
  wraps_response a s =
      body_action s
      && s.report.decision.fault.direction == "response"
      && not (r.method == codes "HEAD")
      && a.has_body

  -- A wrapped body tells its observer.
  abbrev pub told : Bool → Handling → Handling
  told tells s = if tells then fault_applied w h r s else s

  -- `ModifyResponse`, up to the wrapping of the body.
  unfoldable pub modify_response : Response → Handling → Option (Option Error × Handling)
  modify_response a s =
      let s' = record (with_report (record s.report { upstream_status = a.status }) s) {
        body = true;
      } in
      let modified = apply after_upstream_headers s' in
      if a.status == 101 then some (some upgrade_refused, s') else modified

  -- The answer is sent on.
  unfoldable pub copy_response : Response → Handling → Exit × Handling
  copy_response a s = (
    if a.copied then returned else panicked,
    reply (relayed a.status) (told (w.told_after && (wraps_request s || wraps_response a s)) s),
  )

  unfoldable pub pass_on : Response → Option Error × Handling → Exit × Handling
  pass_on a (some err, s) = fail err s
  pass_on a (none, s) = copy_response a s

  -- The deferred `recover`, and the status of the RPC behind `ServeHTTP`.
  unfoldable pub recovered : Exit × Handling → Exit × Handling
  recovered (returned, s) = (returned, s)
  recovered (panicked, s) =
      (panicked, with_report (record s.report { outcome = "stream_error"; err = some aborted }) s)

  abbrev pub rpc_status : Response → Text
  rpc_status a = if is_nil a.trailer_status then a.header_status else a.trailer_status

  unfoldable pub rpc_outcome : Response → Exit × Handling → Exit × Handling
  rpc_outcome a (panicked, s) = (panicked, s)
  rpc_outcome a (returned, s) =
      let s' = with_report (record s.report { grpc_status = rpc_status a }) s in
      let failed = record s'.report { outcome = "rpc_error"; error_kind = "upstream_rpc" } in
      if not is_grpc || a.status == 101
      then (returned, s)
      else if rpc_status a == codes "0"
      then (returned, s')
      else (returned, with_report failed s')

  -- `proxy.ServeHTTP`
  unfoldable pub forward : Answer → Handling → Served
  forward (unreachable err) s = some (recovered (fail (upstream err) s))
  forward (answered a) s =
      Option.map (λ m. rpc_outcome a (recovered (pass_on a m))) (modify_response a s)

  unfoldable pub relay : Option Error × Handling → Served
  relay (some err, s) = some (fail err s)
  relay (none, s) = forward w.round_trip (tick (told (w.told_before && wraps_request s) s))

  unfoldable pub act : Bool × Decision → Handling → Served
  act (failed, d) s =
      let s' = record_kind w h r "decision" (with_report (record s.report { decision = d }) s) in
      let undone = record s'.report { outcome = "proxy_error"; err = some undecided } in
      let applied = apply before_upstream_request s' in
      if failed
      then some
          (returned, reply (error_page 500 "proxy decision failed" false) (with_report undone s'))
      else elim applied [ none ↦ none | some m ↦ relay m ]

  unfoldable pub decide_request : Metadata → Handling → Served
  decide_request m s = elim (w.decide m) [ none ↦ none | some answer ↦ act answer s ]

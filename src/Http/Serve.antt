-- ===== src/Http/Serve.antt =====
-- internal/proxy/http/handler.go: `ServeHTTP` from its first event to its last, with the slot that it takes and the
-- function that it defers behind the proxy.
use mathlib.Core.Option
use faultline.Common.{
  ℕ, ◌+◌, ◌-◌, Bool, true, false, not, ◌&&◌, ◌||◌, Option, none, some, [], String, Text, ◌==◌, min,
  nat_eq, string_eq, is_nil, ltb, if◌then◌else◌,
}
use faultline.Common.Strings.{codes}
use faultline.Control.Service.{Info}
use faultline.Engine.Match.{Metadata}
use faultline.Engine.State.{no_decision}
use faultline.Grpc.Metadata.{Request, header_get, grpc_metadata}
use faultline.Grpc.Timeout.{timeout as grpc_timeout}
use faultline.Http.Flow.{
  Endpoint, World, error_page, rpc_error, Reply, Handling, tick, reply, with_report, context_error,
  record_kind, cancel_upstream,
}
use faultline.Http.Handler.{
  Exit, returned, Served, is_grpc, upload_complete, refuse, http_metadata, decide_request,
}
use faultline.Http.Report.{
  Cause, deadline_exceeded, client_gone, context_ended, Report, Event, event, error_kind,
  unsupported,
}
use faultline.Recorder.State.{Recorder}

-- `errors.Is(ctx.Err(), context.DeadlineExceeded)` behind the test for a shutdown.
abbrev pub cause_kind : Bool → Cause → String
cause_kind true cause = "shutdown"
cause_kind false deadline_exceeded = "proxy_timeout"
cause_kind false client_gone = "client_canceled"

abbrev pub is_some {ℓ} : {A : Type ℓ} → Option A → Bool
is_some none = false
is_some (some a) = true

module _ (w : World) (h : Endpoint) (r : Request) where
  -- The outcome of a flow whose context has ended, unless the disconnection was the fault's.
  unfoldable pub ended_report : Option Cause → Bool → Report → Report
  ended_report none disconnected report = report
  ended_report (some cause) disconnected report =
      if not disconnected || is_some report.err
      then record report {
        outcome = "canceled";
        err = some (context_ended cause);
        error_kind = cause_kind w.shutting_down cause;
      }
      else report

  unfoldable pub classified : Report → Report
  classified report = elim report.err [
    | none ↦ report
    | some e ↦
        if report.error_kind == ""
        then record report { error_kind = error_kind (w.class_of e) report.outcome }
        else report
  ]

  -- The deferred function behind the proxy.
  unfoldable pub settle : Handling → Handling
  settle s =
      let s' = cancel_upstream w h r (tick s) in
      record s' {
        closed = s'.closed || r.major == 1 && not (upload_complete w h r s');
        report = classified (
            ended_report (context_error w h r s') s'.disconnected
              (record s'.report { applied = s'.applied }));
      }

  abbrev pub settled : Exit × Handling → Exit × Handling
  settled (exit, s) = (exit, settle s)

  -- The deferred receive from `slots`.
  abbrev pub released : Exit × Handling → Exit × Handling
  released (exit, s) = (exit, record s { in_flight = s.in_flight - 1 })

  abbrev pub timeout_text : Text
  timeout_text = header_get (codes "Grpc-Timeout") r.headers

  unfoldable pub with_timeout : Metadata → Option ℕ → Handling → Served
  with_timeout m none s =
      some (returned, reply (rpc_error "3" "invalid grpc-timeout") (refuse "unsupported_request" s))
  with_timeout m (some rpc_timeout) s =
      Option.map settled
        (decide_request w h r m (record s { timeout = min h.request_timeout rpc_timeout }))

  -- The request with its slot.
  unfoldable pub with_slot : Metadata → Handling → Served
  with_slot m s =
      let plain = decide_request w h r m (record s { timeout = h.request_timeout }) in
      if is_grpc w h r && not (is_nil timeout_text)
      then with_timeout m (grpc_timeout timeout_text) s
      else Option.map settled plain

  abbrev pub overload_reply : Reply
  overload_reply =
      if is_grpc w h r
      then rpc_error "8" "proxy inflight limit reached"
      else error_page 503 "proxy inflight limit reached" (r.major == 1)

  -- The `select` on the slots.
  unfoldable pub admit : Metadata → Handling → Served
  admit m s =
      let served = with_slot m (record s { in_flight = s.in_flight + 1 }) in
      if ltb s.in_flight h.max_inflight
      then Option.map released served
      else some (returned, reply overload_reply (refuse "proxy_overload" s))

  unfoldable pub metadata : Option Metadata
  metadata = if is_grpc w h r then grpc_metadata r else some (http_metadata r)

  unfoldable pub dispatch : Handling → Served
  dispatch s =
      let page = error_page 501 "unsupported reverse proxy request" (r.major == 1) in
      let invalid = rpc_error "12" "invalid gRPC request" in
      if unsupported h.protocol r
      then some (returned, reply page (refuse "unsupported_request" s))
      else elim metadata [
        | none ↦ some (returned, reply invalid (refuse "unsupported_request" s))
        | some m ↦ admit m s
      ]

  -- The first deferred function: the last event.
  unfoldable pub finish : Exit × Handling → Exit × Handling
  finish (exit, s) = (
    exit,
    record_kind w h r "flow_finished" (
        with_report
          (record s.report {
            finished_at = some w.finished_at;
            not_reached = s.report.decision.selected && not s.report.reached;
          })
          s),
  )

  abbrev pub new_report : Report
  new_report = record {
    protocol = h.protocol;
    grpc_status = [];
    flow_id = w.flow_id;
    info = w.info;
    decision = no_decision [];
    reached = false;
    applied = false;
    not_reached = false;
    outcome = "completed";
    err = none;
    started_at = w.started_at;
    finished_at = none;
    upstream_status = 0;
    error_kind = "";
  }

  -- The zero value of an event.
  abbrev pub no_event : Event
  no_event =
      let info : Info = record {
        run_id = [];
        revision = 0;
        enabled = false;
        control_sequence = 0;
        applied_at = 0;
        state_changed_at = 0;
      } in
      event ""
        (record new_report {
          protocol = "";
          flow_id = [];
          info = info;
          outcome = "";
          started_at = 0;
        })
        []

  -- The variables of `ServeHTTP` at its start, over the shared recorder and slots.
  unfoldable pub new_handling : Recorder → ℕ → Handling
  new_handling recorder in_flight = record {
    report = new_report;
    terminal = false;
    disconnected = false;
    applied = false;
    applied_event = no_event;
    recorder = recorder;
    replies = [];
    closed = false;
    upstream_canceled = false;
    body = false;
    body_closed = false;
    discarding = false;
    timeout = 0;
    in_flight = in_flight;
    now = 0;
  }

  unfoldable pub serve : Recorder → ℕ → Served
  serve recorder in_flight =
      Option.map finish
        (dispatch (record_kind w h r "flow_started" (new_handling recorder in_flight)))

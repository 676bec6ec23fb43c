-- ===== src/Http/Flow.antt =====
-- internal/proxy/http/handler.go: `handler`, `flow` and the variables that the closures of `ServeHTTP` share, as
-- one state, and what the handler finds outside itself as a `World`.
use faultline.Common.{
  ℕ, ◌+◌, Bool, true, false, not, ◌||◌, Option, none, some, List, [], ◌∷◌, ◌++◌, String, Text, ◌==◌,
  nat_eq, text_eq, length, leb, if◌then◌else◌,
}
use faultline.Common.Int.{ℤ, pos, negsuc}
use faultline.Common.Strings.{codes}
use faultline.Control.Service.{Info}
use faultline.Engine.Match.{Metadata}
use faultline.Engine.State.{Decision}
use faultline.Fault.Builtin.{Flow, Failure, canceled, failed}
use faultline.Grpc.Metadata.{Request}
use faultline.Http.Report.{
  Cause, deadline_exceeded, client_gone, Error, Report, Event, Class, event, recorded_event,
}
use faultline.Recorder.State.{Recorder, record_event}

-- `recording` and `executing` say that there is a recorder and an executor.
pub record Endpoint : Type 0 where
  pub proxy_id : Text
  pub protocol : String
  pub request_timeout : ℕ
  pub max_inflight : ℕ
  pub recording : Bool
  pub executing : Bool

-- An answer of the upstream: whether its body is sent on to the end, and the RPC's status in trailer and header.
pub record Response : Type 0 where
  pub status : ℕ
  pub has_body : Bool
  pub copied : Bool
  pub trailer_status : Text
  pub header_status : Text

-- What the transport returns: its error by a number, or the answer.
pub data Answer : Type 0 where
  unreachable : ℕ → Answer
  answered : Response → Answer

-- The clock, the peers and the rest of the program. The context ends when the handler's clock reaches `ended_at`;
-- `uploaded` says at a time that the upload was read to its end; `told_before` and `told_after` that a wrapped
-- body tells its observer before the upstream's answer, or behind it; `decide` is `Snapshot.Decide`, with
-- whether it is an error, or a panic; `encoded` is the text of an event.
pub record World : Type 0 where
  pub info : Info
  pub flow_id : Text
  pub started_at : ℕ
  pub finished_at : ℕ
  pub decide : Metadata → Option (Bool × Decision)
  pub ended_at : Option (ℕ × Cause)
  pub shutting_down : Bool
  pub uploaded : ℕ → Bool
  pub close_error : Option Failure
  pub write_error : Option Failure
  pub round_trip : Answer
  pub told_before : Bool
  pub told_after : Bool
  pub class_of : Error → Class
  pub encoded : Event → Text

-- What is written to the client: `Respond` with its content length and body, `http.Error` with whether it asks to
-- close the connection, `grpcproxy.Error`, and an answer of the upstream.
pub data Reply : Type 0 where
  plain : ℤ → Option ℕ → Text → Reply
  error_page : ℕ → String → Bool → Reply
  rpc_error : String → String → Reply
  relayed : ℕ → Reply

-- `now` is the handler's clock; `in_flight` counts the slots that are taken; `body` says that the upstream's
-- body is known, `timeout` is the one that the context got.
pub record Handling : Type 0 where
  pub report : Report
  pub terminal : Bool
  pub disconnected : Bool
  pub applied : Bool
  pub applied_event : Event
  pub recorder : Recorder
  pub replies : List Reply
  pub closed : Bool
  pub upstream_canceled : Bool
  pub body : Bool
  pub body_closed : Bool
  pub discarding : Bool
  pub timeout : ℕ
  pub in_flight : ℕ
  pub now : ℕ

abbrev pub tick : Handling → Handling
tick s = record s { now = s.now + 1 }

abbrev pub reply : Reply → Handling → Handling
reply answer s = record s { replies = s.replies ++ answer ∷ [] }

abbrev pub with_report : Report → Handling → Handling
with_report report s = record s { report = report }

-- The errors of `Respond` and of `CloseConnection`, and a context's deadline.
abbrev pub already_completed : Failure
already_completed = failed 1

abbrev pub closure_unavailable : Failure
closure_unavailable = failed 2

abbrev pub failure_of : Option Cause → Option Failure
failure_of none = none
failure_of (some deadline_exceeded) = some (failed 0)
failure_of (some client_gone) = some canceled

abbrev pub is_http2 : Request → Bool
is_http2 r = r.major == 2

-- `http.StatusNoContent`, `StatusNotModified` or `StatusResetContent`
abbrev pub without_body : ℤ → Bool
without_body (pos n) = n == 204 || n == 304 || n == 205
without_body (negsuc n) = false

abbrev pub reset_length : ℤ → Option ℕ
reset_length (pos n) = if n == 205 then some 0 else none
reset_length (negsuc n) = none

module _ (w : World) (h : Endpoint) (r : Request) where
  -- `ctx.Err()`
  unfoldable pub context_error : Handling → Option Cause
  context_error s = elim w.ended_at [
    | none ↦ none
    | some (end, cause) ↦ if leb end s.now then some cause else none
  ]

  unfoldable pub record_now : Event → Handling → Handling
  record_now e s =
      if h.recording
      then record s { recorder = record_event (recorded_event w.encoded e) s.recorder }
      else s

  -- The closure `record`
  unfoldable pub record_kind : String → Handling → Handling
  record_kind kind s = record_now (event kind s.report h.proxy_id) s

  -- `FaultApplied`, with `onApplied`
  unfoldable pub fault_applied : Handling → Handling
  fault_applied s =
      if s.applied then s else record_now s.applied_event (record s { applied = true })

  unfoldable pub cancel_upstream : Handling → Handling
  cancel_upstream s = record s { upstream_canceled = true; body_closed = s.body || s.body_closed }

  unfoldable pub respond : ℤ → Text → Handling → Option Failure × Handling
  respond status text s =
      let done = record s { terminal = true } in
      if s.terminal
      then (some already_completed, s)
      else if without_body status
      then (none, reply (plain status (reset_length status) []) done)
      else if r.method == codes "HEAD"
      then (none, reply (plain status (some (length text)) []) done)
      else (w.write_error, reply (plain status (some (length text)) text) done)

  unfoldable pub close_connection : Handling → Option Failure × Handling
  close_connection s =
      if is_http2 r
      then (some closure_unavailable, s)
      else if s.terminal
      then (some already_completed, s)
      else (w.close_error, record s { terminal = true; disconnected = true; closed = true })

  unfoldable pub end_stream : Handling → Option Failure × Handling
  end_stream s =
      if not (is_http2 r)
      then close_connection s
      else (none, record s { terminal = true; disconnected = true })

  -- `wait` of the executor returns the context's error when its timer or the context is done.
  unfoldable pub wait : ℤ → Handling → Option Failure × Handling
  wait duration s = let s' = tick s in (failure_of (context_error s'), s')

  -- The adapter's side of the executor.
  abbrev pub flow : Flow Handling
  flow = record {
    context_err = λ s. failure_of (context_error s);
    cancel_upstream = cancel_upstream;
    respond = respond;
    close_connection = close_connection;
    end_stream = some end_stream;
    fault_applied = some fault_applied;
    wait = wait;
  }

-- ===== src/Tcp/Connection.antt =====
-- internal/proxy/tcp/server.go: `serve`, `waitBeforeDial` and `appliedEvent`. What the client, the dialled upstream and
-- the two directions of `forward` do is an input; a read beyond the list of the client's reads fails.
use faultline.Common.{
  ℕ, zero, suc, ◌-◌, Bool, true, false, not, ◌&&◌, ◌||◌, Option, none, some, List, [], ◌∷◌, ◌++◌,
  String, Text, ◌==◌, string_eq, min, length, ltb, take, if◌then◌else◌,
}
use faultline.Common.Strings.{codes}
use faultline.Config.Model.{Fault, Selector}
use faultline.Control.Service.{Info}
use faultline.Engine.State.{Decision, no_decision}
use faultline.Recorder.State.{Recorder, record_event}
use faultline.Tcp.Fault.{
  FaultState, new_fault, start, stop, timer_fires, hold_timer_fires, reached_bytes,
}

-- The fields of a connection's events that `serve` writes.
pub record Event : Type 0 where
  pub info : Info
  pub kind : String
  pub flow_id : Text
  pub proxy_id : Text
  pub started_at : ℕ
  pub finished_at : Option ℕ
  pub rule_id : Text
  pub eligible_sequence : ℕ
  pub selected : Bool
  pub phase : String
  pub action : String
  pub selector : Selector
  pub reached : Bool
  pub applied : Bool
  pub not_reached : Bool
  pub outcome : String
  pub client_bytes : ℕ
  pub upstream_bytes : ℕ

-- How one `Read` of the client ends: with no error, by the deadline that the delay sets, or otherwise.
pub data Ending : Type 0 where
  fine expired broken : Ending

-- A step of the fault's state while the connection is forwarded: a timer fires, or a direction has sent bytes.
pub data Move : Type 0 where
  timer hold_timer : Move
  sent : String → ℕ → Move

-- `canceled` says that the context has ended when the deadline passes, or before the timer behind a full buffer.
pub record Peers : Type 0 where
  pub info : Info
  pub flow_id : Text
  pub started_at : ℕ
  pub finished_at : ℕ
  pub decision : Decision
  pub reads : List (Text × Ending)
  pub canceled : Bool
  pub dialled : Bool
  pub moves : List Move
  pub client_bytes : ℕ
  pub upstream_bytes : ℕ
  pub encoded : Event → Text

-- The buffer of `waitBeforeDial`, 16<<10 bytes.
abbrev pub prefetch_limit : ℕ
prefetch_limit = 16384

-- What is read before the delay is over; `none` is the error.
unfoldable pub wait_before_dial : Bool → Text → List (Text × Ending) → Option Text
wait_before_dial canceled buffer [] =
    if ltb (length buffer) prefetch_limit || canceled then none else some buffer
wait_before_dial canceled buffer ((bytes, ending) ∷ reads) =
    let room = min 4096 (prefetch_limit - length buffer) in
    let buffer' = buffer ++ take room bytes in
    let rest = wait_before_dial canceled buffer' reads in
    if not (ltb (length buffer) prefetch_limit)
    then (if canceled then none else some buffer)
    else elim ending [
      | fine ↦ rest
      | expired ↦ if canceled then none else some buffer'
      | broken ↦ none
    ]

unfoldable pub applied_event : Event → Event
applied_event e = record e { kind = "fault_applied"; reached = true; applied = true }

unfoldable pub move : Move → FaultState → FaultState
move timer s = timer_fires s
move hold_timer s = hold_timer_fires s
move (sent direction count) s = reached_bytes direction count s

-- The fault's state while the connection is forwarded, and behind it.
unfoldable pub run_fault : List Move → FaultState → FaultState
run_fault [] s = s
run_fault (m ∷ ms) s = run_fault ms (move m s)

abbrev pub forwarded_fault : List Move → Fault → FaultState
forwarded_fault moves f = stop (run_fault moves (start (new_fault f)))

-- The variables that the deferred function reads.
pub record Connection : Type 0 where
  pub event : Event
  pub applied : Bool
  pub outcome : String
  pub client_bytes : ℕ
  pub upstream_bytes : ℕ
  pub recorder : Recorder

module _ (p : Peers) (proxy_id : Text) where
  -- `records.Record`
  unfoldable pub record_tcp : Event → Recorder → Recorder
  record_tcp e r =
      record_event
        (record {
          kind = e.kind;
          rule_id = e.rule_id;
          selected = e.selected;
          applied = e.applied;
          outcome = codes e.outcome;
          rest = p.encoded e;
        })
        r

  unfoldable pub started_event : Event
  started_event = record {
    info = p.info;
    kind = "flow_started";
    flow_id = p.flow_id;
    proxy_id = proxy_id;
    started_at = p.started_at;
    finished_at = none;
    rule_id = [];
    eligible_sequence = 0;
    selected = false;
    phase = "";
    action = "";
    selector = (no_decision []).selector;
    reached = false;
    applied = false;
    not_reached = false;
    outcome = "";
    client_bytes = 0;
    upstream_bytes = 0;
  }

  unfoldable pub decision_event : Event
  decision_event = record started_event {
    kind = "decision";
    rule_id = p.decision.rule_id;
    eligible_sequence = p.decision.eligible_sequence;
    selected = p.decision.selected;
    phase = p.decision.fault.phase;
    action = p.decision.fault.action;
    selector = p.decision.selector;
  }

  -- Each call of `onApply`.
  unfoldable pub tell : ℕ → Connection → Connection
  tell zero c = c
  tell (suc n) c =
      tell n (record c { applied = true; recorder = record_tcp (applied_event c.event) c.recorder })

  -- From the dialling on.
  unfoldable pub dial : Bool → Connection → Connection
  dial delayed c =
      let fault = forwarded_fault p.moves p.decision.fault in
      let forwarded = record c {
        client_bytes = p.client_bytes;
        upstream_bytes = p.upstream_bytes;
      } in
      let told = tell fault.told forwarded in
      if not p.dialled
      then record c { outcome = "dial_error" }
      else if not p.decision.selected || delayed
      then forwarded
      else if fault.active
      then record told { outcome = p.decision.fault.action }
      else told

  unfoldable pub connect : Connection → Connection
  connect c =
      let delayed = p.decision.selected && p.decision.fault.action == "delay_connect" in
      let waited = wait_before_dial p.canceled [] p.reads in
      if not delayed then dial false c else elim waited [
        | none ↦ record c { outcome = "client_closed" }
        | some prefetched ↦ dial true (tell 1 c)
      ]

  -- The deferred function.
  unfoldable pub finish : Connection → Recorder
  finish c =
      record_tcp
        (record c.event {
          kind = "flow_finished";
          finished_at = some p.finished_at;
          reached = c.applied;
          applied = c.applied;
          not_reached = c.event.selected && not c.applied;
          outcome = c.outcome;
          client_bytes = c.client_bytes;
          upstream_bytes = c.upstream_bytes;
        })
        c.recorder

  unfoldable pub serve : Recorder → Recorder
  serve r = finish (
      connect (record {
        event = decision_event;
        applied = false;
        outcome = "forwarded";
        client_bytes = 0;
        upstream_bytes = 0;
        recorder = record_tcp decision_event (record_tcp started_event r);
      }))

-- ===== src/Postgresql/Exchange.antt =====
-- internal/proxy/postgresql/session.go, `exchange` and `apply`: what is done with each frame of the client and
-- of the server, in the order in which `select` takes them. A frame comes with whether the write that it
-- causes fails, and a frame of the server with what the engine would decide and whether the context ends
-- during a fault.
pub mod Cycles
pub mod Runs
pub mod Timed
use faultline.Common.{
  ℕ, Bool, true, false, not, ◌&&◌, ◌||◌, Option, none, some, List, [], ◌∷◌, ◌++◌, String, Text,
  ◌==◌, nat_eq, text_eq, string_eq, length, if◌then◌else◌,
}
use faultline.Common.Strings.{codes, has_byte}
use faultline.Common.Int.{ℤ}
use faultline.Config.Model.{Fault}
use faultline.Engine.State.{Decision}
use faultline.Postgresql.Wire.{Frame}

-- Of an event, the fields that tell the stages of a cycle apart.
pub record Event : Type 0 where
  pub kind : String
  pub selected : Bool
  pub reached : Bool
  pub applied : Bool
  pub commit_confirmed : Bool
  pub not_reached : Bool
  pub outcome : String

-- The variables of `exchange`, with what was recorded and what each side was sent. `returned` says that the
-- loop is left.
pub record Session : Type 0 where
  pub active : Bool
  pub awaiting : Bool
  pub transaction : Bool
  pub executed : Bool
  pub decided : Bool
  pub outcome : String
  pub event : Event
  pub recorded : List Event
  pub to_client : List Frame
  pub to_server : List Frame
  pub returned : Bool

pub data Input : Type 0 where
  context_done : Input
  from_client : Frame → Bool → Input
  from_server : Frame → Bool → Decision → Bool → Input

abbrev pub no_event : Event
no_event = record {
  kind = "";
  selected = false;
  reached = false;
  applied = false;
  commit_confirmed = false;
  not_reached = false;
  outcome = "";
}

abbrev pub initial : Session
initial = record {
  active = false;
  awaiting = false;
  transaction = false;
  executed = false;
  decided = false;
  outcome = "forwarded";
  event = no_event;
  recorded = [];
  to_client = [];
  to_server = [];
  returned = false;
}

-- `s.records.Record(event)`, with the event that the code has changed before.
abbrev pub record_event : Event → Session → Session
record_event e s = record s { event = e; recorded = s.recorded ++ e ∷ [] }

-- `finish`
unfoldable pub finish : String → Session → Session
finish outcome s =
    if not s.active
    then s
    else record (record_event
        (record s.event {
          kind = "flow_finished";
          outcome = outcome;
          not_reached = s.event.selected && not s.event.reached;
        })
        s) { active = false }

-- A return from the loop, with the deferred `finish`.
unfoldable pub leave : Session → Session
leave s = record (finish "connection_closed" s) { returned = true }

-- The frame of `reject`.
abbrev pub rejection : Frame
rejection = record {
  kind = b'E';
  body =
      codes "SFATAL"
      ++ (0 ∷ codes "C0A000"
          ++ (0 ∷ codes "MFaultline: unsupported protocol, authentication or operation"
              ++ 0 ∷ 0 ∷ []));
}

abbrev pub send_client : Frame → Session → Session
send_client f s = record s { to_client = s.to_client ++ f ∷ [] }

-- `reject(c); return`
unfoldable pub reject : Session → Session
reject s = leave (send_client rejection s)

-- `if writeFrame(c, f) != nil { return }`
unfoldable pub forward_client : Frame → Bool → Session → Session
forward_client f fails s = if fails then leave s else send_client f s

unfoldable pub forward_server : Frame → Bool → Session → Session
forward_server f fails s = if fails then leave s else record s { to_server = s.to_server ++ f ∷ [] }

-- `if !active { ... }`
unfoldable pub start_cycle : Session → Session
start_cycle s =
    if s.active
    then s
    else record_event (record no_event { kind = "flow_started" })
        (record s { active = true; executed = false; decided = false; outcome = "forwarded" })

unfoldable pub take_client : Frame → Bool → Session → Session
take_client f fails s =
    let started = start_cycle s in
    let execution = f.kind == b'E' in
    if f.kind == b'X'
    then leave s
    else if not (has_byte f.kind (codes "QPBDEHCS")) || s.awaiting
    then reject s
    else if execution && started.executed
    then reject started
    else forward_server f fails (record started {
      executed = started.executed || execution;
      awaiting = started.awaiting || f.kind == b'Q' || f.kind == b'S';
    })

-- The timer's branch of `apply`; `none` is a nil duration.
abbrev pub timed : Option ℤ → Bool → Bool → Option Bool
timed none canceled answer = none
timed (some duration) canceled answer = some (not canceled && answer)

-- `apply`: whether the acknowledgement goes on.
unfoldable pub apply : Fault → Bool → Option Bool
apply f canceled =
    if f.action == "close_connection"
    then some false
    else timed (if f.action == "hold_response" then f.max_duration else f.duration) canceled
        (f.action == "delay")

-- What the engine's decision makes of the event.
abbrev pub decision_event : Decision → Event → Event
decision_event d e = record e { kind = "decision"; selected = d.selected; commit_confirmed = true }

abbrev pub fault_event : Event → Event
fault_event e = record e { kind = "fault_applied"; reached = true; applied = true }

-- What stands behind `apply`; `none` is a panic.
abbrev pub after_fault : Option Bool → (Session → Session) → Session → Option Session
after_fault none go_on s = none
after_fault (some true) go_on s = some (go_on s)
after_fault (some false) go_on s = some (record (finish "commit_ack_lost" s) { returned = true })

-- The confirmed commit of an open transaction.
unfoldable pub confirm : Decision → Bool → (Session → Session) → Session → Option Session
confirm d canceled go_on s =
    let asked =
      record_event (decision_event d s.event) (record s { transaction = false; decided = true }) in
    if not d.selected
    then some (go_on asked)
    else after_fault (apply d.fault canceled) go_on (record_event (fault_event asked.event) asked)

abbrev pub ends_with_zero : String → Text
ends_with_zero s = codes s ++ 0 ∷ []

-- What a frame of the server makes of the transaction, before it goes on to `go_on`.
unfoldable pub settle : Frame → Decision → Bool → (Session → Session) → Session → Option Session
settle f d canceled go_on s =
    if not (f.kind == b'C')
    then some (go_on s)
    else if f.body == ends_with_zero "BEGIN"
    then some (go_on (record s { transaction = true }))
    else if f.body == ends_with_zero "ROLLBACK"
    then some (go_on (record s { transaction = false }))
    else if f.body == ends_with_zero "COMMIT" && s.transaction && s.active && not s.decided
    then confirm d canceled go_on s
    else some (go_on s)

abbrev pub one_of : Text → Text → Bool
one_of (b ∷ []) bs = has_byte b bs
one_of _ bs = false

-- `ReadyForQuery`, which ends the cycle.
unfoldable pub ready : Frame → Bool → Session → Session
ready f fails s =
    if not (one_of f.body (codes "ITE"))
    then reject s
    else if fails
    then leave (record s { transaction = not (f.body == codes "I"); awaiting = false })
    else finish s.outcome
        (send_client f (record s { transaction = not (f.body == codes "I"); awaiting = false }))

unfoldable pub answer_client : Frame → Bool → Session → Session
answer_client f fails s = if f.kind == b'Z' then ready f fails s else forward_client f fails s

unfoldable pub take_server : Frame → Bool → Decision → Bool → Session → Option Session
take_server f fails d canceled s =
    if not (has_byte f.kind (codes "123nTsDCIENSAZt"))
    then some (reject s)
    else settle f d canceled (answer_client f fails)
        (record s { outcome = if f.kind == b'E' then "upstream_error" else s.outcome })

-- One round of the loop; a session that has returned takes nothing more.
unfoldable pub step : Input → Session → Option Session
step input s = if s.returned then some s else elim input [
  | context_done ↦ some (leave s)
  | from_client f fails ↦ some (take_client f fails s)
  | from_server f fails d canceled ↦ take_server f fails d canceled s
]

unfoldable pub run : List Input → Session → Option Session
run [] s = some s
run (input ∷ inputs) s = elim (step input s) [ none ↦ none | some t ↦ run inputs t ]

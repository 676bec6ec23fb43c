-- ===== src/Mysql/Exchange.antt =====
-- internal/proxy/mysql/session.go: one command's cycle, the commit and the loop of `exchange`.
use faultline.Common.{
  ℕ, Bool, true, false, not, ◌&&◌, ◌||◌, Option, none, some, List, [], ◌∷◌, ◌++◌, String, Text,
  ◌==◌, nat_eq, text_eq, string_eq, length, take, drop, ltb, leb, if◌then◌else◌,
}
use faultline.Common.Bytes.{from_le_bytes, bit}
use faultline.Common.Int.{ℤ}
use faultline.Config.Model.{Fault}
use faultline.Mysql.Wire.{
  Packet, ok_status, Statement, ordinary, begin, commit, rollback, unsupported, classify, rejection,
}
use faultline.Mysql.Session.{
  Command, Session, protocol_error, closed, quit, rejected, panicked, Done, done, stop, Step, ◌>>=◌,
  ◌>>◌, return, fail, require, update, read, forward, write_upstream, first_byte, definitions,
  result, settle, find_statement, delete_statement, is_known,
}

abbrev pub is_commit : Statement → Bool
is_commit commit = true
is_commit _ = false

abbrev pub is_begin : Statement → Bool
is_begin begin = true
is_begin _ = false

abbrev pub is_rollback : Statement → Bool
is_rollback rollback = true
is_rollback _ = false

abbrev pub is_unsupported : Statement → Bool
is_unsupported unsupported = true
is_unsupported _ = false

abbrev pub announce : String → Session → Session
announce kind s = record s { events = s.events ++ kind ∷ [] }

-- The timer's branch of `apply`; `none` is a panic on a nil duration.
abbrev pub timed : Option ℤ → Bool → Bool → Option Bool
timed none canceled answer = none
timed (some duration) canceled answer = some (not canceled && answer)

-- `apply`: whether the response is delivered.
unfoldable pub apply : Fault → Bool → Option Bool
apply f canceled =
    if f.action == "close_connection"
    then some false
    else if f.action == "hold_response"
    then timed f.max_duration canceled false
    else timed f.duration canceled (f.action == "delay")

-- `s.commit` behind a confirmed commit: whether the acknowledgement goes on to the client.
unfoldable pub applied : Option Bool → Step Bool
applied none = fail panicked
applied (some answer) = return answer

unfoldable pub decide_commit : Command → Step Bool
decide_commit c s =
    let asked = announce "decision" s in
    if not c.decision.selected
    then (done true, asked)
    else applied (apply c.decision.fault c.canceled) (announce "fault_applied" asked)

unfoldable pub acknowledge : Bool → Packet → Step (Unit {0})
acknowledge true first = forward first
acknowledge false first = do
  update (λ s. record s { outcome = "commit_ack_lost" })
  fail protocol_error

-- The transaction behind an answer without an error: `still` is the status's bit for a transaction.
unfoldable pub transaction_after : ℕ → Statement → Bool → Bool → Bool
transaction_after command kind still before =
    if command == 31
    then false
    else if is_begin kind
    then still
    else if not still || is_rollback kind
    then false
    else before

unfoldable pub confirms : Statement → Bool → Bool → Bool
confirms kind before still = is_commit kind && before && not still

-- The branch for an OK packet.
unfoldable pub answer_ok : Command → ℕ → Statement → Packet → Option ℕ → Step (Unit {0})
answer_ok c command kind first none s = (stop protocol_error, s)
answer_ok c command kind first (some status) s =
    let still = bit 0 status in
    let next = record s {
      transaction = transaction_after command kind still s.transaction;
      statements = if command == 31 then [] else s.statements;
    } in
    let confirmed = confirms kind s.transaction still in
    if bit 3 status
    then (stop protocol_error, s)
    else if confirmed
    then (decide_commit c >>= λ goes. acknowledge goes first) next
    else forward first next

-- The branch for a prepared statement; the packet has its twelve bytes behind the guard.
unfoldable pub prepare : Bool → Statement → Packet → Step (Unit {0})
prepare modern kind first s =
    let id = from_le_bytes (take 4 (drop 1 first.body)) in
    (do
      b ← first_byte first
      require (length first.body == 12 && b == 0)
      require (not (is_known (find_statement id s.statements)))
      forward first
      definitions modern (from_le_bytes (take 2 (drop 7 first.body)))
      definitions modern (from_le_bytes (take 2 (drop 5 first.body)))
      update (λ t. record t { statements = (id, kind) ∷ t.statements }))
      s

-- The cycle behind the server's first packet.
unfoldable pub answer : Bool → Command → ℕ → Statement → Packet → ℕ → Step (Unit {0})
answer modern c command kind first b =
    if b == 255
    then (do
      update (λ s. record s { transaction = false; outcome = "upstream_error" })
      forward first)
    else if command == 22
    then prepare modern kind first
    else if b == 251
    then fail protocol_error
    else if b == 0
    then answer_ok c command kind first (ok_status first.body)
    else λ s. settle (result modern first s)

-- The function that `exchange` calls for one command.
unfoldable pub cycle : Bool → Command → ℕ → Statement → Step (Unit {0})
cycle modern c command kind = do
  write_upstream c.packet
  if command == 25
      then update (λ s. record s {
        statements = delete_statement (from_le_bytes (take 4 (drop 1 c.packet.body))) s.statements;
      })
      else (do
        update (λ s. record s { seq = 1 })
        first ← read
        b ← first_byte first
        answer modern c command kind first b)

-- What `exchange` does with a command: it leaves, rejects it, or runs the cycle with a kind of statement.
pub data Plan : Type 0 where
  leave refuse : Plan
  run : Statement → Plan

abbrev pub run_known : Option Statement → Plan
run_known none = refuse
run_known (some kind) = run kind

unfoldable pub plan : ℕ → Text → List (ℕ × Statement) → Plan
plan command body statements =
    if command == 1
    then leave
    else if command == 3 || command == 22
    then (let kind = classify (drop 1 body) in
        if is_unsupported kind || command == 22 && leb 128 (length statements)
        then refuse
        else run kind)
    else if command == 23
    then (if ltb (length body) 10
          || not (take 1 (drop 5 body) == (0 ∷ []))
          || not (from_le_bytes (take 4 (drop 6 body)) == 1)
        then refuse
        else run_known (find_statement (from_le_bytes (take 4 (drop 1 body))) statements))
    else if command == 25 || command == 26
    then (if not (length body == 5) then refuse else run ordinary)
    else if command == 2 || command == 14 || command == 31
    then run ordinary
    else refuse

-- `reject(c, 1)`, whose error is ignored.
unfoldable pub reject : Step (Unit {0})
reject s = (stop rejected, (forward (rejection 1) s).1)

-- Behind the cycle; a panic leaves at once.
abbrev pub finish : Done (Unit {0}) × Session → Done (Unit {0}) × Session
finish (stop panicked, s) = (stop panicked, s)
finish (stop e, s) = (
  stop e,
  announce "flow_finished"
      (if s.outcome == "forwarded" then record s { outcome = "connection_closed" } else s),
)
finish (done u, s) = (done u, announce "flow_finished" s)

unfoldable pub carry_out : Bool → Command → ℕ → Plan → Step (Unit {0})
carry_out modern c command leave s = (stop quit, s)
carry_out modern c command refuse s = reject s
carry_out modern c command (run kind) s =
    finish
      (cycle modern c command kind (announce "flow_started" (record s { outcome = "forwarded" })))

-- One round of the loop.
unfoldable pub serve_command : Bool → Command → Step (Unit {0})
serve_command modern c s =
    if not (c.packet.seq == 0)
    then reject s
    else (first_byte c.packet >>= λ command.
          carry_out modern c command (plan command c.packet.body s.statements))
        s

unfoldable pub exchange : Bool → List Command → Step (Unit {0})
exchange modern [] = fail closed
exchange modern (c ∷ commands) = serve_command modern c >> exchange modern commands

-- ===== src/Postgresql/Exchange/Runs.antt =====
-- The exchange over any frames of both sides.
use mathlib.Core.Path.{◌∙◌}
use faultline.Common.{
  Bool, true, false, not, ◌&&◌, Option, some, List, [], ◌∷◌, String, ◌==◌, string_eq, text_eq,
  nat_eq, ◌≡◌, refl, arith, Option-cases, inl, inr, text_beq, if◌then◌else◌,
}
use faultline.Common.Strings.{codes, has_byte}
use faultline.Engine.State.{Decision}
use faultline.Postgresql.Wire.{Frame}
use faultline.Postgresql.Exchange.{
  Session, Input, context_done, from_client, from_server, initial, leave, reject, take_client,
  apply, settle, confirm, answer_client, take_server, step, run, ends_with_zero, finish,
  record_event, decision_event, fault_event,
}
use faultline.Postgresql.Exchange.Cycles.{
  IsCycle, Gives, same-IsCycle, leave-IsCycle, reject-IsCycle, take_client-IsCycle,
  answer_client-IsCycle, confirm-Gives,
}

gives : (s : Session) → IsCycle s → Gives (some s)
unfolding Gives
gives s h = h

if-Gives :
    (b : Bool) (r t : Option Session)
    → (b ≡ true → Gives r)
    → (b ≡ false → Gives t)
    → Gives (if b then r else t)
if-Gives true r t on off = on refl
if-Gives false r t on off = off refl

settle-Gives :
    (go_on : Session → Session) (f : Frame) (d : Decision) (canceled : Bool) (s : Session)
    → ((t : Session) → IsCycle t → IsCycle (go_on t))
    → IsCycle s
    → Gives (settle f d canceled go_on s)
unfolding settle
settle-Gives go_on f d canceled s goes h =
    let begun : Session = record s { transaction = true } in
    let ended : Session = record s { transaction = false } in
    if-Gives (not (f.kind == b'C')) _ _ (λ q. gives (go_on s) (goes s h))
      (λ q.
        if-Gives (f.body == ends_with_zero "BEGIN") _ _
          (λ q1. gives (go_on begun) (goes begun (same-IsCycle s begun h refl refl refl refl)))
          (λ q1.
            if-Gives (f.body == ends_with_zero "ROLLBACK") _ _
              (λ q2. gives (go_on ended) (goes ended (same-IsCycle s ended h refl refl refl refl)))
              (λ q2.
                if-Gives
                  (f.body == ends_with_zero "COMMIT" && s.transaction && s.active && not s.decided)
                  _ _
                  (λ q3.
                    confirm-Gives go_on goes d canceled s h (ground (arith, q3))
                      (ground (arith, q3)))
                  (λ q3. gives (go_on s) (goes s h)))))

take_server-Gives :
    (f : Frame) (fails : Bool) (d : Decision) (canceled : Bool) (s : Session)
    → IsCycle s
    → Gives (take_server f fails d canceled s)
unfolding take_server
take_server-Gives f fails d canceled s h =
    let t : Session = record s {
      outcome = if f.kind == b'E' then "upstream_error" else s.outcome;
    } in
    if-Gives (not (has_byte f.kind (codes "123nTsDCIENSAZt"))) _ _
      (λ q. gives (reject s) (reject-IsCycle s h))
      (λ q.
        settle-Gives (answer_client f fails) f d canceled t (answer_client-IsCycle f fails)
          (same-IsCycle s t h refl refl refl refl))

step-Gives : (input : Input) (s : Session) → IsCycle s → Gives (step input s)
unfolding step
step-Gives context_done s h =
    if-Gives s.returned _ _ (λ q. gives s h) (λ q. gives (leave s) (leave-IsCycle s h))
step-Gives (from_client f fails) s h =
    if-Gives s.returned _ _ (λ q. gives s h)
      (λ q. gives (take_client f fails s) (take_client-IsCycle f fails s h q))
step-Gives (from_server f fails d canceled) s h =
    if-Gives s.returned _ _ (λ q. gives s h) (λ q. take_server-Gives f fails d canceled s h)

run-Gives : (inputs : List Input) (s : Session) → IsCycle s → Gives (run inputs s)
unfolding run Gives
run-Gives [] s h = h
run-Gives (input ∷ inputs) s h = elim (Option-cases (step input s)) [
  | inl panicked ↦ rw (panicked, run) tt
  | inr (t, q) ↦
      let kept : IsCycle t = rw q at (step-Gives input s h) in rw (q, run) (run-Gives inputs t kept)
]

initial-IsCycle : IsCycle initial
initial-IsCycle = record {
  balance = refl;
  asked = omega arith;
  faulted = omega arith;
  ended = λ q. refl;
}

-- Over any frames of the client and the server, with any failures and decisions: as many cycles are started
-- as finished, but for the one that is active, and none is active once the exchange has returned; the engine
-- is asked at most once in a cycle, and a fault is performed at most once for each time that it is asked.
pub run-IsCycle : (inputs : List Input) (s : Session) → run inputs initial ≡ some s → IsCycle s
unfolding Gives
run-IsCycle inputs s q = rw q at (run-Gives inputs initial initial-IsCycle)

abbrev pub commit_frame : Frame
commit_frame = record { kind = b'C'; body = ends_with_zero "COMMIT" }

finish-active :
    (outcome : String) (s : Session)
    → s.active ≡ true
    → ((finish outcome s).active ≡ false)
      × ((finish outcome s).event.outcome ≡ outcome)
      × ((finish outcome s).to_client ≡ s.to_client)
      × ((finish outcome s).transaction ≡ s.transaction)
unfolding finish
finish-active outcome s h =
    (ground (arith, h), ground (arith, h), ground (arith, h), ground (arith, h))

take_server-confirm :
    (fails : Bool) (d : Decision) (canceled : Bool) (s : Session)
    → s.transaction ≡ true
    → s.active ≡ true
    → s.decided ≡ false
    → take_server commit_frame fails d canceled s
      ≡ confirm d canceled (answer_client commit_frame fails) s
unfolding take_server settle text_beq
take_server-confirm fails d canceled s open_still running fresh =
    ground (arith, open_still, running, fresh)

-- A commit that the server confirms in an open transaction of a cycle in which the engine was not yet asked,
-- and whose fault withholds the acknowledgement: the client is sent nothing, the transaction is over, the
-- cycle is finished as commit_ack_lost and the exchange returns.
pub take_server-lost :
    (fails : Bool) (d : Decision) (canceled : Bool) (s : Session)
    → s.transaction ≡ true
    → s.active ≡ true
    → s.decided ≡ false
    → d.selected ≡ true
    → apply d.fault canceled ≡ some false
    → (t : Session) × (take_server commit_frame fails d canceled s ≡ some t)
      × (t.to_client ≡ s.to_client)
      × (t.transaction ≡ false)
      × (t.active ≡ false)
      × (t.event.outcome ≡ "commit_ack_lost")
      × (t.returned ≡ true)
unfolding confirm
take_server-lost fails d canceled s open_still running fresh chosen withheld =
    let asked : Session =
      record_event (decision_event d s.event) (record s { transaction = false; decided = true }) in
    let held : Session = record_event (fault_event asked.event) asked in
    let (over, outcome, client, transaction) = finish-active "commit_ack_lost" held running in
    let confirmed : confirm d canceled (answer_client commit_frame fails) s
        ≡ some (record (finish "commit_ack_lost" held) { returned = true }) =
      ground (arith, chosen, withheld) in
    (
      record (finish "commit_ack_lost" held) { returned = true },
      take_server-confirm fails d canceled s open_still running fresh ∙ confirmed,
      client,
      transaction,
      over,
      outcome,
      refl,
    )

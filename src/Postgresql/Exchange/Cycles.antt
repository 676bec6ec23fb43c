-- ===== src/Postgresql/Exchange/Cycles.antt =====
-- What the events of `exchange` say of its cycles.
use mathlib.Core.Path.{subst}
use faultline.Common.{
  ℕ, ◌+◌, ◌≤◌, Bool, true, false, not, ◌&&◌, ◌||◌, Option, none, some, List, [], ◌∷◌, ◌++◌, String,
  ◌==◌, string_eq, text_eq, nat_eq, ◌≡◌, refl, sym, arith, Bool-cases, inl, inr, if◌then◌else◌,
}
use faultline.Common.Strings.{codes, has_byte}
use faultline.Engine.State.{Decision}
use faultline.Postgresql.Wire.{Frame}
use faultline.Postgresql.Exchange.{
  Event, Session, record_event, finish, leave, reject, forward_client, forward_server, start_cycle,
  take_client, apply, after_fault, confirm, ready, answer_client, send_client, decision_event,
  fault_event, no_event, one_of,
}

-- The events of one kind.
abbrev pub count : String → List Event → ℕ
count kind [] = 0
count kind (e ∷ es) = (if e.kind == kind then 1 else 0) + count kind es

count-append :
    (kind : String) (es : List Event) (e : Event)
    → count kind (es ++ e ∷ []) ≡ count kind es + (if e.kind == kind then 1 else 0)
count-append kind [] e = omega arith
count-append kind (x ∷ es) e = omega (arith, count-append kind es e)

abbrev tick : Bool → ℕ
tick b = if b then 1 else 0

-- Each cycle that was started is finished, but for the one that is active, and a session that has returned
-- has none; the engine was asked at most once in each cycle, and performed a fault at most once for each
-- time that it was asked.
pub record IsCycle (s : Session) : Type 0 where
  pub balance : count "flow_started" s.recorded ≡ count "flow_finished" s.recorded + tick s.active
  pub asked :
      count "decision" s.recorded ≤ count "flow_finished" s.recorded + tick (s.active && s.decided)
  pub faulted : count "fault_applied" s.recorded ≤ count "decision" s.recorded
  pub ended : s.returned ≡ true → s.active ≡ false

-- The fields that the invariant reads are the same.
pub same-IsCycle :
    (s t : Session)
    → IsCycle s
    → t.recorded ≡ s.recorded
    → t.active ≡ s.active
    → t.decided ≡ s.decided
    → t.returned ≡ s.returned
    → IsCycle t
same-IsCycle s t h r a d e = record {
  balance = ground (arith, r, a, h.balance);
  asked = ground (arith, r, a, d, h.asked);
  faulted = ground (arith, r, h.faulted);
  ended = λ q. ground (arith, a, e, q, h.ended);
}

-- Behind one more event: how much each count grows by.
counted :
    (es : List Event) (e : Event) (kind : String)
    → e.kind ≡ kind
    → (count "flow_started" (es ++ e ∷ [])
        ≡ count "flow_started" es + tick (kind == "flow_started"))
      × (count "flow_finished" (es ++ e ∷ [])
          ≡ count "flow_finished" es + tick (kind == "flow_finished"))
      × (count "decision" (es ++ e ∷ []) ≡ count "decision" es + tick (kind == "decision"))
      × (count "fault_applied" (es ++ e ∷ [])
          ≡ count "fault_applied" es + tick (kind == "fault_applied"))
counted es e kind q = rw (sym q) (
  count-append "flow_started" es e,
  count-append "flow_finished" es e,
  count-append "decision" es e,
  count-append "fault_applied" es e,
)

finish-IsCycle :
    (outcome : String) (s : Session)
    → IsCycle s
    → IsCycle (finish outcome s) × ((finish outcome s).active ≡ false)
unfolding finish
finish-IsCycle outcome s h = elim (Bool-cases s.active) [
  | inr q ↦
      let e : finish outcome s ≡ s = ground (arith, q) in
      subst (λ t. IsCycle t × (t.active ≡ false)) (sym e) (h, q)
  | inl q ↦
      let event : Event = record s.event {
        kind = "flow_finished";
        outcome = outcome;
        not_reached = s.event.selected && not s.event.reached;
      } in
      let e : finish outcome s ≡ record (record_event event s) { active = false } =
        ground (arith, q) in
      let (started, finished, decisions, faults) = counted s.recorded event "flow_finished" refl in
      subst (λ t. IsCycle t × (t.active ≡ false)) (sym e)
        (
          record {
            balance = ground (arith, started, finished, h.balance, q);
            asked = ground (arith, finished, decisions, h.asked, q);
            faulted = ground (arith, decisions, faults, h.faulted);
            ended = λ r. refl;
          },
          refl,
        )
]

pub leave-IsCycle : (s : Session) → IsCycle s → IsCycle (leave s)
unfolding leave
leave-IsCycle s h =
    let (finished, over) = finish-IsCycle "connection_closed" s h in
    record {
      balance = finished.balance;
      asked = finished.asked;
      faulted = finished.faulted;
      ended = λ r. over;
    }

pub reject-IsCycle : (s : Session) → IsCycle s → IsCycle (reject s)
unfolding reject
reject-IsCycle s h = leave-IsCycle _ (same-IsCycle s _ h refl refl refl refl)

start_cycle-IsCycle : (s : Session) → IsCycle s → s.returned ≡ false → IsCycle (start_cycle s)
unfolding start_cycle
start_cycle-IsCycle s h open_still = elim (Bool-cases s.active) [
  | inl q ↦ let e : start_cycle s ≡ s = ground (arith, q) in subst IsCycle (sym e) h
  | inr q ↦
      let event : Event = record no_event { kind = "flow_started" } in
      let t : Session = record s {
        active = true;
        executed = false;
        decided = false;
        outcome = "forwarded";
      } in
      let e : start_cycle s ≡ record_event event t = ground (arith, q) in
      let (started, finished, decisions, faults) = counted s.recorded event "flow_started" refl in
      subst IsCycle (sym e) (record {
        balance = ground (arith, started, finished, h.balance, q);
        asked = ground (arith, finished, decisions, h.asked, q);
        faulted = ground (arith, decisions, faults, h.faulted);
        ended = λ r. ground (arith, r, open_still);
      })
]

if-IsCycle :
    (b : Bool) (s t : Session)
    → (b ≡ true → IsCycle s)
    → (b ≡ false → IsCycle t)
    → IsCycle (if b then s else t)
if-IsCycle true s t on off = on refl
if-IsCycle false s t on off = off refl

forward_client-IsCycle :
    (f : Frame) (fails : Bool) (s : Session) → IsCycle s → IsCycle (forward_client f fails s)
unfolding forward_client
forward_client-IsCycle f fails s h =
    if-IsCycle fails (leave s) (send_client f s) (λ q. leave-IsCycle s h)
      (λ q. same-IsCycle s (send_client f s) h refl refl refl refl)

forward_server-IsCycle :
    (f : Frame) (fails : Bool) (s : Session) → IsCycle s → IsCycle (forward_server f fails s)
unfolding forward_server
forward_server-IsCycle f fails s h =
    let t : Session = record s { to_server = s.to_server ++ f ∷ [] } in
    if-IsCycle fails (leave s) t (λ q. leave-IsCycle s h)
      (λ q. same-IsCycle s t h refl refl refl refl)

pub take_client-IsCycle :
    (f : Frame) (fails : Bool) (s : Session)
    → IsCycle s
    → s.returned ≡ false
    → IsCycle (take_client f fails s)
unfolding take_client
take_client-IsCycle f fails s h open_still =
    let started = start_cycle-IsCycle s h open_still in
    let t : Session = record (start_cycle s) {
      executed = (start_cycle s).executed || f.kind == b'E';
      awaiting = (start_cycle s).awaiting || f.kind == b'Q' || f.kind == b'S';
    } in
    let sent =
      forward_server-IsCycle f fails t
        (same-IsCycle (start_cycle s) t started refl refl refl refl) in
    if-IsCycle (f.kind == b'X') _ _ (λ q. leave-IsCycle s h)
      (λ q.
        if-IsCycle (not (has_byte f.kind (codes "QPBDEHCS")) || s.awaiting) _ _
          (λ q'. reject-IsCycle s h)
          (λ q'.
            if-IsCycle (f.kind == b'E' && (start_cycle s).executed) _ _
              (λ q2. reject-IsCycle (start_cycle s) started) (λ q2. sent)))

ready-IsCycle : (f : Frame) (fails : Bool) (s : Session) → IsCycle s → IsCycle (ready f fails s)
unfolding ready
ready-IsCycle f fails s h =
    let t : Session = record s { transaction = not (f.body == codes "I"); awaiting = false } in
    let quiet = same-IsCycle s t h refl refl refl refl in
    let over =
      (finish-IsCycle s.outcome (send_client f t)
        (same-IsCycle s (send_client f t) h refl refl refl refl)).0 in
    if-IsCycle (not (one_of f.body (codes "ITE"))) _ _ (λ q. reject-IsCycle s h)
      (λ q. if-IsCycle fails _ _ (λ q'. leave-IsCycle t quiet) (λ q'. over))

pub answer_client-IsCycle :
    (f : Frame) (fails : Bool) (s : Session) → IsCycle s → IsCycle (answer_client f fails s)
unfolding answer_client
answer_client-IsCycle f fails s h =
    if-IsCycle (f.kind == b'Z') _ _ (λ q. ready-IsCycle f fails s h)
      (λ q. forward_client-IsCycle f fails s h)

-- What a step leaves, unless it panics.
unfoldable pub Gives : Option Session → Type 0
Gives none = Unit
Gives (some s) = IsCycle s

module _ (go_on : Session → Session) (goes : (s : Session) → IsCycle s → IsCycle (go_on s)) where
  after_fault-Gives : (r : Option Bool) (s : Session) → IsCycle s → Gives (after_fault r go_on s)
  unfolding Gives
  after_fault-Gives none s h = tt
  after_fault-Gives (some true) s h = goes s h
  after_fault-Gives (some false) s h =
      let (finished, over) = finish-IsCycle "commit_ack_lost" s h in
      record {
        balance = finished.balance;
        asked = finished.asked;
        faulted = finished.faulted;
        ended = λ r. over;
      }

  pub confirm-Gives :
      (d : Decision) (canceled : Bool) (s : Session)
      → IsCycle s
      → s.active ≡ true
      → s.decided ≡ false
      → Gives (confirm d canceled go_on s)
  unfolding confirm Gives
  confirm-Gives d canceled s h running fresh =
      let t : Session = record s { transaction = false; decided = true } in
      let asked : Session = record_event (decision_event d s.event) t in
      let held : Session = record_event (fault_event asked.event) asked in
      let (started, finished, decisions, faults) = counted s.recorded asked.event "decision" refl in
      let (started', finished', decisions', faults') =
        counted asked.recorded held.event "fault_applied" refl in
      let h1 : IsCycle asked = record {
        balance = ground (arith, started, finished, h.balance);
        asked = ground (arith, finished, decisions, h.asked, running, fresh);
        faulted = ground (arith, decisions, faults, h.faulted);
        ended = h.ended;
      } in
      let h2 : IsCycle held = record {
        balance = ground (arith, started', finished', h1.balance);
        asked = ground (arith, finished', decisions', h1.asked);
        faulted = ground (arith, finished, decisions, faults, decisions', faults', h.faulted);
        ended = h.ended;
      } in
      elim (Bool-cases d.selected) [
        | inl q ↦
            let e : confirm d canceled go_on s ≡ after_fault (apply d.fault canceled) go_on held =
              ground (arith, q) in
            subst Gives (sym e) (after_fault-Gives (apply d.fault canceled) held h2)
        | inr q ↦
            let e : confirm d canceled go_on s ≡ some (go_on asked) = ground (arith, q) in
            subst Gives (sym e) (goes asked h1)
      ]

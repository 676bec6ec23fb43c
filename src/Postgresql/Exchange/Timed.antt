-- ===== src/Postgresql/Exchange/Timed.antt =====
-- The faults that validation lets through for a database have the durations that `apply` reads.
use mathlib.Core.Path.{subst, ◌∙◌}
use faultline.Common.{
  Bool, true, false, not, [], ◌∷◌, ◌⊎◌, ==_cases, ◌||◌, Option, none, some, String, Text, ◌++◌,
  ◌==◌, string_eq, ◌≡◌, refl, sym, ap, arith, contains, inl, inr, if◌then◌else◌,
}
use faultline.Common.Strings.{codes}
use faultline.Config.Model.{Fault, Rule, after_upstream_headers}
use faultline.Config.Errors.{ok, Result-cases}
use faultline.Config.Faults.{actions, is_set}
use faultline.Config.Rules.{validate_rule, validate_commit_rule}
use faultline.Config.Rules.Ready.{IsReady, validate_fault-IsReady, validate_rule-parts}
use faultline.Config.Validate.{validate_proxy_rule, validate_by_protocol}
use faultline.Config.Listener.{is_database}
use faultline.Postgresql.Exchange.{
  Session, apply, after_fault, confirm, settle, take_server, finish,
}
use faultline.Postgresql.Wire.{Frame}
use faultline.Engine.State.{Decision}

-- The fault stays as it is, and has the fields of its action.
validate_commit_rule-IsReady :
    (r : Rule) (path : Text) {t : Rule}
    → validate_commit_rule r path ≡ ok t
    → (t.fault ≡ r.fault) × IsReady (record r.fault { phase = after_upstream_headers })
unfolding validate_commit_rule
validate_commit_rule-IsReady r path {t} h =
    let r' : Rule = record r { fault = record r.fault { phase = after_upstream_headers } } in
    elim (Result-cases (validate_rule r' path)) [
      | inr (e, q) ↦ absurd (ground (arith, q))
      | inl (copy, q) ↦ (
        ground (arith, q),
        validate_fault-IsReady r'.fault (path ++ codes ".fault") (validate_rule-parts r' path q).0,
      )
    ]

is_set-some : {A : Type 0} (o : Option A) → is_set o ≡ true → (a : A) × (o ≡ some a)
is_set-some none h = cc
is_set-some (some a) h = (a, refl)

-- The actions that `Actions` lists for a database.
abbrev IsDatabaseAction : String → Type 0
IsDatabaseAction action =
    (action ≡ "delay") ⊎ ((action ≡ "hold_response") ⊎ (action ≡ "close_connection"))

listed_action :
    (action : String)
    → contains ("delay" ∷ "hold_response" ∷ "close_connection" ∷ []) action ≡ true
    → IsDatabaseAction action
listed_action action c = elim (==_cases "delay" action) [
  | inl (q, e) ↦ inl (sym e)
  | inr q ↦ elim (==_cases "hold_response" action) [
    | inl (q', e) ↦ inr (inl (sym e))
    | inr q' ↦ elim (==_cases "close_connection" action) [
      | inl (q2, e) ↦ inr (inr (sym e))
      | inr q2 ↦ absurd (ground (arith, c, q, q', q2))
    ]
  ]
]

database_actions :
    (protocol action : String)
    → is_database protocol ≡ true
    → contains (actions protocol) action ≡ true
    → IsDatabaseAction action
unfolding is_database actions
database_actions protocol action h c = elim (==_cases protocol "postgresql") [
  | inl (q, e) ↦ listed_action action (rw e at c)
  | inr q ↦
      let e : protocol ≡ "mysql" =
        (string_eq.equals_iff protocol "mysql").0 (ground (arith, h, q)) in
      listed_action action (rw e at c)
]

apply-answers :
    (f : Fault) (canceled : Bool)
    → IsDatabaseAction f.action
    → IsReady f
    → (goes : Bool) × (apply f canceled ≡ some goes)
unfolding apply
apply-answers f canceled (inl e) r =
    let (d, q) = is_set-some f.duration (r.delay (ap (λ a. a == "delay") e)) in
    (not canceled, rw (e, q, apply) (ground arith))
apply-answers f canceled (inr (inl e)) r =
    let (d, q) = is_set-some f.max_duration (
      r.hold (ap (λ a. a == "delay") e) (ap (λ a. a == "respond") e)
        (ap (λ a. a == "hold_request" || a == "hold_response") e)) in
    (false, rw (e, q, apply) (ground arith))
apply-answers f canceled (inr (inr e)) r = (false, rw (e, apply) refl)

validate_proxy_rule-answers :
    (protocol : String) (r : Rule) (path : Text) (canceled : Bool) {t : Rule}
    → is_database protocol ≡ true
    → validate_proxy_rule protocol r path ≡ ok t
    → (goes : Bool) × (apply t.fault canceled ≡ some goes)
unfolding validate_proxy_rule validate_by_protocol apply
validate_proxy_rule-answers protocol r path canceled {t} database h =
    let listed = database_actions protocol r.fault.action database (ground arith) in
    let (same, fields) = validate_commit_rule-IsReady r path {t = t} (ground (arith, database)) in
    let copy : Fault = record r.fault { phase = after_upstream_headers } in
    let (goes, q) = apply-answers copy canceled listed fields in
    (goes, ap (λ f. apply f canceled) same ∙ q)

Answers : Option Session → Type 0
Answers o = (s : Session) × (o ≡ some s)

if-Answers :
    (b : Bool) (o p : Option Session) → Answers o → Answers p → Answers (if b then o else p)
unfolding Answers
if-Answers true o p h k = h
if-Answers false o p h k = k

some-Answers : (s : Session) → Answers (some s)
unfolding Answers
some-Answers s = (s, refl)

after_fault-Answers :
    (goes : Bool) (go_on : Session → Session) (s : Session)
    → Answers (after_fault (some goes) go_on s)
unfolding Answers
after_fault-Answers true go_on s = (go_on s, refl)
after_fault-Answers false go_on s = (record (finish "commit_ack_lost" s) { returned = true }, refl)

take_server-Answers :
    (f : Frame) (fails : Bool) (d : Decision) (canceled goes : Bool) (s : Session)
    → apply d.fault canceled ≡ some goes
    → Answers (take_server f fails d canceled s)
unfolding take_server settle confirm
take_server-Answers f fails d canceled goes s applied =
    let answered : (go_on : Session → Session) (u : Session)
        → Answers (after_fault (apply d.fault canceled) go_on u) =
      λ go_on u.
        subst (λ x. Answers (after_fault x go_on u)) (sym applied)
          (after_fault-Answers goes go_on u) in
    search (if-Answers, some-Answers, answered) depth 9

-- The fault of a rule that validation lets through for a database never makes the exchange panic on a missing
-- duration, whatever frame the server sends and in whatever state.
pub take_server-answers :
    (protocol : String) (r t : Rule) (path : Text) (f : Frame) (fails : Bool) (d : Decision)
    (canceled : Bool) (s : Session)
    → is_database protocol ≡ true
    → validate_proxy_rule protocol r path ≡ ok t
    → d.fault ≡ t.fault
    → (s' : Session) × (take_server f fails d canceled s ≡ some s')
unfolding Answers
take_server-answers protocol r t path f fails d canceled s database h same =
    let (goes, q) = validate_proxy_rule-answers protocol r path canceled {t = t} database h in
    take_server-Answers f fails d canceled goes s (ap (λ x. apply x canceled) same ∙ q)

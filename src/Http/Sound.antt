-- ===== src/Http/Sound.antt =====
-- What validation says of a fault that the handler meets.
use mathlib.Core.Path.{subst}
use faultline.Common.{
  Bool, true, false, Text, ◌≡◌, ◌⊎◌, refl, sym, ◌==◌, string_eq, arith, inl, inr, some, String,
  ==_of, ==_cases, ◌∙◌, ap,
}
use faultline.Config.Model.{Fault, Rule, before_upstream_request, after_upstream_headers}
use faultline.Config.Errors.{ok}
use faultline.Config.Faults.{action_fields, validate_fault}
use faultline.Config.Rules.{default_body, validate_rule}
use faultline.Config.Rules.Ready.{validate_rule-parts}
use faultline.Engine.State.{no_fault, Decision}
use faultline.Engine.Match.{Metadata}
use faultline.Fault.Builtin.Total.{Performs, validate_rule-Performs}
use faultline.Http.Flow.{World}
use faultline.Http.Handler.{is_body_action}

-- The fields that its action reads are there, and a fault on a body has the phase of its direction.
pub record IsSound (f : Fault) : Type 0 where
  pub performs : Performs f
  pub request :
      is_body_action f.action ≡ true
      → (f.direction == "request") ≡ true
      → (f.phase == before_upstream_request) ≡ true
  pub response :
      is_body_action f.action ≡ true
      → (f.direction == "response") ≡ true
      → (f.phase == after_upstream_headers) ≡ true

-- The action is none of those that are no fault on a body.
record IsOnBody (f : Fault) : Type 0 where
  delay : (f.action == "delay") ≡ false
  respond : (f.action == "respond") ≡ false
  hold_request : (f.action == "hold_request") ≡ false
  hold_response : (f.action == "hold_response") ≡ false

on-IsOnBody :
    (f : Fault) (k : String) → f.action ≡ k → IsOnBody (record f { action = k }) → IsOnBody f
on-IsOnBody f k e b = record {
  delay = ==_of k f.action e "delay" ∙ b.delay;
  respond = ==_of k f.action e "respond" ∙ b.respond;
  hold_request = ==_of k f.action e "hold_request" ∙ b.hold_request;
  hold_response = ==_of k f.action e "hold_response" ∙ b.hold_response;
}

body-IsOnBody : (f : Fault) → is_body_action f.action ≡ true → IsOnBody f
body-IsOnBody f q = elim (==_cases f.action "truncate") [
  | inl (_, e) ↦
      on-IsOnBody f "truncate" e
        (record { delay = refl; respond = refl; hold_request = refl; hold_response = refl })
  | inr n ↦ elim (==_cases f.action "throttle") [
    | inl (_, e) ↦
        on-IsOnBody f "throttle" e
          (record { delay = refl; respond = refl; hold_request = refl; hold_response = refl })
    | inr m ↦ absurd (ground (arith, q, n, m))
  ]
]

module _ (f : Fault) (path : Text) (h : validate_fault f path ≡ ok tt) where
  request-phase :
      IsOnBody f
      → is_body_action f.action ≡ true
      → (f.direction == "request") ≡ true
      → (f.phase == before_upstream_request) ≡ true
  unfolding validate_fault action_fields
  request-phase b a d = ground arith

  response-phase :
      IsOnBody f
      → is_body_action f.action ≡ true
      → (f.direction == "response") ≡ true
      → (f.phase == after_upstream_headers) ≡ true
  unfolding validate_fault action_fields
  response-phase b a d =
      let e = (string_eq.equals_iff f.direction "response").0 d in
      let n = ==_of "response" f.direction e "request" in ground (arith, n)

-- A fault of no rule.
no_fault-IsSound : IsSound no_fault
no_fault-IsSound = record {
  performs = (record { delay = λ a. cc; respond = λ a b. cc; hold = λ a b c. cc }, λ a. cc);
  request = λ a b. cc;
  response = λ a b. cc;
}

-- Filling in the body changes neither the action nor the phase or direction.
default_body_same :
    (f : Fault)
    → ((default_body f).action ≡ f.action)
      × ((default_body f).direction ≡ f.direction)
      × ((default_body f).phase ≡ f.phase)
unfolding default_body
default_body_same f = (ground arith, ground arith, ground arith)

default_body-IsSound :
    (f : Fault) (path : Text)
    → validate_fault f path ≡ ok tt
    → Performs (default_body f)
    → IsSound (default_body f)
default_body-IsSound f path h p =
    let (action, direction, phase) = default_body_same f in
    let body =
      λ (a : is_body_action (default_body f).action ≡ true). ap is_body_action (sym action) ∙ a in
    let was = λ (k : String) (d : ((default_body f).direction == k) ≡ true).
      ap (λ (x : String). x == k) (sym direction) ∙ d in
    let now = λ (k : String) (q : (f.phase == k) ≡ true). ap (λ (x : String). x == k) phase ∙ q in
    record {
      performs = p;
      request = λ a d.
          now before_upstream_request
            (request-phase f path h (body-IsOnBody f (body a)) (body a) (was "request" d));
      response = λ a d.
          now after_upstream_headers
            (response-phase f path h (body-IsOnBody f (body a)) (body a) (was "response" d));
    }

validate_rule-IsSound :
    (r : Rule) (path : Text) {t : Rule} → validate_rule r path ≡ ok t → IsSound t.fault
validate_rule-IsSound r path {t} h =
    let (fault, e, _) = validate_rule-parts r path h in
    let p = subst Performs e (validate_rule-Performs r path h) in
    subst IsSound (sym e) (default_body-IsSound r.fault _ fault p)

-- The engine answers, with no fault or with the fault of a rule that validation has let through.
pub record IsChosen (f : Fault) : Type 0 where
  pub rule : Rule
  pub path : Text
  pub checked : Rule
  pub accepted : validate_rule rule path ≡ ok checked
  pub same : f ≡ checked.fault

pub record Decides (w : World) : Type 0 where
  pub answers : (m : Metadata) → (failed : Bool) × (d : Decision) × (w.decide m ≡ some (failed, d))
  pub chosen :
      (m : Metadata) (failed : Bool) (d : Decision)
      → w.decide m ≡ some (failed, d)
      → (d.fault ≡ no_fault) ⊎ IsChosen d.fault

pub Decides-IsSound :
    {w : World}
    → Decides w
    → (m : Metadata) (failed : Bool) (d : Decision) → w.decide m ≡ some (failed, d)
    → IsSound d.fault
Decides-IsSound k m failed d e = elim (k.chosen m failed d e) [
  | inl q ↦ subst IsSound (sym q) no_fault-IsSound
  | inr c ↦ subst IsSound (sym c.same) (validate_rule-IsSound c.rule c.path c.accepted)
]

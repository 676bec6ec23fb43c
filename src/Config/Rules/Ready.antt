-- ===== src/Config/Rules/Ready.antt =====
-- A rule that validation lets through carries every field that the executor reads.
use faultline.Common.{
  Bool, true, false, ◌||◌, Option, none, some, Text, ◌++◌, ◌≡◌, refl, ◌==◌, string_eq, arith,
}
use faultline.Common.Strings.{codes}
use faultline.Common.Int.{ℤ, pos}
use faultline.Config.Model.{Fault, Rule, before_upstream_request, after_upstream_headers}
use faultline.Config.Errors.{ok}
use faultline.Config.Faults.{
  is_set, missing_positive, missing_between, action_fields, validate_fault,
}
use faultline.Config.Selector.{validate_selector}
use faultline.Config.Rules.{default_body, validate_rule}

-- The fields behind each action that `Execute` performs, in the order of its `switch`.
pub record IsReady (f : Fault) : Type 0 where
  pub delay : (f.action == "delay") ≡ true → is_set f.duration ≡ true
  pub respond :
      (f.action == "delay") ≡ false → (f.action == "respond") ≡ true → is_set f.status ≡ true
  pub hold :
      (f.action == "delay") ≡ false
      → (f.action == "respond") ≡ false
      → (f.action == "hold_request" || f.action == "hold_response") ≡ true
      → is_set f.max_duration ≡ true

positive-is_set : (o : Option ℤ) → missing_positive o ≡ false → is_set o ≡ true
positive-is_set none h = cc
positive-is_set (some x) h = refl

between-is_set : (lo hi : ℤ) (o : Option ℤ) → missing_between lo hi o ≡ false → is_set o ≡ true
between-is_set lo hi none h = cc
between-is_set lo hi (some x) h = refl

action_fields-IsReady :
    (f : Fault) (before after : Bool) (path : Text)
    → action_fields f before after path ≡ ok tt
    → IsReady f
unfolding action_fields
action_fields-IsReady f before after path h = record {
  delay = λ a. ground (arith, positive-is_set f.duration);
  respond = λ n a. ground (arith, between-is_set (pos 200) (pos 599) f.status);
  hold = λ n n' a. ground (arith, positive-is_set f.max_duration);
}

-- What is left of `validateFault` behind the `switch`.
validate_fault-action_fields :
    (f : Fault) (path : Text)
    → validate_fault f path ≡ ok tt
    → action_fields f (f.phase == before_upstream_request) (f.phase == after_upstream_headers) path
      ≡ ok tt
unfolding validate_fault
validate_fault-action_fields f path h = ground arith

pub validate_fault-IsReady : (f : Fault) (path : Text) → validate_fault f path ≡ ok tt → IsReady f
validate_fault-IsReady f path h =
    action_fields-IsReady f _ _ path (validate_fault-action_fields f path h)

-- The fault that `validateRule` leaves.
pub validate_rule-parts :
    (r : Rule) (path : Text) {t : Rule}
    → validate_rule r path ≡ ok t
    → (validate_fault r.fault (path ++ codes ".fault") ≡ ok tt)
      × (t.fault ≡ default_body r.fault)
      × (validate_selector r.select path ≡ ok t.select)
unfolding validate_rule
validate_rule-parts r path {t} h = (ground arith, ground arith, ground arith)

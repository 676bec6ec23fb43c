-- ===== src/Examples/Exchange.antt =====
-- A transaction of a PostgreSQL client whose commit is confirmed, and whose acknowledgement is withheld.
use faultline.Common.{true, false, none, some, Option, List, [], ◌∷◌, ◌≡◌, refl, text_beq}
use faultline.Common.Strings.{codes}
use faultline.Config.Model.{Fault}
use faultline.Common.Int.{pos}
use faultline.Config.Model.{Rule, after_commit}
use faultline.Config.Errors.{ok}
use faultline.Config.Listener.{is_database}
use faultline.Config.Names.{identifier, identifier_byte}
use faultline.Config.Faults.{actions, validate_fault, action_fields, unused_fields}
use faultline.Config.Rules.{
  validate_commit_rule, matches_something, validate_rule, validate_matcher, validate_headers,
  default_body,
}
use faultline.Config.Selector.{validate_selector, validate_probability}
use faultline.Config.Validate.{validate_proxy_rule, validate_by_protocol}
use faultline.Examples.Config.{answer_second}
use faultline.Postgresql.Exchange.Timed.{take_server-answers}
use faultline.Engine.State.{Decision, no_decision, no_fault}
use faultline.Postgresql.Wire.{Frame}
use faultline.Postgresql.Exchange.{
  Session, Input, from_client, from_server, initial, apply, take_server, take_client, start_cycle,
  forward_server, settle, confirm, ready, answer_client, finish, forward_client, step, run,
  ends_with_zero, leave,
}
use faultline.Postgresql.Exchange.Cycles.{IsCycle}
use faultline.Postgresql.Exchange.Runs.{commit_frame, run-IsCycle, take_server-lost}

abbrev query : Frame
query = record { kind = b'Q'; body = [] }

abbrev complete : Frame
complete = record { kind = b'C'; body = ends_with_zero "BEGIN" }

abbrev in_transaction : Frame
in_transaction = record { kind = b'Z'; body = codes "T" }

abbrev closing : Fault
closing = record no_fault { action = "close_connection" }

abbrev decision : Decision
decision = record (no_decision []) { selected = true; fault = closing }

abbrev inputs : List Input
inputs =
    from_client query false
    ∷ from_server complete false decision false
    ∷ from_server in_transaction false decision false
    ∷ from_client query false
    ∷ from_server commit_frame false decision false
    ∷ []

-- The session at the end of some inputs, or the initial one.
abbrev reached : Option Session → Session
reached none = initial
reached (some s) = s

abbrev committing : Session
committing = reached (
    run
      (from_client query false
        ∷ from_server complete false decision false
        ∷ from_server in_transaction false decision false
        ∷ from_client query false
        ∷ [])
      initial)

lost : run inputs initial ≡ some (reached (run inputs initial))
unfolding run step take_client take_server start_cycle forward_server settle confirm ready
    answer_client finish forward_client apply leave text_beq
lost = refl

run-IsCycle_example : IsCycle (reached (run inputs initial))
run-IsCycle_example = run-IsCycle inputs (reached (run inputs initial)) lost

in_order :
    (committing.transaction ≡ true) × (committing.active ≡ true) × (committing.decided ≡ false)
unfolding run step take_client take_server start_cycle forward_server settle confirm ready
    answer_client finish forward_client apply leave text_beq
in_order = (refl, refl, refl)

take_server-lost_example :
    (t : Session) × (take_server commit_frame false decision false committing ≡ some t)
    × (t.to_client ≡ committing.to_client)
    × (t.transaction ≡ false)
    × (t.active ≡ false)
    × (t.event.outcome ≡ "commit_ack_lost")
    × (t.returned ≡ true)
unfolding apply
take_server-lost_example =
    take_server-lost false decision false committing in_order.0 in_order.1 in_order.2 refl refl

abbrev hold_commit : Rule
hold_commit = record answer_second {
  fault = record no_fault {
    phase = after_commit;
    action = "hold_response";
    max_duration = some (pos 9);
  };
}

hold_accepted : validate_proxy_rule "postgresql" hold_commit [] ≡ ok hold_commit
unfolding validate_proxy_rule validate_by_protocol identifier identifier_byte actions
    validate_commit_rule matches_something validate_rule validate_matcher validate_headers
    validate_selector validate_probability validate_fault action_fields unused_fields default_body
hold_accepted = refl

take_server-answers_example :
    (s' : Session) × (take_server commit_frame false
        (record decision { fault = hold_commit.fault })
        false
        committing
      ≡ some s')
unfolding is_database
take_server-answers_example =
    take_server-answers "postgresql" hold_commit hold_commit [] commit_frame false
      (record decision { fault = hold_commit.fault }) false committing refl hold_accepted refl

-- ===== src/Examples/Fault.antt =====
-- A flow whose state counts what it was told, and a body of five bytes.
use faultline.Common.{
  ℕ, ◌+◌, ◌≤◌, ◌<◌, true, Option, none, some, [], ◌∷◌, ◌++◌, Text, ◌≡◌, refl, length, length-take,
  take, drop, arith,
}
use faultline.Common.Strings.{codes}
use faultline.Common.Int.{pos}
use faultline.Config.Model.{Fault, Rule}
use faultline.Config.Errors.{ok}
use faultline.Config.Rules.{validate_rule, validate_matcher, validate_headers, default_body}
use faultline.Config.Selector.{validate_selector, validate_probability}
use faultline.Config.Faults.{validate_fault, action_fields, unused_fields}
use faultline.Fault.Builtin.{Failure, Flow, Execution, perform, execute, close}
use faultline.Fault.Builtin.Laws.{Counts, Reports, execute-Reports}
use faultline.Fault.Builtin.Total.{execute-validate_rule}
use faultline.Fault.Body.{Reader, Body, Call, wrap_body, read_all}
use faultline.Fault.Body.Truncation.{Tracks, read_all_truncation}
use faultline.Examples.Config.{answer, answer_second}

abbrev flow : Flow ℕ
flow = record {
  context_err = λ s. none;
  cancel_upstream = λ s. s;
  respond = λ status body s. (none, s);
  close_connection = λ s. (none, s);
  end_stream = none;
  fault_applied = some (λ s. s + 1);
  wait = λ d s. (none, s);
}

flow_counts : Counts flow (λ s. s)
flow_counts = record {
  observed = λ s. refl;
  cancel = λ s. refl;
  respond = λ status body s. refl;
  close = λ s. refl;
  end_flow = λ s. refl;
  wait = λ d s. refl;
}

abbrev hang_up : Fault
hang_up = record answer { action = "close_connection"; status = none }

hang_up_executed :
    execute flow hang_up 0 ≡ some (record { applied = true; error = none; state = 1 })
unfolding execute perform close
hang_up_executed = refl

execute-Reports_example :
    Reports flow (λ s. s) flow_counts 0 (record { applied = true; error = none; state = 1 })
execute-Reports_example = execute-Reports flow (λ s. s) flow_counts hang_up 0 hang_up_executed

abbrev pub valid_rule : Rule
valid_rule = record answer_second { fault = record answer { body = some [] } }

pub rule_valid : validate_rule answer_second [] ≡ ok valid_rule
unfolding validate_rule validate_matcher validate_headers validate_selector validate_probability
    validate_fault action_fields unused_fields default_body
rule_valid = refl

execute-validate_rule_example : (x : Execution ℕ) × (execute flow valid_rule.fault 0 ≡ some x)
execute-validate_rule_example = execute-validate_rule flow answer_second [] 0 rule_valid

-- The bytes that were read, and those that are left.
abbrev Source : Type 0
Source = Text × Text

abbrev read_source : ℕ → Source → Text × Option Failure × Source
read_source n (old, new) = (take n new, none, (old ++ take n new, drop n new))

read_source_bounded : (n : ℕ) (s : Source) → length (read_source n s).0 ≤ n
read_source_bounded n (old, new) = omega (arith, length-take n new)

abbrev reader : Reader Source
reader = record { read = read_source; bounded = read_source_bounded }

reader-Tracks : Tracks reader (λ s. s.0)
reader-Tracks = record { step = λ n s. refl }

abbrev cut_at_two : Fault
cut_at_two = record answer { action = "truncate"; status = none; bytes = some (pos 2) }

abbrev slow : Fault
slow = record answer { action = "throttle"; status = none; bytes_per_second = some (pos 20) }

abbrev call : Call
call = record { size = 4; context_err = none; wait_err = none }

abbrev start : Source
start = ([], codes "hello")

read_all_truncation_example :
    (r : Text × Body Source) × (read_all reader (wrap_body start cut_at_two) (call ∷ call ∷ [])
      ≡ some r)
    × (length r.0 ≤ 2)
    × ((probed : Text) × (r.1.source.0 ≡ [] ++ (r.0 ++ probed))
        × (r.1.applied ≡ length probed)
        × (0 < length probed → length r.0 ≡ 2))
read_all_truncation_example =
    read_all_truncation reader (λ s. s.0) reader-Tracks start cut_at_two 2 (call ∷ call ∷ []) refl
      refl

-- ===== src/Fault/Builtin.antt =====
-- internal/fault/builtin.go and internal/fault/executor.go. The flow that an adapter passes in, its
-- context and its clock are the interface `Flow` over the adapter's state.
pub mod Laws
pub mod Leads
pub mod Total
use faultline.Common.{
  ℕ, Bool, true, false, Option, none, some, String, Text, ◌==◌, string_eq, ◌||◌, if◌then◌else◌,
}
use faultline.Common.Int.{ℤ}
use faultline.Config.Model.{Fault}

-- The errors that the code tells apart; any other is a number.
pub data Failure : Type 0 where
  canceled truncated eof : Failure
  unsupported_action : String → Failure
  failed : ℕ → Failure

-- `Capabilities`, the two optional interfaces that `Execute` asks for, `ctx.Err` and `wait`.
pub record Flow (S : Type 0) : Type 0 where
  pub context_err : S → Option Failure
  pub cancel_upstream : S → S
  pub respond : ℤ → Text → S → Option Failure × S
  pub close_connection : S → Option Failure × S
  pub end_stream : Option (S → Option Failure × S)
  pub fault_applied : Option (S → S)
  pub wait : ℤ → S → Option Failure × S

-- What `Execute` returns, with the state that it leaves.
pub record Execution (S : Type 0) : Type 0 where
  pub applied : Bool
  pub error : Option Failure
  pub state : S

module _ {S : Type 0} (flow : Flow S) where
  -- `applied`
  abbrev pub tell_applied : S → S
  tell_applied s = elim flow.fault_applied [ none ↦ s | some tell ↦ tell s ]

  abbrev pub executed : Bool → Option Failure × S → Execution S
  executed applied (error, s) = record { applied = applied; error = error; state = s }

  abbrev pub is_none : Option Failure → Bool
  is_none none = true
  is_none (some e) = false

  unfoldable pub close : S → Execution S
  close s =
      let (error, closed) = flow.close_connection (flow.cancel_upstream s) in
      executed (is_none error) (error, if is_none error then tell_applied closed else closed)

  -- `stream.EndStream()` if the flow has it, else `CloseConnection()`.
  abbrev pub end_flow : S → Option Failure × S
  end_flow s = elim flow.end_stream [ none ↦ flow.close_connection s | some end ↦ end s ]

  abbrev pub first_error : Option Failure → Option Failure → Option Failure
  first_error none other = other
  first_error (some e) other = some e

  unfoldable pub hold : ℤ → S → Execution S
  hold max_duration s =
      let (waited, s') = flow.wait max_duration (tell_applied (flow.cancel_upstream s)) in
      let (ended, s'') = end_flow s' in executed true (first_error waited ended, s'')

  unfoldable pub delay_for : Option ℤ → S → Option (Execution S)
  delay_for none s = none
  delay_for (some duration) s = some (executed true (flow.wait duration (tell_applied s)))

  unfoldable pub hold_for : Option ℤ → S → Option (Execution S)
  hold_for none s = none
  hold_for (some max_duration) s = some (hold max_duration s)

  unfoldable pub respond_with : Option ℤ → Option Text → S → Option (Execution S)
  respond_with none body s = none
  respond_with (some status) none s = none
  respond_with (some status) (some body) s =
      some (executed true (flow.respond status body (tell_applied s)))

  -- The `switch` on the action; `none` is a panic on a nil field.
  unfoldable pub perform : Fault → S → Option (Execution S)
  perform f s =
      if f.action == "delay"
      then delay_for f.duration s
      else if f.action == "respond"
      then respond_with f.status f.body s
      else if f.action == "close_connection"
      then some (close s)
      else if f.action == "hold_request" || f.action == "hold_response"
      then hold_for f.max_duration s
      else some (executed false (some (unsupported_action f.action), s))

  unfoldable pub execute : Fault → S → Option (Execution S)
  execute f s = elim (flow.context_err s) [
    | some e ↦ some (executed false (some e, s))
    | none ↦ perform f s
  ]

-- ===== src/Fault/Builtin/Laws.antt =====
-- What the executor reports of an action is what it has told the flow.
use faultline.Common.{ℕ, ◌+◌, Option, none, some, Text, ◌≡◌, string_eq, arith, if◌then◌else◌}
use faultline.Common.Int.{ℤ}
use faultline.Config.Model.{Fault}
use faultline.Fault.Builtin.{
  Flow, Execution, tell_applied, end_flow as finish_flow, close as close_action, hold, delay_for,
  hold_for, respond_with, perform, execute,
}

-- `told` counts the calls of `FaultApplied`; nothing else of the flow changes it.
pub record Counts {S : Type 0} (flow : Flow S) (told : S → ℕ) : Type 0 where
  pub observed : (s : S) → told (tell_applied flow s) ≡ told s + 1
  pub cancel : (s : S) → told (flow.cancel_upstream s) ≡ told s
  pub respond : (status : ℤ) (body : Text) (s : S) → told (flow.respond status body s).1 ≡ told s
  pub close : (s : S) → told (flow.close_connection s).1 ≡ told s
  pub end_flow : (s : S) → told (finish_flow flow s).1 ≡ told s
  pub wait : (d : ℤ) (s : S) → told (flow.wait d s).1 ≡ told s

module _ {S : Type 0} (flow : Flow S) (told : S → ℕ) (c : Counts flow told) where
  -- The observer was told once if the execution says that it was applied, and never otherwise.
  abbrev pub Reports : S → Execution S → Type 0
  Reports s x = told x.state ≡ told s + (if x.applied then 1 else 0)

  close-Reports : (s : S) → Reports s (close_action flow s)
  unfolding close_action
  close-Reports s =
      let t = flow.cancel_upstream s in
      let closed = flow.close_connection t in
      ground (arith, c.cancel s, c.close t, c.observed closed.1)

  hold-Reports : (d : ℤ) (s : S) → Reports s (hold flow d s)
  unfolding hold
  hold-Reports d s =
      let t = flow.cancel_upstream s in
      let told_state = tell_applied flow t in
      let waited = flow.wait d told_state in
      omega (arith, c.cancel s, c.observed t, c.wait d told_state, c.end_flow waited.1)

  respond-Reports :
      (status : Option ℤ) (body : Option Text) (s : S) {x : Execution S}
      → respond_with flow status body s ≡ some x
      → Reports s x
  unfolding respond_with
  respond-Reports none body s h = cc
  respond-Reports (some status) none s h = cc
  respond-Reports (some status) (some body) s h =
      ground (arith, c.observed s, c.respond status body (tell_applied flow s))

  delay-Reports :
      (d : Option ℤ) (s : S) {x : Execution S} → delay_for flow d s ≡ some x → Reports s x
  unfolding delay_for
  delay-Reports none s h = cc
  delay-Reports (some d) s h = ground (arith, c.observed s, c.wait d (tell_applied flow s))

  hold_for-Reports :
      (d : Option ℤ) (s : S) {x : Execution S} → hold_for flow d s ≡ some x → Reports s x
  unfolding hold_for
  hold_for-Reports none s h = cc
  hold_for-Reports (some d) s h = ground (arith, hold-Reports d s)

  perform-Reports : (f : Fault) (s : S) {x : Execution S} → perform flow f s ≡ some x → Reports s x
  unfolding perform
  perform-Reports f s {x} h = ground (
    arith,
    delay-Reports f.duration s {x = x},
    respond-Reports f.status f.body s {x = x},
    close-Reports s,
    hold_for-Reports f.max_duration s {x = x},
  )

  -- Whatever the action and however it ends, `Execute` reports it as applied exactly if the observer was
  -- told so, and it tells the observer at most once.
  pub execute-Reports :
      (f : Fault) (s : S) {x : Execution S} → execute flow f s ≡ some x → Reports s x
  unfolding execute
  execute-Reports f s {x} h = ground (arith, perform-Reports f s {x = x})

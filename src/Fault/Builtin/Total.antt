-- ===== src/Fault/Builtin/Total.antt =====
-- The executor on a fault that validation has let through.
use mathlib.Core.Path.{subst}
use faultline.Common.{
  true, false, not, ◌&&◌, ◌||◌, Option, none, some, Text, ◌≡◌, refl, sym, ◌==◌, string_eq, arith,
  Bool-cases, Option-cases, inl, inr,
}
use faultline.Common.Int.{ℤ}
use faultline.Config.Model.{Fault, Rule}
use faultline.Config.Errors.{ok}
use faultline.Config.Faults.{is_set}
use faultline.Config.Rules.{default_body, validate_rule}
use faultline.Config.Rules.Ready.{IsReady, validate_fault-IsReady, validate_rule-parts}
use faultline.Fault.Builtin.{
  Flow, Execution, delay_for, hold_for, respond_with, perform, execute, executed,
}

-- The fields that the action reads are there.
abbrev pub Performs : Fault → Type 0
Performs f = IsReady f × ((f.action == "respond") ≡ true → is_set f.body ≡ true)

default_body-is_set :
    (f : Fault)
    → ((default_body f).action == "respond") ≡ true
    → is_set (default_body f).body ≡ true
unfolding default_body
default_body-is_set f h = ground arith

default_body-IsReady : (f : Fault) → IsReady f → IsReady (default_body f)
unfolding default_body
default_body-IsReady f r = elim (Bool-cases (f.action == "respond" && not (is_set f.body))) [
  | inl e ↦ rw e (record { delay = r.delay; respond = r.respond; hold = r.hold })
  | inr e ↦ rw e r
]

pub validate_rule-Performs :
    (r : Rule) (path : Text) {t : Rule} → validate_rule r path ≡ ok t → Performs t.fault
validate_rule-Performs r path {t} h =
    let (fault, e, _) = validate_rule-parts r path h in
    let ready = default_body-IsReady r.fault (validate_fault-IsReady r.fault _ fault) in
    subst Performs (sym e) (ready, default_body-is_set r.fault)

module _ {S : Type 0} (flow : Flow S) where
  Returns : Option (Execution S) → Type 0
  Returns o = (x : Execution S) × (o ≡ some x)

  delay_for-Returns : (d : Option ℤ) (s : S) → is_set d ≡ true → Returns (delay_for flow d s)
  unfolding delay_for Returns
  delay_for-Returns none s h = cc
  delay_for-Returns (some d) s h = (_, refl)

  hold_for-Returns : (d : Option ℤ) (s : S) → is_set d ≡ true → Returns (hold_for flow d s)
  unfolding hold_for Returns
  hold_for-Returns none s h = cc
  hold_for-Returns (some d) s h = (_, refl)

  respond-Returns :
      (status : Option ℤ) (body : Option Text) (s : S)
      → is_set status ≡ true
      → is_set body ≡ true
      → Returns (respond_with flow status body s)
  unfolding respond_with Returns
  respond-Returns none body s h k = cc
  respond-Returns (some status) none s h k = cc
  respond-Returns (some status) (some body) s h k = (_, refl)

  perform-Returns :
      (f : Fault) (s : S)
      → IsReady f
      → ((f.action == "respond") ≡ true → is_set f.body ≡ true)
      → Returns (perform flow f s)
  unfolding perform
  perform-Returns f s r body = elim (Bool-cases (f.action == "delay")) [
    | inl e ↦ rw e (delay_for-Returns f.duration s (r.delay e))
    | inr n₁ ↦ elim (Bool-cases (f.action == "respond")) [
      | inl e ↦ rw n₁ (rw e (respond-Returns f.status f.body s (r.respond n₁ e) (body e)))
      | inr n₂ ↦ elim (Bool-cases (f.action == "close_connection")) [
        | inl e ↦ rw n₁ (rw n₂ (rw e (unfold Returns in (_, refl))))
        | inr n₃ ↦ elim (Bool-cases (f.action == "hold_request" || f.action == "hold_response")) [
          | inl e ↦
              rw n₁ (rw n₂ (rw n₃ (rw e (hold_for-Returns f.max_duration s (r.hold n₁ n₂ e)))))
          | inr n₄ ↦ rw n₁ (rw n₂ (rw n₃ (rw n₄ (unfold Returns in (_, refl)))))
        ]
      ]
    ]
  ]

  execute-Returns : (f : Fault) (s : S) → Performs f → Returns (execute flow f s)
  unfolding execute
  execute-Returns f s (ready, body) = elim (Option-cases (flow.context_err s)) [
    | inl fine ↦ rw (fine, execute) (perform-Returns f s ready body)
    | inr (err, q) ↦ unfold Returns in (executed flow false (some err, s), rw (q, execute))
  ]

  -- With the fields that its action reads, `Execute` returns.
  pub execute_returns :
      (f : Fault) (s : S) → Performs f → (x : Execution S) × (execute flow f s ≡ some x)
  unfolding Returns
  execute_returns f s p = execute-Returns f s p

  -- The fault of a rule that `validateRule` accepts, with the body that it fills in, never makes `Execute`
  -- panic on a missing field, whatever the flow and its state.
  pub execute-validate_rule :
      (r : Rule) (path : Text) (s : S) {t : Rule}
      → validate_rule r path ≡ ok t
      → (x : Execution S) × (execute flow t.fault s ≡ some x)
  execute-validate_rule r path s {t} h = execute_returns t.fault s (validate_rule-Performs r path h)

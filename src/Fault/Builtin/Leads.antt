-- ===== src/Fault/Builtin/Leads.antt =====
-- What `Execute` keeps of a flow, from what each capability keeps.
use mathlib.Core.Path.{subst}
use faultline.Common.{
  true, Option, none, some, Text, ◌≡◌, string_eq, arith, ◌==◌, ◌||◌, Bool-cases, inl, inr,
  Option-cases,
}
use faultline.Common.Int.{ℤ}
use faultline.Config.Model.{Fault}
use faultline.Fault.Builtin.{
  Flow, Execution, tell_applied, end_flow as finish_flow, close as close_action, hold, delay_for,
  hold_for, respond_with, perform, execute, is_none,
}

-- `P` holds until the flow is answered or ended, and `Q` from there on.
pub record Leads {S : Type 0} (flow : Flow S) (P Q : S → Type 0) : Type 0 where
  pub start : (s : S) → P s → Q s
  pub cancel : (s : S) → P s → P (flow.cancel_upstream s)
  pub wait : (d : ℤ) (s : S) → P s → P (flow.wait d s).1
  pub told : (s : S) → P s → P (tell_applied flow s)
  pub respond : (status : ℤ) (body : Text) (s : S) → P s → Q (flow.respond status body s).1
  pub close : (s : S) → P s → Q (flow.close_connection s).1
  pub end_flow : (s : S) → P s → Q (finish_flow flow s).1
  pub told_after : (s : S) → Q s → Q (tell_applied flow s)

module _ {S : Type 0} (flow : Flow S) (P Q : S → Type 0) (l : Leads flow P Q) where
  close-Leads : (s : S) → P s → Q (close_action flow s).state
  unfolding close_action
  close-Leads s p =
      let closed = flow.close_connection (flow.cancel_upstream s) in
      let q = l.close _ (l.cancel s p) in
      elim (Bool-cases (is_none flow closed.0)) [ inl e ↦ rw e (l.told_after _ q) | inr e ↦ rw e q ]

  hold-Leads : (d : ℤ) (s : S) → P s → Q (hold flow d s).state
  unfolding hold
  hold-Leads d s p = l.end_flow _ (l.wait d _ (l.told _ (l.cancel s p)))

  -- Of a result, if there is one.
  Reaches : Option (Execution S) → Type 0
  Reaches none = Unit
  Reaches (some x) = Q x.state

  delay-Reaches : (d : Option ℤ) (s : S) → P s → Reaches (delay_for flow d s)
  unfolding delay_for Reaches
  delay-Reaches none s p = tt
  delay-Reaches (some d) s p = l.start _ (l.wait d _ (l.told s p))

  hold_for-Reaches : (d : Option ℤ) (s : S) → P s → Reaches (hold_for flow d s)
  unfolding hold_for Reaches
  hold_for-Reaches none s p = tt
  hold_for-Reaches (some d) s p = hold-Leads d s p

  respond-Reaches :
      (status : Option ℤ) (body : Option Text) (s : S)
      → P s
      → Reaches (respond_with flow status body s)
  unfolding respond_with Reaches
  respond-Reaches none body s p = tt
  respond-Reaches (some status) none s p = tt
  respond-Reaches (some status) (some body) s p = l.respond status body _ (l.told s p)

  perform-Reaches : (f : Fault) (s : S) → P s → Reaches (perform flow f s)
  unfolding perform
  perform-Reaches f s p = elim (Bool-cases (f.action == "delay")) [
    | inl e ↦ rw e (delay-Reaches f.duration s p)
    | inr n₁ ↦ elim (Bool-cases (f.action == "respond")) [
      | inl e ↦ rw n₁ (rw e (respond-Reaches f.status f.body s p))
      | inr n₂ ↦ elim (Bool-cases (f.action == "close_connection")) [
        | inl e ↦ rw n₁ (rw n₂ (rw e (unfold Reaches in (close-Leads s p))))
        | inr n₃ ↦ elim (Bool-cases (f.action == "hold_request" || f.action == "hold_response")) [
          | inl e ↦ rw n₁ (rw n₂ (rw n₃ (rw e (hold_for-Reaches f.max_duration s p))))
          | inr n₄ ↦ rw n₁ (rw n₂ (rw n₃ (rw n₄ (unfold Reaches in (l.start s p)))))
        ]
      ]
    ]
  ]

  execute-Reaches : (f : Fault) (s : S) → P s → Reaches (execute flow f s)
  unfolding execute Reaches
  execute-Reaches f s p = elim (Option-cases (flow.context_err s)) [
    | inl fine ↦ rw (fine, execute) (perform-Reaches f s p)
    | inr (err, q) ↦ rw (q, execute) (l.start s p)
  ]

  -- The state that `Execute` leaves has `Q` if the one that it starts from has `P`.
  pub execute-Leads :
      (f : Fault) (s : S) {x : Execution S} → execute flow f s ≡ some x → P s → Q x.state
  unfolding Reaches
  execute-Leads f s h p = subst Reaches h (execute-Reaches f s p)

module _ {S : Type 0} (flow : Flow S) where
  delay-applied :
      (d : Option ℤ) (s : S) {x : Execution S} → delay_for flow d s ≡ some x → x.applied ≡ true
  unfolding delay_for
  delay-applied none s h = cc
  delay-applied (some d) s h = ground arith

  hold_for-applied :
      (d : Option ℤ) (s : S) {x : Execution S} → hold_for flow d s ≡ some x → x.applied ≡ true
  unfolding hold_for hold
  hold_for-applied none s h = cc
  hold_for-applied (some d) s h = ground arith

  respond-applied :
      (status : Option ℤ) (body : Option Text) (s : S) {x : Execution S}
      → respond_with flow status body s ≡ some x
      → x.applied ≡ true
  unfolding respond_with
  respond-applied none body s h = cc
  respond-applied (some status) none s h = cc
  respond-applied (some status) (some body) s h = ground arith

  close-applied :
      (s : S) → (close_action flow s).error ≡ none → (close_action flow s).applied ≡ true
  unfolding close_action
  close-applied s e = ground arith

  perform-applied :
      (f : Fault) (s : S) {x : Execution S}
      → perform flow f s ≡ some x
      → x.error ≡ none
      → x.applied ≡ true
  unfolding perform
  perform-applied f s {x} h e = ground (
    arith,
    delay-applied f.duration s {x = x},
    respond-applied f.status f.body s {x = x},
    close-applied s,
    hold_for-applied f.max_duration s {x = x},
  )

  -- An execution that ends without an error was applied.
  pub execute-applied :
      (f : Fault) (s : S) {x : Execution S}
      → execute flow f s ≡ some x
      → x.error ≡ none
      → x.applied ≡ true
  unfolding execute
  execute-applied f s {x} h e = ground (arith, perform-applied f s {x = x})

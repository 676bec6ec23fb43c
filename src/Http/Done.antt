-- ===== src/Http/Done.antt =====
-- What the handler leaves behind the proxy: the error paths and the upstream's answer.

use faultline.Common.{
  ℕ, ◌+◌, ◌≤◌, Bool, true, false, Option, some, [], ◌∷◌, ◌++◌, String, ◌==◌, string_eq, ◌≡◌, ◌⊎◌,
  refl, ap, arith, length, length-append, if◌then◌else◌, if-cases, Bool-cases, Option-cases, inl,
  inr,
}
use faultline.Engine.State.{Decision}
use faultline.Fault.Builtin.{Failure}
use faultline.Grpc.Metadata.{Request}
use faultline.Http.Acted.{Acted}
use faultline.Http.Flow.{
  Endpoint, World, Reply, relayed, Handling, tick, with_report, is_http2, context_error,
  close_connection,
}
use faultline.Http.Handler.{
  Exit, returned, fail_status, fail_ended, fail_error, fail, is_unavailable, is_grpc,
}
use faultline.Http.Kept.{Base, Kept, IsBalanced}
use faultline.Http.Report.{Error, Cause, flow_completed, context_ended}
use faultline.Http.Serve.{is_some}

-- A completed outcome stands for an applied fault, for an answer that was sent on, or for an error of a context
-- that has ended.
abbrev pub Explained : World → Endpoint → Request → Handling → Type 0
Explained w h r s =
    (s.applied ≡ true)
    ⊎ ((status : ℕ) × (s.replies ≡ relayed status ∷ []))
    ⊎ ((is_some s.report.err ≡ true) × (is_some (context_error w h r s) ≡ true))

-- At most one reply, and one or a disconnection where the handler returns.
pub record Done (w : World) (h : Endpoint) (r : Request) (b : Base) (x : Exit × Handling)
    : Type 0 where
  pub kept : Kept b x.1
  pub one : length x.1.replies ≤ 1
  pub answered : x.0 ≡ returned → 1 ≤ length x.1.replies + (if x.1.disconnected then 1 else 0)
  pub explained : x.0 ≡ returned → (x.1.report.outcome == "completed") ≡ true → Explained w h r x.1

not_completed :
    (u : Bool) (o : String)
    → ((if u then "executor_unavailable" else if o == "completed" then "upstream_error" else o)
        == "completed")
      ≡ false
not_completed true o = refl
not_completed false o = elim (Bool-cases (o == "completed")) [ inl e ↦ rw e refl | inr e ↦ rw e e ]

module _ (w : World) (h : Endpoint) (r : Request) (b : Base) where
  -- A flow whose outcome is not a completed one.
  pub failed-Done :
      (exit : Exit) (s : Handling)
      → Kept b s
      → length s.replies ≤ 1
      → 1 ≤ length s.replies + (if s.disconnected then 1 else 0)
      → (s.report.outcome == "completed") ≡ false
      → Done w h r b (exit, s)
  failed-Done exit s kept one answered outcome = record {
    kept = kept;
    one = one;
    answered = λ _. answered;
    explained = λ _ n. absurd (ground (arith, n, outcome));
  }

  one_more :
      (s : Handling) (answer : Reply)
      → IsBalanced s
      → s.terminal ≡ false
      → length (s.replies ++ answer ∷ []) ≡ 1
  one_more s answer balanced q = ground (arith, length-append s.replies (answer ∷ []))

  fail_status-Done :
      (err : Error) (s : Handling)
      → Kept b s
      → IsBalanced s
      → Done w h r b (fail_status w h r err s)
  unfolding fail_status
  fail_status-Done err s kept balanced =
      let P = Done w h r b in
      let outcome = not_completed (is_unavailable w h r err) s.report.outcome in
      let more = one_more s in
      if-cases P s.terminal _ _
        (λ t.
          failed-Done returned _ (record { slots = kept.slots; counted = kept.counted })
            (ground arith) (ground arith) outcome)
        (λ t.
          if-cases P (is_grpc w h r) _ _
            (λ _.
              failed-Done returned _ (record { slots = kept.slots; counted = kept.counted })
                (omega (arith, more _ balanced t)) (omega (arith, more _ balanced t)) outcome)
            (λ _.
              failed-Done returned _ (record { slots = kept.slots; counted = kept.counted })
                (omega (arith, more _ balanced t)) (omega (arith, more _ balanced t)) outcome))

  -- Behind `CloseConnection` the handler returns; shut, so that its branches are found.
  Closes : Option Failure × Handling → Type 0
  Closes x = Done w h r b (returned, x.1)

  returned-Closes :
      (error : Option Failure) (s : Handling)
      → Kept b s
      → length s.replies ≤ 1
      → 1 ≤ length s.replies + (if s.disconnected then 1 else 0)
      → is_some s.report.err ≡ true
      → is_some (context_error w h r s) ≡ true
      → Closes (error, s)
  unfolding Closes
  returned-Closes error s kept one answered err ended = record {
    kept = kept;
    one = one;
    answered = λ _. answered;
    explained = λ _ _. inr (inr (err, ended));
  }

  close-Closes :
      (s : Handling)
      → is_http2 r ≡ false
      → Kept b s
      → IsBalanced s
      → is_some s.report.err ≡ true
      → is_some (context_error w h r s) ≡ true
      → Closes (close_connection w h r s)
  unfolding close_connection context_error
  close-Closes s http1 kept balanced err ended =
      if-cases Closes (is_http2 r) _ _ (λ t. absurd (ground (arith, t, http1)))
        (λ _.
          if-cases Closes s.terminal _ _
            (λ t. returned-Closes _ s kept (ground (arith, t)) (ground (arith, t)) err ended)
            (λ t.
              returned-Closes _ _ (record { slots = kept.slots; counted = kept.counted })
                (ground (arith, t)) (ground (arith, t)) err ended))

  fail_ended-Done :
      (cause : Cause) (s : Handling)
      → Kept b s
      → IsBalanced s
      → is_some (context_error w h r s) ≡ true
      → Done w h r b (fail_ended w h r cause s)
  unfolding fail_ended context_error Closes
  fail_ended-Done cause s kept balanced ended =
      let t = with_report (record s.report { err = some (context_ended cause) }) s in
      let kept' : Kept b t = record { slots = kept.slots; counted = kept.counted } in
      if-cases (Done w h r b) (is_http2 r) _ _
        (λ _. record { kept = kept'; one = ground arith; answered = λ n. cc; explained = λ n. cc })
        (λ http1. close-Closes t http1 kept' balanced refl ended)

  fail_error-Done :
      (err : Error) (s : Handling) → Kept b s → IsBalanced s → Done w h r b (fail_error w h r err s)
  unfolding fail_error
  fail_error-Done err s kept balanced = elim (Option-cases (context_error w h r s)) [
    | inl q ↦ rw (q, fail_error) (fail_status-Done err s kept balanced)
    | inr (cause, q) ↦ rw (q, fail_error) (fail_ended-Done cause s kept balanced (ap is_some q))
  ]

  -- `errTerminal`: the executor has answered the client, or has ended its connection.
  completed-Done :
      (s : Handling)
      → Kept b s
      → IsBalanced s
      → (s.applied ≡ true) × (s.terminal ≡ true)
      → Done w h r b (fail w h r flow_completed s)
  unfolding fail
  completed-Done s kept balanced (applied, terminal) = record {
    kept = kept;
    one = ground arith;
    answered = λ _. ground arith;
    explained = λ _ _. inl applied;
  }

  pub fail-Done :
      (d : Decision) (R : Type 0) (err : Error) (s : Handling)
      → Acted b d R (some err, s)
      → Done w h r b (fail w h r err s)
  unfolding fail
  fail-Done d R flow_completed s a = completed-Done s a.kept a.balanced (a.completed refl)
  fail-Done d R err s a =
      let kept = a.kept in
      let ticked : Kept b (tick s) = record { slots = kept.slots; counted = kept.counted } in
      fail_error-Done err (tick s) ticked a.balanced

-- ===== src/Http/Settled.antt =====
-- What the deferred function behind the proxy leaves.
use faultline.Common.{
  ℕ, ◌+◌, ◌≤◌, Bool, true, false, not, ◌||◌, Option, none, some, [], ◌∷◌, String, ◌==◌, string_eq,
  ◌≡◌, ◌⊎◌, refl, ap, sym, ◌∙◌, arith, length, if◌then◌else◌, Option-cases, inl, inr,
}
use faultline.Grpc.Metadata.{Request}
use faultline.Http.Done.{Done, Explained}
use faultline.Http.Flow.{Endpoint, World, relayed, Handling, tick, context_error, cancel_upstream}
use faultline.Http.Handler.{Exit, returned}
use faultline.Http.Kept.{Base, Kept}
use faultline.Http.Report.{Cause, context_ended, Report}
use faultline.Http.Serve.{is_some, cause_kind, ended_report, classified, settle}

-- A request whose outcome is final: the report says whether the fault was applied, and a completed outcome stands
-- for an applied fault or for an answer that was sent on.
pub record Settled (b : Base) (x : Exit × Handling) : Type 0 where
  pub kept : Kept b x.1
  pub one : length x.1.replies ≤ 1
  pub answered : x.0 ≡ returned → 1 ≤ length x.1.replies + (if x.1.disconnected then 1 else 0)
  pub told : x.1.report.applied ≡ x.1.applied
  pub explained :
      x.0 ≡ returned
      → (x.1.report.outcome == "completed") ≡ true
      → (x.1.applied ≡ true) ⊎ ((status : ℕ) × (x.1.replies ≡ relayed status ∷ []))

not_canceled :
    (u : Bool) (x t : Report)
    → (x.outcome == "completed") ≡ false
    → ((if u then x else t).outcome == "completed") ≡ true
    → (u ≡ false) × ((t.outcome == "completed") ≡ true)
not_canceled true x t n q = absurd (ground (arith, n, q))
not_canceled false x t n q = (refl, q)

module _ (w : World) (h : Endpoint) (r : Request) where
  classified-outcome : (t : Report) → (classified w h r t).outcome ≡ t.outcome
  unfolding classified
  classified-outcome t = ground arith

  classified-applied : (t : Report) → (classified w h r t).applied ≡ t.applied
  unfolding classified
  classified-applied t = ground arith

  ended_report-applied :
      (c : Option Cause) (disconnected : Bool) (t : Report)
      → (ended_report w h r c disconnected t).applied ≡ t.applied
  unfolding ended_report
  ended_report-applied none disconnected t = refl
  ended_report-applied (some c) disconnected t = ground arith

  -- A completed outcome was one before, and there was no error of a context that has ended.
  ended_report-completed :
      (c : Option Cause) (disconnected : Bool) (t : Report)
      → ((ended_report w h r c disconnected t).outcome == "completed") ≡ true
      → ((t.outcome == "completed") ≡ true) × (is_some t.err ≡ true → is_some c ≡ true → ⊥)
  unfolding ended_report
  ended_report-completed none disconnected t q = (q, λ _ m. cc)
  ended_report-completed (some c) disconnected t q =
      let canceled = record t {
        outcome = "canceled";
        err = some (context_ended c);
        error_kind = cause_kind w.shutting_down c;
      } in
      let (off, old) = not_canceled (not disconnected || is_some t.err) canceled t refl q in
      (old, λ e _. ground (arith, off, e))

  later-context_error :
      (s : Handling)
      → is_some (context_error w h r s) ≡ true
      → is_some (context_error w h r (tick s)) ≡ true
  unfolding context_error
  later-context_error s q = elim (Option-cases w.ended_at) [
    | inl n ↦ ground (arith, n, q)
    | inr (end, n) ↦ ground (arith, n, q)
  ]

  reasons :
      (s : Handling)
      → (is_some s.report.err ≡ true → is_some (context_error w h r (tick s)) ≡ true → ⊥)
      → Explained w h r s
      → (s.applied ≡ true) ⊎ ((status : ℕ) × (s.replies ≡ relayed status ∷ []))
  reasons s running (inl applied) = inl applied
  reasons s running (inr (inl sent)) = inr sent
  reasons s running (inr (inr (err, ended))) = absurd (running err (later-context_error s ended))

  pub settle-Settled :
      (b : Base) (exit : Exit) (s : Handling)
      → Done w h r b (exit, s)
      → Settled b (exit, settle w h r s)
  unfolding settle cancel_upstream context_error
  settle-Settled b exit s d =
      let s' = cancel_upstream w h r (tick s) in
      let t = record s'.report { applied = s'.applied } in
      let c = context_error w h r s' in
      let u = ended_report w h r c s'.disconnected t in
      record {
        kept = record { slots = d.kept.slots; counted = d.kept.counted };
        one = d.one;
        answered = d.answered;
        told = classified-applied u ∙ ended_report-applied c s'.disconnected t;
        explained = λ e q.
            let (old, running) =
              ended_report-completed c s'.disconnected t
                (sym (ap (λ (o : String). o == "completed") (classified-outcome u)) ∙ q) in
            reasons s (running) (d.explained e old);
      }

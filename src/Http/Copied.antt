-- ===== src/Http/Copied.antt =====
-- What the handler leaves when it sends an answer on, and the status of an RPC behind it.

use faultline.Common.{
  Bool, true, false, not, ◌&&◌, ◌||◌, Option, none, some, List, [], ◌∷◌, ◌++◌, ◌==◌, string_eq,
  text_eq, nat_eq, ◌≡◌, refl, ap, arith, length, if-cases, inl, inr,
}
use faultline.Common.Strings.{codes}
use faultline.Engine.State.{Decision}
use faultline.Grpc.Metadata.{Request}
use faultline.Http.Acted.{Acted}
use faultline.Http.Done.{Done, fail-Done, failed-Done}
use faultline.Http.Flow.{
  Endpoint, World, Response, Reply, relayed, Handling, reply, with_report, context_error,
}
use faultline.Http.Handler.{
  Exit, returned, panicked, wraps_request, wraps_response, told, copy_response, pass_on, recovered,
  rpc_status, rpc_outcome, is_grpc,
}
use faultline.Http.Kept.{
  Base, Kept, IsQuiet, IsReady, fault_applied-Kept, fault_applied-IsReady, fault_applied-IsQuiet,
  fault_applied-report,
}
use faultline.Http.Report.{Error, Report}

pub and-right : (x y : Bool) → (x && y) ≡ true → y ≡ true
and-right true y q = q
and-right false y q = cc

module _ (w : World) (h : Endpoint) (r : Request) (recording : h.recording ≡ true) (b : Base) where
  pub told-Kept :
      (tells : Bool) (s : Handling)
      → (tells ≡ true → IsReady s)
      → Kept b s
      → Kept b (told w h r tells s)
  told-Kept true s ready k = fault_applied-Kept w h r recording b s (ready refl) k
  told-Kept false s ready k = k

  pub told-IsQuiet : (tells : Bool) (s : Handling) → IsQuiet s → IsQuiet (told w h r tells s)
  told-IsQuiet true s q = fault_applied-IsQuiet w h r recording b s q
  told-IsQuiet false s q = q

  pub told-IsReady : (tells : Bool) (s : Handling) → IsReady s → IsReady (told w h r tells s)
  told-IsReady true s q = fault_applied-IsReady w h r recording b s q
  told-IsReady false s q = q

  pub told-report : (tells : Bool) (s : Handling) → (told w h r tells s).report ≡ s.report
  told-report true s = fault_applied-report w h r recording b s
  told-report false s = refl

  pub recovered-Done : (x : Exit × Handling) → Done w h r b x → Done w h r b (recovered w h r x)
  unfolding recovered
  recovered-Done (returned, s) d = d
  recovered-Done (panicked, s) d = record {
    kept = record { slots = d.kept.slots; counted = d.kept.counted };
    one = d.one;
    answered = λ n. cc;
    explained = λ n. cc;
  }

  pub rpc_outcome-Done :
      (a : Response) (x : Exit × Handling) → Done w h r b x → Done w h r b (rpc_outcome w h r a x)
  unfolding rpc_outcome context_error
  rpc_outcome-Done a (panicked, s) d = d
  rpc_outcome-Done a (returned, s) d =
      let P = Done w h r b in
      let t = with_report (record s.report { grpc_status = rpc_status w h r a }) s in
      let failed = record t.report { outcome = "rpc_error"; error_kind = "upstream_rpc" } in
      let kept : Kept b t = record { slots = d.kept.slots; counted = d.kept.counted } in
      let done : P (returned, t) = record {
        kept = kept;
        one = d.one;
        answered = d.answered;
        explained = d.explained;
      } in
      let kept' : Kept b (with_report failed t) = record {
        slots = kept.slots;
        counted = kept.counted;
      } in
      let undone =
        failed-Done w h r b returned (with_report failed t) kept' d.one (d.answered refl) refl in
      if-cases P (not (is_grpc w h r) || a.status == 101) _ _ (λ _. d)
        (λ _.
          if-cases P (rpc_status w h r a == codes "0") (returned, t)
            (returned, with_report failed t) (λ _. done) (λ _. undone))

  copy_response-Done :
      (a : Response) (s : Handling)
      → (wraps_request w h r s || wraps_response w h r a s ≡ true → IsReady s)
      → Kept b s
      → IsQuiet s
      → Done w h r b (copy_response w h r a s)
  unfolding copy_response
  copy_response-Done a s ready k q =
      let tells = w.told_after && (wraps_request w h r s || wraps_response w h r a s) in
      let t = told w h r tells s in
      let k' = told-Kept tells s (λ c. ready (and-right w.told_after _ c)) k in
      let q' = told-IsQuiet tells s q in
      let sent : t.replies ++ relayed a.status ∷ [] ≡ relayed a.status ∷ [] =
        ap (λ (rs : List Reply). rs ++ relayed a.status ∷ []) q'.unanswered in
      record {
        kept = record { slots = k'.slots; counted = k'.counted };
        one = omega (arith, ap length sent);
        answered = λ _. omega (arith, ap length sent);
        explained = λ _ _. inr (inl (a.status, sent));
      }

  pub pass_on-Done :
      (d : Decision) (R : Type 0) (a : Response) (x : Option Error × Handling)
      → (x.1.report.decision ≡ d → wraps_request w h r x.1 || wraps_response w h r a x.1 ≡ true → R)
      → Acted b d R x
      → Done w h r b (pass_on w h r a x)
  unfolding pass_on
  pass_on-Done d R a (some err, s) ready x = fail-Done w h r b d R err s x
  pass_on-Done d R a (none, s) ready x =
      copy_response-Done a s (λ q. x.ready refl (ready x.same q)) x.kept (x.going refl)

  -- An answer of the handler's own, with its outcome.
  pub refused-Done :
      (answer : Reply) (report : Report) (s : Handling)
      → Kept b s
      → IsQuiet s
      → (report.outcome == "completed") ≡ false
      → Done w h r b (returned, reply answer (with_report report s))
  refused-Done answer report s k q outcome =
      let sent : s.replies ++ answer ∷ [] ≡ answer ∷ [] =
        ap (λ (rs : List Reply). rs ++ answer ∷ []) q.unanswered in
      failed-Done w h r b returned _ (record { slots = k.slots; counted = k.counted })
        (omega (arith, ap length sent)) (omega (arith, ap length sent)) outcome

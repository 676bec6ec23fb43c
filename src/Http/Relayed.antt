-- ===== src/Http/Relayed.antt =====
-- What the handler leaves from the engine's decision on.
use mathlib.Core.Option
use mathlib.Core.Path.{subst}
use faultline.Common.{
  Bool, true, false, not, ◌&&◌, ◌||◌, Option, none, some, ◌==◌, string_eq, text_eq, nat_eq, ◌≡◌,
  ◌⊎◌, refl, ap, sym, ◌∙◌, arith, if-cases, Bool-cases, inl, inr,
}
use faultline.Common.Strings.{codes}
use faultline.Config.Model.{before_upstream_request, after_upstream_headers}
use faultline.Engine.State.{Decision}
use faultline.Grpc.Metadata.{Request}
use faultline.Http.Acted.{Acted, Acts, Prepared, apply-Acts, off_phase, unanswered-Acted}
use faultline.Http.Copied.{
  and-right, told-IsQuiet, told-IsReady, told-report, told-Kept, recovered-Done, rpc_outcome-Done,
  pass_on-Done, refused-Done,
}
use faultline.Http.Done.{Done, fail-Done}
use faultline.Http.Flow.{
  Endpoint, World, Response, Answer, unreachable, answered, error_page, Handling, tick, with_report,
  record_kind, record_now,
}
use faultline.Http.Handler.{
  Served, is_body_action, wraps_request, wraps_response, told, modify_response, pass_on, recovered,
  rpc_outcome, forward, relay, act,
}
use faultline.Http.Kept.{Base, Kept, IsQuiet, IsReady, record_kind-Kept}
use faultline.Http.Sound.{IsSound}
use faultline.Http.Report.{Error, upgrade_refused, undecided, upstream, Report}

or-right : (x y : Bool) → x ≡ false → (x || y) ≡ true → y ≡ true
or-right true y e q = cc
or-right false y e q = q

module _ (w : World) (h : Endpoint) (r : Request) where
  request-phase :
      (s : Handling)
      → IsSound s.report.decision.fault
      → wraps_request w h r s ≡ true
      → off_phase s.report.decision before_upstream_request ≡ false
  request-phase s p q = ground (arith, p.request)

  response-phase :
      (a : Response) (s : Handling)
      → IsSound s.report.decision.fault
      → wraps_response w h r a s ≡ true
      → off_phase s.report.decision after_upstream_headers ≡ false
  response-phase a s p q = ground (arith, p.response)

module _ (w : World) (h : Endpoint) (r : Request) (recording : h.recording ≡ true) (b : Base) where
  -- Of a request that is served, without a panic on a missing field.
  unfoldable pub Ends : Served → Type 0
  Ends none = ⊥
  Ends (some x) = Done w h r b x

  decided-IsQuiet : (s : Handling) → IsQuiet s → IsQuiet (record_kind w h r "decision" s)
  unfolding record_kind record_now
  decided-IsQuiet s q = ground arith

  decided-report : (s : Handling) → (record_kind w h r "decision" s).report ≡ s.report
  unfolding record_kind record_now
  decided-report s = ground arith

  -- The state in which the upstream's answer arrives.
  pub record Awaits (s : Handling) : Type 0 where
    pub kept : Kept b s
    pub quiet : IsQuiet s
    pub sound : IsSound s.report.decision.fault
    pub ready : wraps_request w h r s ≡ true → IsReady s

  -- The state in which `ModifyResponse` applies a fault.
  abbrev given : Response → Handling → Handling
  given a s = record (with_report (record s.report { upstream_status = a.status }) s) {
    body = true;
  }

  AfterPhase : Response → Handling → Type 0
  AfterPhase a s = (off_phase s.report.decision after_upstream_headers ≡ false) ⊎ IsReady s

  modify-Acts :
      (a : Response) (s : Handling)
      → Awaits s
      → Acts w h r recording b s.report.decision (AfterPhase a s) (modify_response w h r a s)
  unfolding modify_response Acts AfterPhase
  modify-Acts a s p =
      let k : Kept b (given a s) = record { slots = p.kept.slots; counted = p.kept.counted } in
      let q : IsQuiet (given a s) = ground (arith, p.quiet) in
      if-cases (Acts w h r recording b s.report.decision (AfterPhase a s)) (a.status == 101) _ _
        (λ _.
          unanswered-Acted w h r recording b (AfterPhase a s) (some upgrade_refused) (given a s)
            (λ m. cc) (λ m. cc) k q)
        (λ _. apply-Acts w h r recording b after_upstream_headers (given a s) p.sound.performs k q)

  -- A body that is wrapped then has its fault reached.
  wrapped-AfterPhase :
      (a : Response) (s t : Handling)
      → Awaits s
      → t.report.decision ≡ s.report.decision
      → wraps_request w h r t || wraps_response w h r a t ≡ true
      → AfterPhase a s
  unfolding AfterPhase
  wrapped-AfterPhase a s t p same q =
      let wraps = λ (d : Decision).
        let body = d.selected && is_body_action d.fault.action in
        body && d.fault.direction == "request"
        || body
          && d.fault.direction == "response"
          && not (r.method == codes "HEAD")
          && a.has_body in
      elim (Bool-cases (wraps_request w h r s)) [
        | inl wraps ↦ inr (p.ready wraps)
        | inr bare ↦
            inl (response-phase w h r a s p.sound (or-right _ _ bare (ap wraps (sym same) ∙ q)))
      ]

  modified-Ends :
      (a : Response) (s : Handling)
      → Awaits s
      → (o : Option (Option Error × Handling))
      → Acts w h r recording b s.report.decision (AfterPhase a s) o
      → Ends (Option.map (λ m. rpc_outcome w h r a (recovered w h r (pass_on w h r a m))) o)
  unfolding Ends Acts AfterPhase
  modified-Ends a s p none e = e
  modified-Ends a s p (some x) e = rpc_outcome-Done w h r recording b a _ (
      recovered-Done w h r recording b _ (
        pass_on-Done w h r recording b s.report.decision (AfterPhase a s) a x
          (wrapped-AfterPhase a s x.1 p) e))

  forward-Ends : (answer : Answer) (s : Handling) → Awaits s → Ends (forward w h r answer s)
  unfolding forward Ends
  forward-Ends (unreachable err) s p =
      let a =
        unanswered-Acted w h r recording b ⊥ (some (upstream err)) s (λ m. cc) (λ m. cc) p.kept
          p.quiet in
      recovered-Done w h r recording b _ (fail-Done w h r b s.report.decision ⊥ (upstream err) s a)
  forward-Ends (answered a) s p = modified-Ends a s p _ (modify-Acts a s p)

  -- The upload may reach its fault before the answer arrives.
  relay-Ends :
      (s₀ : Handling) (x : Option Error × Handling)
      → IsSound s₀.report.decision.fault
      → Acted b s₀.report.decision (Prepared before_upstream_request s₀) x
      → Ends (relay w h r x)
  unfolding relay Ends
  relay-Ends s₀ (some err, s) p x = fail-Done w h r b _ _ err s x
  relay-Ends s₀ (none, s) p x =
      let tells = w.told_before && wraps_request w h r s in
      let sound : IsSound s.report.decision.fault =
        subst (λ (d : Decision). IsSound d.fault) (sym x.same) p in
      let ready = λ (q : wraps_request w h r s ≡ true). x.ready refl (
        inl (
          ap (λ (d : Decision). off_phase d before_upstream_request) (sym x.same)
          ∙ request-phase w h r s sound q)) in
      let wraps = λ (t : Report).
        t.decision.selected
        && is_body_action t.decision.fault.action
        && t.decision.fault.direction == "request" in
      let k =
        told-Kept w h r recording b tells s (λ q. ready (and-right w.told_before _ q)) x.kept in
      let q = told-IsQuiet w h r recording b tells s (x.going refl) in
      let report = told-report w h r recording b tells s in
      forward-Ends w.round_trip (tick (told w h r tells s)) (record {
        kept = record { slots = k.slots; counted = k.counted };
        quiet = record {
          open_flow = q.open_flow;
          connected = q.connected;
          unanswered = q.unanswered;
        };
        sound = subst (λ (t : Report). IsSound t.decision.fault) (sym report) sound;
        ready = λ q. told-IsReady w h r recording b tells s (ready (ap wraps (sym report) ∙ q));
      })

  acted-Ends :
      (s : Handling) (o : Option (Option Error × Handling))
      → IsSound s.report.decision.fault
      → Acts w h r recording b s.report.decision (Prepared before_upstream_request s) o
      → Ends (elim o [ none ↦ none | some m ↦ relay w h r m ])
  unfolding Ends Acts
  acted-Ends s none p a = a
  acted-Ends s (some x) p a = relay-Ends s x p a

  -- From the engine's answer on a flow that is quiet.
  pub act-Ends :
      (failed : Bool) (d : Decision) (s : Handling)
      → IsSound d.fault
      → Kept b s
      → IsQuiet s
      → Ends (act w h r (failed, d) s)
  unfolding act
  act-Ends failed d s p k q =
      let t = with_report (record s.report { decision = d }) s in
      let kept : Kept b t = record { slots = k.slots; counted = k.counted } in
      let s' = record_kind w h r "decision" t in
      let k' = record_kind-Kept w h r recording b "decision" t refl kept in
      let sound : IsSound s'.report.decision.fault =
        subst (λ (u : Report). IsSound u.decision.fault) (sym (decided-report t)) p in
      let q' =
        decided-IsQuiet t (record {
          open_flow = q.open_flow;
          connected = q.connected;
          unanswered = q.unanswered;
        }) in
      if-cases Ends failed _ _
        (λ _.
          unfold Ends in
          refused-Done w h r recording b (error_page 500 "proxy decision failed" false)
            (record s'.report { outcome = "proxy_error"; err = some undecided }) s' k' q' refl)
        (λ _.
          acted-Ends s' _ sound
            (apply-Acts w h r recording b before_upstream_request s' sound.performs k' q'))

-- ===== src/Http/Acted.antt =====
-- What `apply` leaves, for either phase.
use mathlib.Core.Option
use mathlib.Core.Path.{subst}
use faultline.Common.{
  Bool, true, false, not, ◌||◌, Option, none, some, List, [], ◌∷◌, String, ◌==◌, string_eq, ◌≡◌,
  ◌⊎◌, refl, ap, sym, arith, length, if◌then◌else◌, if-cases, Option-cases, inl, inr,
}
use faultline.Engine.State.{Decision}
use faultline.Fault.Builtin.{Execution, execute}
use faultline.Fault.Builtin.Leads.{execute-Leads, execute-applied}
use faultline.Fault.Builtin.Total.{Performs, execute_returns}
use faultline.Grpc.Metadata.{Request}
use faultline.Http.Executed.{flow-Leads}
use faultline.Http.Flow.{
  Endpoint, World, Handling, tick, with_report, record_kind, record_now, fault_applied, flow,
}
use faultline.Http.Handler.{reach, discard, is_body_action, after_execute, apply_reached, apply}
use faultline.Http.Kept.{
  Base, Kept, IsQuiet, IsBalanced, IsReady, Ended, Pending, IsQuiet-IsBalanced, record_kind-Kept,
  told-Ended, fault_applied-applied,
}
use faultline.Http.Report.{Error, flow_completed, unavailable, Report, event}

-- Behind `apply` with its error, under the decision `d`: where there is none the flow is still quiet, and where
-- the executor has completed the flow the fault was applied; `R` is what an event with its kind needs.
pub record Acted (b : Base) (d : Decision) (R : Type 0) (x : Option Error × Handling) : Type 0 where
  pub kept : Kept b x.1
  pub balanced : IsBalanced x.1
  pub same : x.1.report.decision ≡ d
  pub ready : x.0 ≡ none → R → IsReady x.1
  pub going : x.0 ≡ none → IsQuiet x.1
  pub completed : x.0 ≡ some flow_completed → (x.1.applied ≡ true) × (x.1.terminal ≡ true)

abbrev pub off_phase : Decision → String → Bool
off_phase d phase = not d.selected || not (d.fault.phase == phase)

-- An event is at hand if the phase is the fault's, or if there was one.
abbrev pub Prepared : String → Handling → Type 0
Prepared phase s = (off_phase s.report.decision phase ≡ false) ⊎ IsReady s

prepared-IsReady :
    (phase : String) (s : Handling)
    → off_phase s.report.decision phase ≡ true
    → Prepared phase s
    → IsReady s
prepared-IsReady phase s off (inl on) = absurd (ground (arith, off, on))
prepared-IsReady phase s off (inr ready) = ready

no_replies : {A : Type 0} (xs : List A) → length xs ≡ 0 → xs ≡ []
no_replies [] e = refl
no_replies (x ∷ xs) e = absurd (omega (arith, e))

balanced-IsQuiet : (s : Handling) → IsBalanced s → s.terminal ≡ false → IsQuiet s
balanced-IsQuiet s balanced open_flow = record {
  open_flow = open_flow;
  connected = ground arith;
  unanswered = no_replies s.replies (ground arith);
}

-- What `if f.terminal { return errTerminal }; return nil` says of the flow.
abbrev verdict_of : Bool → Option Error
verdict_of terminal = if terminal then some flow_completed else none

verdict :
    (t : Bool) → (verdict_of t ≡ none → t ≡ false) × (verdict_of t ≡ some flow_completed → t ≡ true)
verdict true = (λ n. cc, λ n. refl)
verdict false = (λ n. refl, λ n. cc)

module _ (w : World) (h : Endpoint) (r : Request) (recording : h.recording ≡ true) (b : Base) where
  reach-IsQuiet : (s : Handling) → IsQuiet s → IsQuiet (reach w h r s)
  unfolding reach record_kind record_now
  reach-IsQuiet s q = ground arith

  pub reach-decision : (s : Handling) → (reach w h r s).report.decision ≡ s.report.decision
  unfolding reach record_kind record_now
  reach-decision s = ground arith

  reach-Kept : (s : Handling) → Kept b s → Kept b (reach w h r s)
  unfolding reach
  reach-Kept s k =
      let t = with_report (record s.report { reached = true }) s in
      let kept : Kept b t = record { slots = k.slots; counted = k.counted } in
      let k' = record_kind-Kept w h r recording b "fault_reached" t refl kept in
      record { slots = k'.slots; counted = k'.counted }

  reach-Pending :
      (s : Handling) → Kept b s → IsQuiet s → Pending b (reach w h r s).report (reach w h r s)
  unfolding reach event
  reach-Pending s k q = (
    record {
      kept = reach-Kept s k;
      balanced = IsQuiet-IsBalanced _ (reach-IsQuiet s q);
      ready = refl;
      same = refl;
    },
    reach-IsQuiet s q,
  )

  module _ (R : Type 0) (report : Report) (x : Execution Handling)
      (e : Ended b report x.state) where
    abbrev left : Handling
    left = if x.applied then fault_applied w h r x.state else x.state

    left-Ended : Ended b report left
    left-Ended =
        if-cases (Ended b report) x.applied _ _ (λ _. told-Ended w h r recording b report x.state e)
          (λ _. e)

    left-applied : x.applied ≡ true → left.applied ≡ true
    left-applied q = rw q (fault_applied-applied w h r recording b x.state)

    after_execute-Acted :
        (x.error ≡ none → x.applied ≡ true) → Acted b report.decision R (after_execute w h r x)
    unfolding after_execute
    after_execute-Acted applied =
        let same = ap (λ (t : Report). t.decision) left-Ended.same in
        let kept = left-Ended.kept in
        elim (Option-cases x.error) [
          | inr (err, q) ↦
              rw (q, after_execute)
                (record {
                  kept = record { slots = kept.slots; counted = kept.counted };
                  balanced = left-Ended.balanced;
                  same = same;
                  ready = λ _ _. left-Ended.ready;
                  going = λ n. cc;
                  completed = λ n. cc;
                })
          | inl q ↦
              rw (q, after_execute)
                (record {
                  kept = kept;
                  balanced = left-Ended.balanced;
                  same = same;
                  ready = λ _ _. left-Ended.ready;
                  going =
                      λ n. balanced-IsQuiet left left-Ended.balanced ((verdict left.terminal).0 n);
                  completed = λ n. (left-applied (applied q), (verdict left.terminal).1 n);
                })
        ]

  -- Of a result, which is there: the executor does not panic on a missing field.
  unfoldable pub Acts : Decision → Type 0 → Option (Option Error × Handling) → Type 0
  Acts d R none = ⊥
  Acts d R (some x) = Acted b d R x

  pub unanswered-Acted :
      (R : Type 0) (err : Option Error) (s : Handling)
      → (err ≡ none → R → IsReady s)
      → (err ≡ some flow_completed → ⊥)
      → Kept b s
      → IsQuiet s
      → Acted b s.report.decision R (err, s)
  unanswered-Acted R err s ready n k q = record {
    kept = k;
    balanced = IsQuiet-IsBalanced s q;
    same = refl;
    ready = ready;
    going = λ _. q;
    completed = λ m. absurd (n m);
  }

  abbrev started : Handling → Handling
  started s = tick (discard w h r s)

  started-Pending : (s : Handling) → Pending b s.report s → Pending b s.report (started s)
  started-Pending s (e, q) = (
    record {
      kept = record { slots = e.kept.slots; counted = e.kept.counted };
      balanced = e.balanced;
      ready = e.ready;
      same = refl;
    },
    record { open_flow = q.open_flow; connected = q.connected; unanswered = q.unanswered },
  )

  executed-Acts :
      (R : Type 0) (s : Handling) (o : Option (Execution Handling))
      → execute (flow w h r) s.report.decision.fault (started s) ≡ o
      → Performs s.report.decision.fault
      → Pending b s.report s
      → Acts s.report.decision R (Option.map (after_execute w h r) o)
  unfolding Acts
  executed-Acts R s none e f p =
      let (x, q) = execute_returns (flow w h r) s.report.decision.fault (started s) f in cc
  executed-Acts R s (some x) e f p =
      let d = s.report.decision.fault in
      let ended =
        execute-Leads (flow w h r) (Pending b s.report) (Ended b s.report)
          (flow-Leads w h r recording b s.report) d (started s) e (started-Pending s p) in
      after_execute-Acted R s.report x ended (execute-applied (flow w h r) d (started s) e)

  apply_reached-Acts :
      (R : Type 0) (s : Handling)
      → Performs s.report.decision.fault
      → Pending b s.report s
      → Acts s.report.decision R (apply_reached w h r s)
  unfolding apply_reached
  apply_reached-Acts R s f (e, q) =
      let P = Acts s.report.decision R in
      let stays = λ (err : Option Error). unanswered-Acted R err s (λ _ _. e.ready) in
      if-cases P (is_body_action s.report.decision.fault.action) _ _
        (λ _. unfold Acts in (stays none (λ m. cc) e.kept q))
        (λ _.
          if-cases P (not h.executing) _ _
            (λ _. unfold Acts in (stays (some unavailable) (λ m. cc) e.kept q))
            (λ _. executed-Acts R s _ refl f (e, q)))

  pub apply-Acts :
      (phase : String) (s : Handling)
      → Performs s.report.decision.fault
      → Kept b s
      → IsQuiet s
      → Acts s.report.decision (Prepared phase s) (apply w h r phase s)
  unfolding apply
  apply-Acts phase s f k q =
      let R = Prepared phase s in
      let t = reach w h r s in
      if-cases (Acts s.report.decision R) (off_phase s.report.decision phase) _ _
        (λ off.
          unfold Acts in
          (unanswered-Acted R none s (λ _. prepared-IsReady phase s off) (λ m. cc) k q))
        (λ on.
          subst (λ (d : Decision). Acts d R (apply_reached w h r t)) (reach-decision s)
            (apply_reached-Acts R t
              (subst (λ (d : Decision). Performs d.fault) (sym (reach-decision s)) f)
              (reach-Pending s k q)))

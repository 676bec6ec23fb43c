-- ===== src/Http/Executed.antt =====
-- What the executor keeps of a flow.
use faultline.Common.{
  ◌+◌, true, not, Option, [], ◌∷◌, ◌++◌, Text, ◌==◌, text_eq, ◌≡◌, ap, arith, length, length-append,
  if-cases,
}
use faultline.Common.Int.{ℤ}
use faultline.Common.Strings.{codes}
use faultline.Fault.Builtin.{Failure}
use faultline.Fault.Builtin.Leads.{Leads}
use faultline.Grpc.Metadata.{Request}
use faultline.Http.Flow.{
  Endpoint, World, Reply, Handling, is_http2, without_body, cancel_upstream, respond,
  close_connection, end_stream, wait, flow,
}
use faultline.Http.Kept.{
  Base, IsQuiet, Ended, Pending, answered-Ended, told-Ended, fault_applied-IsQuiet,
}
use faultline.Http.Report.{Report}

module _ (w : World) (h : Endpoint) (r : Request) (recording : h.recording ≡ true) (b : Base) where
  -- One more reply on a quiet flow.
  replied : (s : Handling) (answer : Reply) → IsQuiet s → length (s.replies ++ answer ∷ []) ≡ 1
  replied s answer q =
      let e : length s.replies ≡ 0 = ap length q.unanswered in
      omega (arith, length-append s.replies (answer ∷ []), e)

  -- `Ended` of what an operation returns; shut, so that the branches of a test are found.
  Leaves : Report → Option Failure × Handling → Type 0
  Leaves report x = Ended b report x.1

  leaves :
      {report : Report} (error : Option Failure) {s : Handling}
      → Ended b report s
      → Leaves report (error, s)
  unfolding Leaves
  leaves error e = e

  respond-Leaves :
      (report : Report) (status : ℤ) (body : Text) (s : Handling)
      → Pending b report s
      → Leaves report (respond w h r status body s)
  unfolding respond
  respond-Leaves report status body s (e, q) =
      let P = Leaves report in
      let done = λ (error : Option Failure) (answer : Reply). leaves error (
        answered-Ended true s.disconnected s.closed (s.replies ++ answer ∷ []) e
          (ground (arith, replied s answer q, q.connected))) in
      if-cases P s.terminal _ _ (λ _. leaves _ e)
        (λ _.
          if-cases P (without_body status) _ _ (λ _. done _ _)
            (λ _. if-cases P (r.method == codes "HEAD") _ _ (λ _. done _ _) (λ _. done _ _)))

  close-Leaves :
      (report : Report) (s : Handling)
      → Pending b report s
      → Leaves report (close_connection w h r s)
  unfolding close_connection
  close-Leaves report s (e, q) =
      let P = Leaves report in
      let balance : length s.replies + 1 ≡ 1 = ground (arith, ap length q.unanswered) in
      if-cases P (is_http2 r) _ _ (λ _. leaves _ e)
        (λ _.
          if-cases P s.terminal _ _ (λ _. leaves _ e)
            (λ _. leaves _ (answered-Ended true true true s.replies e balance)))

  end-Leaves :
      (report : Report) (s : Handling) → Pending b report s → Leaves report (end_stream w h r s)
  unfolding end_stream
  end-Leaves report s (e, q) =
      let balance : length s.replies + 1 ≡ 1 = ground (arith, ap length q.unanswered) in
      if-cases (Leaves report) (not (is_http2 r)) _ _ (λ _. close-Leaves report s (e, q))
        (λ _. leaves _ (answered-Ended true true s.closed s.replies e balance))

  cancel-Pending :
      (report : Report) (s : Handling)
      → Pending b report s
      → Pending b report (cancel_upstream w h r s)
  unfolding cancel_upstream
  cancel-Pending report s (e, q) = (
    record {
      kept = record { slots = e.kept.slots; counted = e.kept.counted };
      balanced = e.balanced;
      ready = e.ready;
      same = e.same;
    },
    record { open_flow = q.open_flow; connected = q.connected; unanswered = q.unanswered },
  )

  wait-Pending :
      (report : Report) (d : ℤ) (s : Handling)
      → Pending b report s
      → Pending b report (wait w h r d s).1
  unfolding wait
  wait-Pending report d s (e, q) = (
    record {
      kept = record { slots = e.kept.slots; counted = e.kept.counted };
      balanced = e.balanced;
      ready = e.ready;
      same = e.same;
    },
    record { open_flow = q.open_flow; connected = q.connected; unanswered = q.unanswered },
  )

  -- The executor on this flow.
  pub flow-Leads : (report : Report) → Leads (flow w h r) (Pending b report) (Ended b report)
  unfolding Leaves
  flow-Leads report = record {
    start = λ s p. p.0;
    cancel = cancel-Pending report;
    wait = wait-Pending report;
    told = λ s p.
        (told-Ended w h r recording b report s p.0, fault_applied-IsQuiet w h r recording b s p.1);
    respond = respond-Leaves report;
    close = close-Leaves report;
    end_flow = end-Leaves report;
    told_after = told-Ended w h r recording b report;
  }

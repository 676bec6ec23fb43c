-- ===== src/Http/Admitted.antt =====
-- What a request leaves that is refused, or admitted to a slot.
use mathlib.Core.Option
use faultline.Common.{
  ℕ, ◌+◌, true, false, not, ◌&&◌, Option, none, some, String, ◌==◌, string_eq, ◌≡◌, refl, arith,
  ltb, is_nil, if-cases, Option-cases, inl, inr,
}
use faultline.Engine.Match.{Metadata}
use faultline.Grpc.Metadata.{Request}
use faultline.Grpc.Timeout.{timeout as grpc_timeout}
use faultline.Http.Flow.{Endpoint, World, Reply, rpc_error, Handling, reply}
use faultline.Http.Handler.{returned, Served, is_grpc, refuse, decide_request}
use faultline.Http.Kept.{Base, Kept, IsQuiet}
use faultline.Http.Sound.{Decides, Decides-IsSound}
use faultline.Http.Copied.{refused-Done}
use faultline.Http.Relayed.{Ends, act-Ends}
use faultline.Http.Report.{unsupported}
use faultline.Http.Serve.{
  settled, released, timeout_text, with_timeout, with_slot, overload_reply, admit, metadata,
  dispatch,
}
use faultline.Http.Settled.{Settled, settle-Settled}

-- Nothing of a fault is reported yet.
pub record Untold (s : Handling) : Type 0 where
  pub unapplied : s.applied ≡ false
  pub unreported : s.report.applied ≡ false

-- Of a request that is served, without a panic on a missing field.
unfoldable pub Settles : Base → Served → Type 0
Settles b none = ⊥
Settles b (some x) = Settled b x

module _ (w : World) (h : Endpoint) (r : Request) (recording : h.recording ≡ true) where
  refused-Settled :
      (b : Base) (answer : Reply) (kind : String) (s : Handling)
      → (kind == "completed") ≡ false
      → Kept b s
      → IsQuiet s
      → Untold s
      → Settled b (returned, reply answer (refuse kind s))
  refused-Settled b answer kind s n k q u =
      let d =
        refused-Done w h r recording b answer
          (record s.report { outcome = kind; error_kind = kind }) s k q n in
      record {
        kept = d.kept;
        one = d.one;
        answered = d.answered;
        told = ground (arith, u);
        explained = λ _ m. absurd (ground (arith, n, m));
      }

  settled-Settles :
      (b : Base) (o : Served) → Ends w h r recording b o → Settles b (Option.map (settled w h r) o)
  unfolding Ends Settles
  settled-Settles b none e = e
  settled-Settles b (some (exit, s)) e = settle-Settled w h r b exit s e

  released-Settles :
      (slots total active faults : ℕ) (o : Served)
      → Settles (record { slots = slots + 1; total = total; active = active; faults = faults }) o
      → Settles
          (record { slots = slots; total = total; active = active; faults = faults })
          (Option.map (released w h r) o)
  unfolding Settles
  released-Settles slots total active faults none e = e
  released-Settles slots total active faults (some (exit, s)) e = record {
    kept = record { slots = omega (arith, e.kept.slots); counted = e.kept.counted };
    one = e.one;
    answered = e.answered;
    told = e.told;
    explained = e.explained;
  }

  decided-Ends :
      (decides : Decides w) (b : Base) (m : Metadata) (s : Handling)
      → Kept b s
      → IsQuiet s
      → Ends w h r recording b (decide_request w h r m s)
  unfolding decide_request
  decided-Ends decides b m s k q =
      let (failed, d, e) = decides.answers m in
      let sound = Decides-IsSound decides m failed d e in
      rw (e, decide_request) (act-Ends w h r recording b failed d s sound k q)

  with_timeout-Settles :
      (decides : Decides w) (b : Base) (m : Metadata) (o : Option ℕ) (s : Handling)
      → Kept b s
      → IsQuiet s
      → Untold s
      → Settles b (with_timeout w h r m o s)
  unfolding with_timeout Settles
  with_timeout-Settles decides b m none s k q u =
      refused-Settled b (rpc_error "3" "invalid grpc-timeout") "unsupported_request" s refl k q u
  with_timeout-Settles decides b m (some t) s k q u = settled-Settles b _ (
      decided-Ends decides b m _ (record { slots = k.slots; counted = k.counted })
        (record { open_flow = q.open_flow; connected = q.connected; unanswered = q.unanswered }))

  with_slot-Settles :
      (decides : Decides w) (b : Base) (m : Metadata) (s : Handling)
      → Kept b s
      → IsQuiet s
      → Untold s
      → Settles b (with_slot w h r m s)
  unfolding with_slot
  with_slot-Settles decides b m s k q u =
      if-cases (Settles b) (is_grpc w h r && not (is_nil (timeout_text w h r))) _ _
        (λ _. with_timeout-Settles decides b m (grpc_timeout (timeout_text w h r)) s k q u)
        (λ _. settled-Settles b _ (
          decided-Ends decides b m _ (record { slots = k.slots; counted = k.counted })
            (record {
              open_flow = q.open_flow;
              connected = q.connected;
              unanswered = q.unanswered;
            })))

  admit-Settles :
      (decides : Decides w) (b : Base) (m : Metadata) (s : Handling)
      → Kept b s
      → IsQuiet s
      → Untold s
      → Settles b (admit w h r m s)
  unfolding admit
  admit-Settles decides b m s k q u =
      let b' : Base = record b { slots = b.slots + 1 } in
      if-cases (Settles b) (ltb s.in_flight h.max_inflight) _ _
        (λ _. released-Settles b.slots b.total b.active b.faults _ (
          with_slot-Settles decides b' m (record s { in_flight = s.in_flight + 1 })
            (record { slots = omega (arith, k.slots); counted = k.counted })
            (record { open_flow = q.open_flow; connected = q.connected; unanswered = q.unanswered })
            (record { unapplied = u.unapplied; unreported = u.unreported })))
        (λ _.
          unfold Settles in
          (refused-Settled b (overload_reply w h r) "proxy_overload" s refl k q u))

  pub dispatch-Settles :
      (decides : Decides w) (b : Base) (s : Handling)
      → Kept b s
      → IsQuiet s
      → Untold s
      → Settles b (dispatch w h r s)
  unfolding dispatch
  dispatch-Settles decides b s k q u =
      if-cases (Settles b) (unsupported h.protocol r) _ _
        (λ _. unfold Settles in (refused-Settled b _ "unsupported_request" s refl k q u))
        (λ _. elim (Option-cases (metadata w h r)) [
          | inl e ↦
              rw e (unfold Settles in (refused-Settled b _ "unsupported_request" s refl k q u))
          | inr (m, e) ↦ rw e (admit-Settles decides b m s k q u)
        ])

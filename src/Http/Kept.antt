-- ===== src/Http/Kept.antt =====
-- What each operation on a flow keeps: the slots, the recorder's counters of flows and of active faults, and the
-- count of what the client got.
use faultline.Common.{
  ℕ, ◌+◌, Bool, true, false, List, [], String, text_eq, ◌≡◌, ap, ◌∙◌, arith, length, if◌then◌else◌,
  if-cases, string_eq,
}
use faultline.Grpc.Metadata.{Request}
use faultline.Http.Flow.{Endpoint, World, Reply, Handling, record_now, record_kind, fault_applied}
use faultline.Http.Report.{Report, event}
use faultline.Recorder.State.{inc}
use faultline.Recorder.Tally.{Counted, neutral, neutral-Counted, applied-Counted}

-- The slots and the three counters while a request is handled.
pub record Base : Type 0 where
  pub slots : ℕ
  pub total : ℕ
  pub active : ℕ
  pub faults : ℕ

pub record Kept (b : Base) (s : Handling) : Type 0 where
  pub slots : s.in_flight ≡ b.slots
  pub counted : Counted s.recorder b.total b.active (if s.applied then inc b.faults else b.faults)

-- Nothing is written yet, and the client is connected.
pub record IsQuiet (s : Handling) : Type 0 where
  pub open_flow : s.terminal ≡ false
  pub connected : s.disconnected ≡ false
  pub unanswered : s.replies ≡ []

-- The flow is answered once or disconnected if it is terminal, and else neither.
abbrev pub IsBalanced : Handling → Type 0
IsBalanced s = length s.replies + (if s.disconnected then 1 else 0) ≡ (if s.terminal then 1 else 0)

-- The event to be recorded for an applied fault has its kind.
abbrev pub IsReady : Handling → Type 0
IsReady s = s.applied_event.kind ≡ "fault_applied"

pub IsQuiet-IsBalanced : (s : Handling) → IsQuiet s → IsBalanced s
IsQuiet-IsBalanced s q = ground (arith, q.open_flow, q.connected, ap length q.unanswered)

-- What holds behind the executor, and before it with a quiet flow.
pub record Ended (b : Base) (report : Report) (s : Handling) : Type 0 where
  pub kept : Kept b s
  pub balanced : IsBalanced s
  pub ready : IsReady s
  pub same : s.report ≡ report

abbrev pub Pending : Base → Report → Handling → Type 0
Pending b report s = Ended b report s × IsQuiet s

-- Only the flow's own fields change.
pub answered-Ended :
    {report : Report} {b : Base} {s : Handling} (terminal disconnected closed : Bool)
    (replies : List Reply)
    → Ended b report s
    → length replies + (if disconnected then 1 else 0) ≡ (if terminal then 1 else 0)
    → Ended b report (record s {
      terminal = terminal;
      disconnected = disconnected;
      closed = closed;
      replies = replies;
    })
answered-Ended terminal disconnected closed replies e balance = record {
  kept = record { slots = e.kept.slots; counted = e.kept.counted };
  balanced = balance;
  ready = e.ready;
  same = e.same;
}

module _ (w : World) (h : Endpoint) (r : Request) (recording : h.recording ≡ true) (b : Base) where
  pub record_kind-Kept :
      (kind : String) (s : Handling)
      → neutral kind ≡ true
      → Kept b s
      → Kept b (record_kind w h r kind s)
  unfolding record_kind record_now event
  record_kind-Kept kind s n k =
      rw recording (record { slots = k.slots; counted = neutral-Counted _ s.recorder n k.counted })

  unapplied :
      (s : Handling) → s.applied ≡ false → Kept b s → Counted s.recorder b.total b.active b.faults
  unapplied s q k = record {
    flows = k.counted.flows;
    running = k.counted.running;
    injected = ground (arith, q, k.counted.injected);
  }

  pub fault_applied-Kept : (s : Handling) → IsReady s → Kept b s → Kept b (fault_applied w h r s)
  unfolding fault_applied record_now
  fault_applied-Kept s ready k =
      if-cases (Kept b) s.applied _ _ (λ _. k)
        (λ q. rw recording (record {
          slots = k.slots;
          counted = applied-Counted _ s.recorder (unapplied s q k) ready;
        }))

  -- `FaultApplied` changes nothing else.
  pub fault_applied-applied : (s : Handling) → (fault_applied w h r s).applied ≡ true
  unfolding fault_applied record_now
  fault_applied-applied s = ground arith

  pub fault_applied-report : (s : Handling) → (fault_applied w h r s).report ≡ s.report
  unfolding fault_applied record_now
  fault_applied-report s = ground arith

  pub fault_applied-IsReady : (s : Handling) → IsReady s → IsReady (fault_applied w h r s)
  unfolding fault_applied record_now
  fault_applied-IsReady s q = ground arith

  pub fault_applied-IsQuiet : (s : Handling) → IsQuiet s → IsQuiet (fault_applied w h r s)
  unfolding fault_applied record_now
  fault_applied-IsQuiet s q = ground arith

  pub fault_applied-IsBalanced : (s : Handling) → IsBalanced s → IsBalanced (fault_applied w h r s)
  unfolding fault_applied record_now
  fault_applied-IsBalanced s q = ground arith

  pub told-Ended :
      (report : Report) (s : Handling) → Ended b report s → Ended b report (fault_applied w h r s)
  told-Ended report s e = record {
    kept = fault_applied-Kept s e.ready e.kept;
    balanced = fault_applied-IsBalanced s e.balanced;
    ready = fault_applied-IsReady s e.ready;
    same = fault_applied-report s ∙ e.same;
  }

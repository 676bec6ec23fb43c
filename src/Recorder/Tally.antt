-- ===== src/Recorder/Tally.antt =====
-- What one call of `Record` does to the counters of flows and of active faults, by the kind of its event.
use faultline.Common.{
  ℕ, ◌^◌, ◌<◌, Bool, true, false, not, ◌&&◌, String, ◌==◌, ==_of, string_eq, ◌≡◌, refl, arith,
  if◌then◌else◌,
}
use faultline.Recorder.State.{Event, Recorder, inc, dec, count_event, enqueue, record_event}

-- The three counters behind an event.
pub record Counted (r : Recorder) (total active faults : ℕ) : Type 0 where
  pub flows : r.counts.total ≡ total
  pub running : r.counts.active ≡ active
  pub injected : r.counts.active_faults ≡ faults

-- A kind of event that none of the three counts.
abbrev pub neutral : String → Bool
neutral kind =
    not (kind == "flow_started") && not (kind == "fault_applied") && not (kind == "flow_finished")

module _ (e : Event) (r : Recorder) {total active faults : ℕ} where
  -- The queue does not matter to the three.
  enqueued :
      (count_event e r.counts).total ≡ total
      → (count_event e r.counts).active ≡ active
      → (count_event e r.counts).active_faults ≡ faults
      → Counted (record_event e r) total active faults
  unfolding record_event enqueue
  enqueued h k m = record {
    flows = ground (arith, h);
    running = ground (arith, k);
    injected = ground (arith, m);
  }

  pub neutral-Counted :
      neutral e.kind ≡ true
      → Counted r total active faults
      → Counted (record_event e r) total active faults
  unfolding count_event
  neutral-Counted h c = enqueued (ground arith) (ground arith) (ground arith)

module _ (e : Event) (r : Recorder) {total active faults : ℕ}
    (c : Counted r total active faults) where
  pub started-Counted :
      e.kind ≡ "flow_started" → Counted (record_event e r) (inc total) (inc active) faults
  unfolding count_event
  started-Counted h =
      let q = ==_of "flow_started" e.kind h in
      enqueued e r (ground (arith, q "flow_started")) (ground (arith, q "flow_started"))
        (ground (arith, q "flow_started"))

  pub applied-Counted :
      e.kind ≡ "fault_applied" → Counted (record_event e r) total active (inc faults)
  unfolding count_event
  applied-Counted h =
      let q = ==_of "fault_applied" e.kind h in
      enqueued e r (ground (arith, q "flow_started", q "decision", q "fault_applied"))
        (ground (arith, q "flow_started", q "decision", q "fault_applied"))
        (ground (arith, q "flow_started", q "decision", q "fault_applied"))

  pub finished-Counted :
      e.kind ≡ "flow_finished"
      → Counted (record_event e r) total (dec active) (if e.applied then dec faults else faults)
  unfolding count_event
  finished-Counted h =
      let q = ==_of "flow_finished" e.kind h in
      enqueued e r (ground (arith, q "flow_started", q "decision", q "fault_applied"))
        (ground (arith, q "flow_started", q "decision", q "fault_applied", q "flow_finished"))
        (ground (arith, q "flow_started", q "decision", q "fault_applied", q "flow_finished"))

pub dec-inc : (n : ℕ) → n < 2 ^ 64 → dec (inc n) ≡ n
dec-inc n h = omega arith

-- The counter of active faults behind the last event.
pub faults_back :
    (told applied : Bool) (faults : ℕ)
    → told ≡ applied
    → faults < 2 ^ 64
    → (let open_faults = if applied then inc faults else faults in
        if told then dec open_faults else open_faults)
      ≡ faults
faults_back true true faults e n = dec-inc faults n
faults_back false false faults e n = refl
faults_back true false faults e n = cc
faults_back false true faults e n = cc

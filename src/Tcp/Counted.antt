-- ===== src/Tcp/Counted.antt =====
-- internal/proxy/tcp/server.go: what a connection leaves in the recorder's counters.
use faultline.Common.{
  ℕ, zero, suc, ◌≤◌, ◌<◌, ◌^◌, Bool, true, false, not, ◌&&◌, ◌||◌, List, [], ◌∷◌, String, Text,
  ◌==◌, string_eq, nat_eq, leb, ◌≡◌, ◌∙◌, refl, arith, if◌then◌else◌, if-cases, Option-cases, inl,
  inr,
}
use faultline.Config.Model.{Fault}
use faultline.Recorder.State.{Recorder, inc, dec}
use faultline.Recorder.Tally.{
  Counted, neutral-Counted, started-Counted, applied-Counted, finished-Counted, dec-inc,
  faults_back,
}
use faultline.Tcp.Connection.{
  Move, timer, hold_timer, sent, Peers, Connection, wait_before_dial, applied_event, move,
  run_fault, forwarded_fault, record_tcp, started_event, decision_event, tell, dial, connect,
  finish, serve,
}
use faultline.Tcp.Fault.{
  FaultState, new_fault, activate, start, stop, timer_fires, hold_timer_fires, reached_bytes,
  is_set, bytes_of, triggers,
}

-- The observer is told at most once, and not before the fault was activated.
record IsOnce (s : FaultState) : Type 0 where
  once : s.told ≤ 1
  before : s.done ≡ false → s.told ≡ 0

activate-IsOnce : (s : FaultState) → IsOnce s → IsOnce (activate s)
unfolding activate
activate-IsOnce s o = ground arith

start-IsOnce : (s : FaultState) → IsOnce s → IsOnce (start s)
unfolding start
start-IsOnce s o =
    if-cases IsOnce (is_set s.fault.after_duration) _ _
      (λ _. record { once = o.once; before = o.before })
      (λ _.
        if-cases IsOnce (bytes_of s.fault.after_bytes == 0) _ _ (λ _. activate-IsOnce s o) (λ _. o))

move-IsOnce : (m : Move) (s : FaultState) → IsOnce s → IsOnce (move m s)
unfolding move timer_fires hold_timer_fires reached_bytes
move-IsOnce timer s o = if-cases IsOnce s.timer _ _ (λ _. activate-IsOnce s o) (λ _. o)
move-IsOnce hold_timer s o = ground arith
move-IsOnce (sent direction count) s o =
    if-cases IsOnce (triggers s direction && leb (bytes_of s.fault.after_bytes) count) _ _
      (λ _. activate-IsOnce s o) (λ _. o)

run_fault-IsOnce : (ms : List Move) (s : FaultState) → IsOnce s → IsOnce (run_fault ms s)
unfolding run_fault
run_fault-IsOnce [] s o = o
run_fault-IsOnce (m ∷ ms) s o = run_fault-IsOnce ms (move m s) (move-IsOnce m s o)

told_once : (ms : List Move) (f : Fault) → (forwarded_fault ms f).told ≤ 1
unfolding stop
told_once ms f =
    let fresh : IsOnce (new_fault f) = record { once = omega arith; before = λ _. refl } in
    (run_fault-IsOnce ms _ (start-IsOnce _ fresh)).once

module _ (p : Peers) (proxy_id : Text) (total active faults : ℕ) where
  -- While the connection runs.
  Runs : Connection → Type 0
  Runs c = Counted c.recorder total active (if c.applied then inc faults else faults)

  -- The outcome and the bytes do not matter to the counters.
  same-Runs :
      (c : Connection) (outcome : String) (client_bytes upstream_bytes : ℕ)
      → Runs c
      → Runs (record c {
        outcome = outcome;
        client_bytes = client_bytes;
        upstream_bytes = upstream_bytes;
      })
  unfolding Runs
  same-Runs c outcome client_bytes upstream_bytes r = r

  tell-Runs :
      (n : ℕ) (c : Connection) → n ≤ 1 → c.applied ≡ false → Runs c → Runs (tell p proxy_id n c)
  unfolding tell record_tcp applied_event Runs
  tell-Runs zero c few quiet r = r
  tell-Runs (suc zero) c few quiet r =
      let before : Counted c.recorder total active faults = record {
        flows = r.flows;
        running = r.running;
        injected = ground (arith, quiet, r.injected);
      } in
      applied-Counted _ c.recorder before refl
  tell-Runs (suc (suc n)) c few quiet r = absurd (omega (arith, few))

  dial-Runs :
      (delayed : Bool) (c : Connection)
      → (delayed ≡ false → c.applied ≡ false)
      → Runs c
      → Runs (dial p proxy_id delayed c)
  unfolding dial
  dial-Runs delayed c quiet r =
      let fault = forwarded_fault p.moves p.decision.fault in
      let on = record c { client_bytes = p.client_bytes; upstream_bytes = p.upstream_bytes } in
      let forwarded = same-Runs c c.outcome p.client_bytes p.upstream_bytes r in
      let told = λ (q : (not p.decision.selected || delayed) ≡ false).
        tell-Runs fault.told on (told_once p.moves p.decision.fault) (quiet (ground (arith, q)))
          forwarded in
      if-cases Runs (not p.dialled) _ _ (λ _. same-Runs c "dial_error" _ _ r)
        (λ _.
          if-cases Runs (not p.decision.selected || delayed) _ _ (λ _. forwarded)
            (λ q.
              if-cases Runs fault.active _ _ (λ _. same-Runs _ p.decision.fault.action _ _ (told q))
                (λ _. told q)))

  connect-Runs : (c : Connection) → c.applied ≡ false → Runs c → Runs (connect p proxy_id c)
  unfolding connect
  connect-Runs c quiet r =
      if-cases Runs (not (p.decision.selected && p.decision.fault.action == "delay_connect")) _ _
        (λ _. dial-Runs false c (λ _. quiet) r)
        (λ _. elim (Option-cases (wait_before_dial p.canceled [] p.reads)) [
          | inl e ↦ rw e (same-Runs c "client_closed" _ _ r)
          | inr (prefetched, e) ↦
              rw e (dial-Runs true _ (λ q. cc) (tell-Runs 1 c (omega arith) quiet r))
        ])

  finish-Counted :
      (c : Connection)
      → Runs c
      → faults < 2 ^ 64
      → Counted (finish p proxy_id c) total (dec active) faults
  unfolding finish record_tcp Runs
  finish-Counted c r n =
      let f = finished-Counted _ c.recorder r refl in
      record {
        flows = f.flows;
        running = f.running;
        injected = f.injected ∙ faults_back c.applied c.applied faults refl n;
      }

-- A TCP connection, whatever its client, its upstream and the steps of its fault do, leaves the recorder with one flow
-- more in total, and with as many running flows and active faults as before, where these are fewer than 2^64.
pub serve-Counted :
    (p : Peers) (proxy_id : Text) (r : Recorder)
    → r.counts.active < 2 ^ 64
    → r.counts.active_faults < 2 ^ 64
    → Counted (serve p proxy_id r) (inc r.counts.total) r.counts.active r.counts.active_faults
unfolding serve record_tcp started_event decision_event Runs
serve-Counted p proxy_id r m n =
    let t = inc r.counts.total in
    let a = inc r.counts.active in
    let f = r.counts.active_faults in
    let same : Counted r r.counts.total r.counts.active f = record {
      flows = refl;
      running = refl;
      injected = refl;
    } in
    let started = started-Counted _ r same refl in
    let decided = neutral-Counted _ _ refl started in
    let c = finish-Counted p proxy_id t a f _ (connect-Runs p proxy_id t a f _ refl decided) n in
    record {
      flows = c.flows;
      running = c.running ∙ dec-inc r.counts.active m;
      injected = c.injected;
    }

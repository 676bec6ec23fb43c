-- ===== src/Examples/Tcp.antt =====
-- A hold of what the client sends behind three bytes, on its own and in a connection.
use faultline.Common.{◌≤◌, ◌<◌, ◌^◌, true, false, none, some, [], ◌∷◌, ◌≡◌, refl, length, arith}
use faultline.Common.Strings.{codes}
use faultline.Common.Int.{pos}
use faultline.Config.Model.{Fault, tcp_on_transfer}
use faultline.Tcp.Pump.{Write, Read, pump}
use faultline.Tcp.Hold.{started, pump_hold}
use faultline.Engine.State.{Decision}
use faultline.Recorder.State.{inc, new}
use faultline.Recorder.Tally.{Counted}
use faultline.Tcp.Connection.{Peers, sent, hold_timer, serve}
use faultline.Tcp.Counted.{serve-Counted}
use faultline.Examples.Config.{answer, second}
use faultline.Examples.Control.{initial}

abbrev hold : Fault
hold = record answer {
  phase = tcp_on_transfer;
  action = "hold";
  status = none;
  max_duration = some (pos 1000);
  direction = "client_to_upstream";
  after_bytes = some (pos 3);
  trigger_direction = "client_to_upstream";
}

abbrev write : Write
write = record { activated = false; waited = true; room = 2; failed = false }

abbrev read : Read
read = record {
  bytes = codes "hello";
  failed = false;
  canceled = false;
  activated_before = false;
  activated_behind = false;
  writes = write ∷ write ∷ write ∷ [];
}

pump_hold_example :
    (length (pump "client_to_upstream" (read ∷ []) (started hold)).delivered ≤ 3)
    × (length (pump "client_to_upstream" (read ∷ []) (started hold)).delivered ≡ 3
        → (pump "client_to_upstream" (read ∷ []) (started hold)).state.active ≡ true)
pump_hold_example =
    pump_hold "client_to_upstream" 3 hold (read ∷ []) (omega arith)
      (record { hold = refl; own = refl; counts = refl; bytes = refl; no_timer = refl })
      ((refl, refl, (refl, (refl, (refl, tt)))), tt)

abbrev held_decision : Decision
held_decision = record {
  proxy_id = codes "db";
  rule_id = codes "r1";
  eligible_sequence = 1;
  selected = true;
  selector = second;
  fault = hold;
}

-- The fault is reached while bytes are sent, and its hold ends by the timer.
abbrev held : Peers
held = record {
  info = initial;
  flow_id = codes "F";
  started_at = 1;
  finished_at = 2;
  decision = held_decision;
  reads = [];
  canceled = false;
  dialled = true;
  moves = sent "client_to_upstream" 5 ∷ hold_timer ∷ sent "client_to_upstream" 9 ∷ [];
  client_bytes = 3;
  upstream_bytes = 0;
  encoded = λ e. e.flow_id;
}

few : (new 4).counts.active < 2 ^ 64
unfolding new
few = omega arith

few_faults : (new 4).counts.active_faults < 2 ^ 64
unfolding new
few_faults = omega arith

serve-Counted_example :
    Counted
      (serve held (codes "db") (new 4))
      (inc (new 4).counts.total)
      (new 4).counts.active
      (new 4).counts.active_faults
serve-Counted_example = serve-Counted held (codes "db") (new 4) few few_faults

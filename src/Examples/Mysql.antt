-- ===== src/Examples/Mysql.antt =====
-- A ping, and a commit whose acknowledgement is lost.
use faultline.Common.{ℕ, true, false, some, List, [], ◌∷◌, ◌≡◌, refl}
use faultline.Common.Bytes.{le_bytes}
use faultline.Common.Strings.{codes}
use faultline.Engine.State.{Decision, no_decision}
use faultline.Mysql.Wire.{Packet, received, read_packet, write_packet}
use faultline.Mysql.RoundTrip.{read_packet-write_packet}
use faultline.Mysql.Session.{Command, Session}
use faultline.Mysql.Lost.{query, ok_packet}
use faultline.Examples.Config.{answer}

abbrev ping : Packet
ping = record { seq = 0; body = 14 ∷ [] }

ping_written : write_packet ping ≡ some (1 ∷ 0 ∷ 0 ∷ 0 ∷ 14 ∷ [])
unfolding write_packet le_bytes
ping_written = refl

read_packet-write_packet_example :
    read_packet (1 ∷ 0 ∷ 0 ∷ 0 ∷ 14 ∷ 7 ∷ []) ≡ received ping (7 ∷ [])
read_packet-write_packet_example =
    read_packet-write_packet ping (1 ∷ 0 ∷ 0 ∷ 0 ∷ 14 ∷ []) (7 ∷ []) ping_written

abbrev closing : Decision
closing = record (no_decision (codes "db")) {
  selected = true;
  fault = record answer { action = "close_connection" };
}

abbrev spelled : List ℕ
spelled = codes " Commit ;"

abbrev command : Command
command = record { packet = query spelled; decision = closing; canceled = false }

abbrev session : Session
session = record {
  back = ok_packet 0 0 2 0 0 0 ∷ [];
  to_client = [];
  to_upstream = [];
  client_room = 9;
  upstream_room = 9;
  seq = 2;
  transaction = true;
  statements = [];
  outcome = "forwarded";
  events = [];
}

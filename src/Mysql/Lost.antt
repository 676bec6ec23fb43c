-- ===== src/Mysql/Lost.antt =====
-- internal/proxy/mysql/session.go: a COMMIT whose acknowledgement the fault withholds, from the client's packet to the end.
use faultline.Common.{
  ℕ, ◌≡◌, Bool, true, false, some, List, [], ◌∷◌, ◌++◌, ◌⊎◌, Text, nat_eq, string_eq,
}
use faultline.Common.Int.{ℤ}
use faultline.Config.Model.{Fault}
use faultline.Engine.State.{Decision}
use faultline.Mysql.Wire.{Packet}
use faultline.Mysql.Session.{Command, Session}

-- What of a fault withholds an answer: it closes the connection, it holds the answer for some time, or it delays it
-- for longer than the context lasts.
abbrev pub Withholds : Fault → Bool → Type 0
Withholds f canceled =
    (f.action ≡ "close_connection")
    ⊎ ((f.action ≡ "hold_response") × (d : ℤ) × (f.max_duration ≡ some d))
    ⊎ ((f.action ≡ "delay") × (canceled ≡ true) × (d : ℤ) × (f.duration ≡ some d))

-- A query, and an OK packet: two numbers, the status, the warnings and no text.
abbrev pub query : Text → Packet
query sql = record { seq = 0; body = 3 ∷ sql }

abbrev pub ok_packet : ℕ → ℕ → ℕ → ℕ → ℕ → ℕ → Packet
ok_packet affected id low high v w = record {
  seq = 1;
  body = 0 ∷ affected ∷ id ∷ low ∷ high ∷ v ∷ w ∷ [];
}

module _ (decision : Decision) (canceled : Bool) (sql : Text) (affected id low high v w : ℕ)
    (back : List Packet) (room : ℕ) where
  abbrev asking : Command
  asking = record { packet = query sql; decision = decision; canceled = canceled }

  abbrev confirming : Packet
  confirming = ok_packet affected id low high v w

  -- What the answer makes of a session.
  abbrev withheld : Session → Session
  withheld s = record s {
    transaction = false;
    outcome = "commit_ack_lost";
    events = (s.events ++ "decision" ∷ []) ++ "fault_applied" ∷ [];
  }

  -- What the server is sent and what is read of it.
  abbrev begun : Session → Session
  begun s = record s {
    back = back;
    to_upstream = s.to_upstream ++ query sql ∷ [];
    upstream_room = room;
    seq = 2;
  }

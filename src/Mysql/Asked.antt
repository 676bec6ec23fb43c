-- ===== src/Mysql/Asked.antt =====
-- internal/proxy/mysql/session.go: when a round of the exchange asks the engine for a fault.
use faultline.Common.{
  ℕ, true, false, some, List, [], ◌∷◌, ◌++◌, String, ◌≡◌, Text, nat_eq, string_eq, ◌⊎◌, take,
}
use faultline.Common.Bytes.{bit, from_le_bytes}
use faultline.Mysql.Wire.{Packet, commit, ok_status, classify}
use faultline.Mysql.Session.{Command, Session, Done, stop, panicked, find_statement}
use faultline.Mysql.Confirmed.{Asks}

-- The server confirms a commit: the client sends the text of one, or has one executed that it prepared, in an open
-- transaction, and the status of the first packet that the server answers says that the transaction is over.
pub record IsConfirmed (c : Command) (s : Session) : Type 0 where
  pub commits :
      ((sql : Text) × (c.packet.body ≡ 3 ∷ sql) × (classify sql ≡ commit))
      ⊎ ((rest : Text) × (c.packet.body ≡ 23 ∷ rest)
          × (find_statement (from_le_bytes (take 4 rest)) s.statements ≡ some commit))
  pub was_open : s.transaction ≡ true
  pub first : Packet
  pub rest : List Packet
  pub next : s.back ≡ first ∷ rest
  pub status : ℕ
  pub answered : ok_status first.body ≡ some status
  pub over : bit 0 status ≡ false

-- A flow's events with its finish, or without it if there was a panic.
abbrev pub Finishes : List String → Done (Unit {0}) × Session → Type 0
Finishes flow r =
    (r.1.events ≡ flow ++ "flow_finished" ∷ []) ⊎ ((r.0 ≡ stop panicked) × (r.1.events ≡ flow))

-- The events behind a round: those before it, or those of a flow in which `C` holds if the engine is asked.
abbrev pub Serves : Type 0 → List String → Done (Unit {0}) × Session → Type 0
Serves C before r =
    (r.1.events ≡ before)
    ⊎ ((flow : List String) × Finishes flow r × Asks C (before ++ "flow_started" ∷ []) flow)

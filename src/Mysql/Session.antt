-- ===== src/Mysql/Session.antt =====
-- internal/proxy/mysql/session.go: `cycle`, `exchange`, `commit` and `apply`. The packets that the two pumps
-- deliver are lists, the connections take a number of packets before a write fails, and the two outputs are the
-- packets written so far. A canceled context is a list that ends. Deadlines and the clock are not modelled.
use faultline.Common.{
  ℕ, zero, suc, ◌+◌, ◌%◌, Bool, true, false, not, ◌&&◌, ◌||◌, Option, none, some, List, [], ◌∷◌,
  ◌++◌, String, ◌==◌, nat_eq, string_eq, length, ltb, if◌then◌else◌,
}
use faultline.Common.Bytes.{bit}
use faultline.Engine.State.{Decision}
use faultline.Mysql.Wire.{Packet, bad_size, lenenc, eof_status, Statement}

-- A packet of the client, with what the engine decides if a commit is confirmed behind it, and whether the
-- context ends before the fault's timer.
pub record Command : Type 0 where
  pub packet : Packet
  pub decision : Decision
  pub canceled : Bool

pub record Session : Type 0 where
  pub back : List Packet
  pub to_client : List Packet
  pub to_upstream : List Packet
  pub client_room : ℕ
  pub upstream_room : ℕ
  pub seq : ℕ
  pub transaction : Bool
  pub statements : List (ℕ × Statement)
  pub outcome : String
  pub events : List String

-- Why a session ends: an error of the protocol, a connection that is over, the client's quit, a command that is
-- rejected, and a panic.
pub data Stop : Type 0 where
  protocol_error closed quit rejected panicked : Stop

pub data Done (A : Type 0) : Type 0 where
  done : A → Done A
  stop : Stop → Done A

abbrev pub Step : Type 0 → Type 0
Step A = Session → Done A × Session

abbrev pub after : {A B : Type 0} → (A → Step B) → Done A × Session → Done B × Session
after next (stop e, s) = (stop e, s)
after next (done a, s) = next a s

infixl 5 ◌>>=◌ ◌>>◌
abbrev pub ◌>>=◌ : {A B : Type 0} → Step A → (A → Step B) → Step B
(first >>= next) s = after next (first s)

abbrev pub ◌>>◌ : {B : Type 0} → Step (Unit {0}) → Step B → Step B
first >> next = first >>= (λ u. next)

abbrev pub return : {A : Type 0} → A → Step A
return a s = (done a, s)

abbrev pub fail : {A : Type 0} → Stop → Step A
fail e s = (stop e, s)

abbrev pub require : Bool → Step (Unit {0})
require true s = (done tt, s)
require false s = (stop protocol_error, s)

abbrev pub update : (Session → Session) → Step (Unit {0})
update f s = (done tt, f s)

abbrev pub is_some : Option ℕ → Bool
is_some none = false
is_some (some n) = true

-- `x.read()`: the next packet of the server, with the number that is expected.
unfoldable pub read : Step Packet
read s = elim s.back [
  | [] ↦ (stop closed, s)
  | p ∷ rest ↦
      if not (p.seq == s.seq)
      then (stop protocol_error, record s { back = rest })
      else (done p, record s { back = rest; seq = (s.seq + 1) % 256 })
]

-- `writePacket` to the client and to the server.
unfoldable pub forward : Packet → Step (Unit {0})
forward p s = if bad_size (length p.body) then (stop protocol_error, s) else elim s.client_room [
  | zero ↦ (stop closed, s)
  | suc room ↦ (done tt, record s { client_room = room; to_client = s.to_client ++ p ∷ [] })
]

unfoldable pub write_upstream : Packet → Step (Unit {0})
write_upstream p s =
    if bad_size (length p.body) then (stop protocol_error, s) else elim s.upstream_room [
      | zero ↦ (stop closed, s)
      | suc room ↦
          (done tt, record s { upstream_room = room; to_upstream = s.to_upstream ++ p ∷ [] })
    ]

-- `body[0]`, which panics on an empty body.
abbrev pub first_byte : Packet → Step ℕ
first_byte p s = elim p.body [ [] ↦ (stop panicked, s) | b ∷ bs ↦ (done b, s) ]

unfoldable pub each_definition : ℕ → Step (Unit {0})
each_definition zero = return tt
each_definition (suc n) = do
  p ← read
  b ← first_byte p
  require (not (b == 255))
  forward p
  each_definition n

unfoldable pub definitions_end : Step (Unit {0})
definitions_end = do p ← read; require (is_some (eof_status p.body false)); forward p

unfoldable pub definitions : Bool → ℕ → Step (Unit {0})
definitions modern n = do
  require (not (ltb 4096 n))
  each_definition n
  if ltb 0 n && not modern then definitions_end else return tt

-- What the rows of a result end with: the status, whether it is no error, and the packet that is still to be
-- forwarded.
abbrev pub Ending : Type 0
Ending = ℕ × Bool × Packet

unfoldable pub row_ending : ℕ → Packet → Option ℕ → Option (Done Ending)
row_ending b p none = if b == 255 then some (done (0, false, p)) else none
row_ending b p (some flags) =
    if b == 255
    then some (done (0, false, p))
    else some (if bit 3 flags then stop protocol_error else done (flags, true, p))

-- The loop of `result`, on fuel: each round takes a packet of the server.
unfoldable pub rows : Bool → ℕ → Step Ending
rows modern zero = fail closed
rows modern (suc fuel) = do
  p ← read
  b ← first_byte p
  elim (row_ending b p (eof_status p.body modern)) [
    | some ending ↦ λ s. (ending, s)
    | none ↦ (do forward p; rows modern fuel)
  ]

unfoldable pub columns : Option (ℕ × ℕ) → Step ℕ
columns none = fail protocol_error
columns (some (n, width)) = if n == 0 || ltb 4096 n then fail protocol_error else return n

unfoldable pub result : Bool → Packet → Step Ending
result modern first = do
  n ← columns (lenenc first.body)
  forward first
  definitions modern n
  λ s. rows modern (length s.back + 1) s

-- Behind `result`: the transaction is over with an error or a status that says so.
unfoldable pub settle : Done Ending × Session → Done (Unit {0}) × Session
settle (stop e, s) = (stop e, record s { transaction = false })
settle (done (status, ok, last), s) =
    forward last (if not ok || not (bit 0 status) then record s { transaction = false } else s)

unfoldable pub find_statement : ℕ → List (ℕ × Statement) → Option Statement
find_statement id [] = none
find_statement id ((k, v) ∷ rest) = if k == id then some v else find_statement id rest

unfoldable pub delete_statement : ℕ → List (ℕ × Statement) → List (ℕ × Statement)
delete_statement id [] = []
delete_statement id ((k, v) ∷ rest) =
    let left = delete_statement id rest in if k == id then left else (k, v) ∷ left

abbrev pub is_known : Option Statement → Bool
is_known none = false
is_known (some v) = true

-- ===== src/Mysql/RoundTrip.antt =====
-- internal/proxy/mysql/wire.go: a packet that is written is read again.
use faultline.Common.{
  ℕ, ◌/◌, ◌%◌, false, some, [], ◌∷◌, ◌++◌, Text, ◌≡◌, arith, length, length-append,
  take-length-append, drop-length-append, nat_eq, Bool-cases, inl, inr,
}
use faultline.Common.Bytes.{le_bytes, from_le_bytes}
use faultline.Mysql.Wire.{Packet, received, bad_size, read_body, read_packet, write_packet}

header_size :
    (n : ℕ)
    → bad_size n ≡ false
    → from_le_bytes (n % 256 ∷ n / 256 % 256 ∷ n / 256 / 256 % 256 ∷ []) ≡ n
unfolding from_le_bytes
header_size n h = ground arith

read_body-append :
    (p : Packet) (rest : Text)
    → bad_size (length p.body) ≡ false
    → read_body (length p.body) p.seq (p.body ++ rest) ≡ received p rest
unfolding read_body
read_body-append p rest h =
    let taken = take-length-append p.body rest in
    let left = drop-length-append p.body rest in
    ground (arith, h, length-append p.body rest, taken, left)

-- A packet that `writePacket` writes is what `readPacket` reads from those bytes, whatever bytes follow, and it
-- leaves the bytes that follow.
pub read_packet-write_packet :
    (p : Packet) (bytes rest : Text)
    → write_packet p ≡ some bytes
    → read_packet (bytes ++ rest) ≡ received p rest
unfolding write_packet read_packet le_bytes
read_packet-write_packet p bytes rest h = elim (Bool-cases (bad_size (length p.body))) [
  | inl bad ↦ absurd (ground (arith, bad, h))
  | inr good ↦
      let made : bytes ≡ le_bytes 3 (length p.body) ++ (p.seq ∷ p.body) = ground (arith, good, h) in
      rw made (rw (header_size (length p.body) good) (read_body-append p rest good))
]

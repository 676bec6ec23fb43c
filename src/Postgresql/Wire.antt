-- ===== src/Postgresql/Wire.antt =====
-- internal/proxy/postgresql/wire.go: packets and frames as bytes. The bytes that a connection still delivers are
-- a list, and its end is an error of the read.
use faultline.Common.{
  ℕ, ◌+◌, ◌-◌, ◌*◌, ◌/◌, ◌%◌, ◌^◌, ◌≤◌, ◌<◌, ◌||◌, [], ◌∷◌, ◌++◌, Text, ◌≡◌, refl, arith, length,
  length-append, take-length-append, drop-length-append, take, drop, ltb, if◌then◌else◌,
}

abbrev pub max_frame : ℕ
max_frame = 1048576

pub record Frame : Type 0 where
  pub kind : ℕ
  pub body : Text

pub data Incoming (A : Type 0) : Type 0 where
  received : A → Text → Incoming A
  ended malformed : Incoming A

-- `binary.BigEndian.AppendUint32` and `Uint32`.
unfoldable pub be_bytes : ℕ → Text
be_bytes n = n / 16777216 % 256 ∷ n / 65536 % 256 ∷ n / 256 % 256 ∷ n % 256 ∷ []

unfoldable pub from_be : ℕ → ℕ → ℕ → ℕ → ℕ
from_be a b c d = 16777216 * a + 65536 * b + 256 * c + d

unfoldable pub read_body : ℕ → ℕ → Text → Incoming Text
read_body limit n rest =
    if ltb n 4 || ltb limit n
    then malformed
    else if ltb (length rest) (n - 4)
    then ended
    else received (take (n - 4) rest) (drop (n - 4) rest)

unfoldable pub read_packet : ℕ → Text → Incoming Text
read_packet limit (a ∷ b ∷ c ∷ d ∷ rest) = read_body limit (from_be a b c d) rest
read_packet limit _ = ended

unfoldable pub framed : ℕ → Incoming Text → Incoming Frame
framed kind ended = ended
framed kind malformed = malformed
framed kind (received body rest) = received (record { kind = kind; body = body }) rest

unfoldable pub read_frame : Text → Incoming Frame
read_frame [] = ended
read_frame (kind ∷ rest) = framed kind (read_packet max_frame rest)

-- The bytes that `writePacket` and `writeFrame` write.
unfoldable pub write_packet : Text → Text
write_packet b = be_bytes ((length b + 4) % 2 ^ 32) ++ b

unfoldable pub write_frame : Frame → Text
write_frame f = f.kind ∷ write_packet f.body

header_size :
    (n : ℕ)
    → n < 4294967296
    → from_be (n / 16777216 % 256) (n / 65536 % 256) (n / 256 % 256) (n % 256) ≡ n
unfolding from_be
header_size n h = omega (arith, h)

read_body-append :
    (body rest : Text)
    → length body + 4 ≤ max_frame
    → read_body max_frame ((length body + 4) % 2 ^ 32) (body ++ rest) ≡ received body rest
unfolding read_body
read_body-append body rest h =
    let same : (length body + 4) % 2 ^ 32 - 4 ≡ length body = omega (arith, h) in
    ground (
      arith,
      h,
      same,
      length-append body rest,
      take-length-append body rest,
      drop-length-append body rest,
    )

-- A frame with a body of at most 2^20 - 4 bytes is read as it was written, whatever bytes follow, and leaves them.
pub read_frame-write_frame :
    (f : Frame) (rest : Text)
    → length f.body + 4 ≤ max_frame
    → read_frame (write_frame f ++ rest) ≡ received f rest
unfolding read_frame write_frame write_packet read_packet be_bytes framed
read_frame-write_frame f rest h =
    let n = (length f.body + 4) % 2 ^ 32 in
    rw (header_size n (omega arith)) (rw (read_body-append f.body rest h) refl)

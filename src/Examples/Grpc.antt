-- ===== src/Examples/Grpc.antt =====
-- A deadline of one second and a half.
use faultline.Common.{ℕ, some, ◌≡◌, Text, arith}
use faultline.Common.Int.{pos}
use faultline.Grpc.Timeout.{timeout, timeout_header}
use faultline.Grpc.RoundTrip.{IsRead, timeout-timeout_header}

timeout-timeout_header_example :
    (value : Text) × (d' : ℕ) × (timeout_header (pos 1500000000) ≡ some value)
    × (timeout value ≡ some d')
    × IsRead 1500000000 d'
timeout-timeout_header_example = timeout-timeout_header (pos 1500000000) (omega arith)

-- ===== src/Grpc.antt =====
-- internal/proxy/grpc/protocol.go: the deadline in a header, and what makes a request a call.
pub mod RoundTrip
pub mod Timeout
pub mod Metadata

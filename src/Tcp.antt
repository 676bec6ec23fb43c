-- ===== src/Tcp.antt =====
-- internal/proxy/tcp/server.go: the fault of a connection and the pump of one direction.
pub mod Fault
pub mod Pump
pub mod Trigger
pub mod Hold
pub mod Connection
pub mod Counted

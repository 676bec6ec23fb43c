-- ===== src/Http.antt =====
-- internal/proxy/http: one request through the HTTP proxy, and the server's listeners.
pub mod Report
pub mod Flow
pub mod Handler
pub mod Serve
pub mod Sound
pub mod Kept
pub mod Executed
pub mod Acted
pub mod Done
pub mod Copied
pub mod Relayed
pub mod Settled
pub mod Admitted
pub mod Served

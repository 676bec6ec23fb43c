-- ===== src/Postgresql.antt =====
-- internal/proxy/postgresql: frames, the startup message and the authentication.
pub mod Wire
pub mod Startup
pub mod Authentication
pub mod Stages
pub mod Exchange

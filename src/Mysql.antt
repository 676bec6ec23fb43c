-- ===== src/Mysql.antt =====
-- internal/proxy/mysql: packets, the session's exchange and the greeting.
pub mod Wire
pub mod RoundTrip
pub mod Greeting
pub mod Session
pub mod Exchange
pub mod Quiet
pub mod Confirmed
pub mod Asked
pub mod Lost

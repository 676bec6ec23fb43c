-- ===== src/Examples.antt =====
-- Concrete inputs at which the theorems apply.
pub mod Admin
pub mod Config
pub mod Engine
pub mod Control
pub mod Exchange
pub mod Fault
pub mod Grpc
pub mod Http
pub mod Mysql
pub mod Postgresql
pub mod Recorder
pub mod Remote
pub mod Tcp
pub mod Validate

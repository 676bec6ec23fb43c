-- ===== src/Control.antt =====
-- internal/control/service.go: the published revision and its operations.
pub mod Service
pub mod Advance
pub mod Apply
pub mod Snapshots
pub mod Runs
pub mod Total
pub mod Admin

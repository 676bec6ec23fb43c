-- ===== src/Config.antt =====
-- internal/config: the configuration document and its validation.
pub mod Model
pub mod Errors
pub mod Names
pub mod Selector
pub mod Faults
pub mod Pattern
pub mod Rules
pub mod Document
pub mod Platform
pub mod Listener
pub mod Upstream
pub mod Tls
pub mod Validate
pub mod Fingerprint
pub mod Load

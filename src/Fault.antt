-- ===== src/Fault.antt =====
-- internal/fault: the executor of fault actions and the body that truncates or throttles.
pub mod Builtin
pub mod Body

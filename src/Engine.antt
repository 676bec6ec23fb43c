-- ===== src/Engine.antt =====
-- internal/engine: the rule engine of one revision.
pub mod Match
pub mod State

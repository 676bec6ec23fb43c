-- ===== src/Recorder.antt =====
-- internal/recorder/recorder.go: the event queue and its counters.
pub mod State
pub mod Accounting
pub mod Writer
pub mod Runs
pub mod Tally
pub mod Drain
